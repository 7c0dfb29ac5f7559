-- ===== src/Scope.antt =====
-- crates/tusk-core/src/scope.rs
mod Grammar
pub mod Roundtrip
unfoldable pub use Grammar.{is_id_char, valid_id}
use tuskd.Prelude.{
  ℕ, Bool, true, false, Option, none, some, List, [], ◌∷◌, ◌++◌, map, ◌&&◌, ◌||◌, if◌then◌else◌,
  ◌==◌, ℕ_eq, ◌≡◌, refl, PartialEq, ◌↔◌, arith, all,
}
use tuskd.Text.{Text, codes, Text_eq, strip_prefix, text_eq_iff}
use tuskd.Errors.{Result, ok, err, invalid_scope}

pub data Scope : Type 0 where
  agent : Text → Scope
  project : Text → Scope
  user org : Scope

abbrev agent_prefix : Text
agent_prefix = codes "agent:"

abbrev project_prefix : Text
project_prefix = codes "project:"

-- the two `strip_prefix` arms of `parse`
parse_project : Text → Option Text → Result Scope
parse_project s none = err (invalid_scope s)
parse_project s (some id) = if valid_id id then ok (project id) else err (invalid_scope s)

parse_agent : Text → Option Text → Result Scope
unfolding parse_project
parse_agent s none = parse_project s (strip_prefix project_prefix s)
parse_agent s (some id) = if valid_id id then ok (agent id) else err (invalid_scope s)

unfoldable pub parse : Text → Result Scope
unfolding parse_agent
parse s =
    if s == codes "user"
    then ok user
    else if s == codes "org"
    then ok org
    else parse_agent s (strip_prefix agent_prefix s)

-- `Display`
unfoldable pub to_string : Scope → Text
to_string (agent id) = agent_prefix ++ id
to_string (project id) = project_prefix ++ id
to_string user = codes "user"
to_string org = codes "org"

-- The path below `memory/`, by its components.
unfoldable pub rel_path : Scope → List Text
rel_path (agent id) = codes "agent" ∷ id ∷ []
rel_path (project id) = codes "project" ∷ id ∷ []
rel_path user = codes "user" ∷ []
rel_path org = codes "org" ∷ []

dash : ℕ → ℕ
dash c = if c == b':' then b'-' else c

-- `to_string().replace(':', "-")`
unfoldable pub dashed : Scope → Text
unfolding to_string dash
dashed s = map dash (to_string s)

unfoldable pub own : Text → Scope
own agent_id = agent agent_id

unfoldable pub scope_eq : Scope → Scope → Bool
scope_eq (agent a) (agent b) = a == b
scope_eq (project a) (project b) = a == b
scope_eq user user = true
scope_eq org org = true
scope_eq _ _ = false

pub scope_eq_iff : (s t : Scope) → (scope_eq s t ≡ true) ↔ (s ≡ t)
unfolding scope_eq
scope_eq_iff (agent a) (agent b) = ground (arith, text_eq_iff a b)
scope_eq_iff (project a) (project b) = ground (arith, text_eq_iff a b)
scope_eq_iff user user = (λ _. refl, λ _. refl)
scope_eq_iff org org = (λ _. refl, λ _. refl)
scope_eq_iff _ _ = ground arith

-- `#[derive(PartialEq)]`
instance abbrev pub Scope_eq : PartialEq Scope
Scope_eq = record { eq = scope_eq; eq_iff = scope_eq_iff }
