-- ===== src/Scope/Roundtrip.antt =====
-- scope.rs: `parse` and `Display` are inverse to one another.
use tuskd.Prelude.{
  ℕ, all, map, true, Option, none, some, [], ◌∷◌, ◌≡◌, refl, sym, arith, subst, ◌==◌, Bool-cases,
  inl, inr,
}
use tuskd.Text.{Text, codes, Text_eq, strip_prefix, text_eq_iff}
use tuskd.Text.Affix.{strip_prefix-some}
use tuskd.Errors.{Result, ok, err}
use tuskd.Scope.{
  Scope, agent, project, user, org, valid_id, parse, parse_agent, parse_project, to_string,
  agent_prefix, project_prefix, dash, dashed, rel_path,
}
use tuskd.Scope.Grammar.{is_id_char}

-- The ids in a scope obey the grammar.
abbrev pub IsValid : Scope → Type 0
IsValid (agent id) = valid_id id ≡ true
IsValid (project id) = valid_id id ≡ true
IsValid _ = Unit {0}

pub parse-to_string : (s : Scope) → IsValid s → parse (to_string s) ≡ ok s
unfolding parse to_string strip_prefix
parse-to_string (agent id) h = ground arith
parse-to_string (project id) h = ground arith
parse-to_string user h = refl
parse-to_string org h = refl

Parsed : Text → Result Scope → Type 0
Parsed t (ok s) = (to_string s ≡ t) × IsValid s
Parsed t (err e) = Unit {0}

parse_project-Parsed :
    (t : Text) (o : Option Text) → o ≡ strip_prefix project_prefix t → Parsed t (parse_project t o)
unfolding Parsed parse_project to_string
parse_project-Parsed t none h = tt
parse_project-Parsed t (some id) h = elim (Bool-cases (valid_id id)) [
  | inl v ↦ rw v (sym (strip_prefix-some project_prefix t (sym h)), v)
  | inr v ↦ rw v tt
]

parse_agent-Parsed :
    (t : Text) (o : Option Text) → o ≡ strip_prefix agent_prefix t → Parsed t (parse_agent t o)
unfolding Parsed parse_agent to_string
parse_agent-Parsed t none h = parse_project-Parsed t _ refl
parse_agent-Parsed t (some id) h = elim (Bool-cases (valid_id id)) [
  | inl v ↦ rw v (sym (strip_prefix-some agent_prefix t (sym h)), v)
  | inr v ↦ rw v tt
]

parse-Parsed : (t : Text) → Parsed t (parse t)
unfolding parse Parsed to_string
parse-Parsed t = elim (Bool-cases (t == codes "user")) [
  | inl u ↦ rw u (sym ((text_eq_iff t (codes "user")).0 u), tt)
  | inr n ↦ rw n (elim (Bool-cases (t == codes "org")) [
    | inl u ↦ rw u (sym ((text_eq_iff t (codes "org")).0 u), tt)
    | inr m ↦ rw m (parse_agent-Parsed t _ refl)
  ])
]

-- A text that `parse` accepts as a scope is the text that the scope prints, and the scope is valid.
pub to_string-parse : (t : Text) (s : Scope) → parse t ≡ ok s → (to_string s ≡ t) × IsValid s
unfolding Parsed
to_string-parse t s h = subst (Parsed t) h (parse-Parsed t)

-- Two scopes that print the same text are one, valid or not.
pub to_string-injective : (s t : Scope) → to_string s ≡ to_string t → s ≡ t
unfolding to_string
to_string-injective (agent a) (agent b) h = ground arith
to_string-injective _ _ h = ground arith

-- A valid id has no colon, so that the directory names of scopes stay apart.
id_char_not_colon : (c : ℕ) → is_id_char c ≡ true → dash c ≡ c
unfolding is_id_char dash
id_char_not_colon c h = ground arith

map-dash_id : (s : Text) → all is_id_char s ≡ true → map dash s ≡ s
unfolding all
map-dash_id [] h = refl
map-dash_id (c ∷ s) h = ground (arith, id_char_not_colon c, map-dash_id s)

pub valid_id-chars : (s : Text) → valid_id s ≡ true → all is_id_char s ≡ true
unfolding valid_id
valid_id-chars [] h = cc
valid_id-chars (c ∷ s) h = ground arith

map-dash_valid : (s : Text) → valid_id s ≡ true → map dash s ≡ s
map-dash_valid s h = map-dash_id s (valid_id-chars s h)

-- Distinct valid scopes have distinct directories of skills, and distinct directories of records.
pub dashed-injective : (s t : Scope) → IsValid s → IsValid t → dashed s ≡ dashed t → s ≡ t
unfolding dashed dash to_string
dashed-injective (agent a) (agent b) v w h = ground (arith, map-dash_valid a v, map-dash_valid b w)
dashed-injective (project a) (project b) v w h =
    ground (arith, map-dash_valid a v, map-dash_valid b w)
dashed-injective _ _ v w h = ground arith

pub rel_path-injective : (s t : Scope) → rel_path s ≡ rel_path t → s ≡ t
unfolding rel_path
rel_path-injective (agent a) (agent b) h = ground arith
rel_path-injective _ _ h = ground arith
