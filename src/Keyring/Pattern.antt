-- ===== src/Keyring/Pattern.antt =====
-- keyring.rs: verbs, grants and grant patterns.
use tuskd.Prelude.{
  Bool, true, false, Option, none, some, List, [], ◌∷◌, ◌==◌, ◌||◌, if◌then◌else◌, ℕ_eq,
}
use tuskd.Text.{Text, codes, Text_eq, strip_prefix, strip_suffix}
use tuskd.Errors.{Result, ok, err, other, unknown_verb, ◌>>=◌}
use tuskd.Scope
use tuskd.Scope.{Scope}

pub data Verb : Type 0 where
  read write promote : Verb

unfoldable pub parse_verb : Text → Result Verb
parse_verb s =
    if s == codes "read"
    then ok read
    else if s == codes "write"
    then ok write
    else if s == codes "promote"
    then ok promote
    else err (other (unknown_verb s))

unfoldable pub verb_to_string : Verb → Text
verb_to_string read = codes "read"
verb_to_string write = codes "write"
verb_to_string promote = codes "promote"

pub record Grants : Type 0 where
  pub read : List Text
  pub write : List Text
  pub promote : List Text

unfoldable pub for_verb : Grants → Verb → List Text
for_verb g read = g.read
for_verb g write = g.write
for_verb g promote = g.promote

-- A write through `for_verb_mut`.
unfoldable pub set_for_verb : Grants → Verb → List Text → Grants
set_for_verb g read l = record g { read = l }
set_for_verb g write l = record g { write = l }
set_for_verb g promote l = record g { promote = l }

-- A grant pattern is a valid scope or a `kind:*` wildcard.
unfoldable pub validate_pattern : Text → Result (Unit {0})
validate_pattern pattern =
    if (pattern == codes "agent:*") || (pattern == codes "project:*")
    then ok tt
    else Scope.parse pattern >>= λ _. ok tt

abbrev is_nonempty : Text → Bool
is_nonempty [] = false
is_nonempty (_ ∷ _) = true

-- `.and_then(|rest| rest.strip_prefix(':')).is_some_and(|id| !id.is_empty())`
unfoldable pub has_id : Option Text → Bool
unfolding strip_prefix
has_id none = false
has_id (some rest) = elim (strip_prefix (codes ":") rest) [
  | none ↦ false
  | some id ↦ is_nonempty id
]

unfoldable pub wildcard_matches : Option Text → Text → Bool
unfolding has_id
wildcard_matches none scope_str = false
wildcard_matches (some kind) scope_str = has_id (strip_prefix kind scope_str)

-- Does `pattern` entitle `scope`? Exact match, or `kind:*` prefix wildcard.
unfoldable pub pattern_matches : Text → Scope → Bool
unfolding wildcard_matches Scope.to_string
pattern_matches pattern scope =
    if pattern == Scope.to_string scope
    then true
    else wildcard_matches (strip_suffix (codes ":*") pattern) (Scope.to_string scope)
