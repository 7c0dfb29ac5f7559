-- ===== src/Keyring/Matching.antt =====
-- keyring.rs: which scopes a grant pattern entitles to.
use tuskd.Prelude.{
  ℕ, Bool, true, some, [], ◌∷◌, ◌++◌, ◌≡◌, refl, ap, ◌==◌, not, arith, all, ◌⊎◌, inl, inr, ◌↔◌,
  ℕ_eq, Bool-cases, Option-cases, ◌∙◌, ==-refl,
}
use tuskd.Text.{Text, codes, Text_eq, strip_prefix, strip_suffix, text_eq_iff}
use tuskd.Text.Affix.{strip_prefix-some, strip_suffix-some}
use tuskd.Scope.{Scope, agent, project, user, org, to_string, valid_id, is_id_char}
use tuskd.Scope.Roundtrip.{IsValid, valid_id-chars}
use tuskd.Keyring.Pattern.{pattern_matches, wildcard_matches, has_id}

-- The scopes that a pattern is documented to cover.
abbrev pub Covers : Text → Scope → Type 0
Covers p (agent id) = (p ≡ to_string (agent id)) ⊎ (p ≡ codes "agent:*")
Covers p (project id) = (p ≡ to_string (project id)) ⊎ (p ≡ codes "project:*")
Covers p user = p ≡ codes "user"
Covers p org = p ≡ codes "org"

abbrev not_colon : ℕ → Bool
not_colon c = not (c == b':')

no_colon : (s : Text) → all is_id_char s ≡ true → all not_colon s ≡ true
unfolding all is_id_char
no_colon [] h = refl
no_colon (c ∷ s) h = ground (arith, no_colon s)

colon_absent : (w kind y : Text) → all not_colon w ≡ true → w ≡ kind ++ b':' ∷ y → ⊥
unfolding all
colon_absent [] [] y h e = cc
colon_absent [] (k ∷ kind) y h e = cc
colon_absent (c ∷ w) [] y h e = ground arith
colon_absent (c ∷ w) (k ∷ kind) y h e = colon_absent w kind y (ground arith) (ground arith)

first_colon :
    (a x kind y : Text)
    → all not_colon a ≡ true
    → all not_colon x ≡ true
    → a ++ b':' ∷ x ≡ kind ++ b':' ∷ y
    → kind ≡ a
unfolding all
first_colon [] x [] y ha hx e = refl
first_colon [] x (k ∷ kind) y ha hx e = absurd (colon_absent x kind y hx (ground arith))
first_colon (c ∷ a) x [] y ha hx e = absurd (ground arith)
first_colon (c ∷ a) x (k ∷ kind) y ha hx e =
    ground (arith, first_colon a x kind y (ground arith) hx (ground arith))

colon_split :
    (kind w rest : Text)
    → strip_prefix kind w ≡ some rest
    → has_id (some rest) ≡ true
    → (y : Text) × (w ≡ kind ++ b':' ∷ y)
unfolding has_id
colon_split kind w [] e h = absurd (cc)
colon_split kind w (c ∷ y) e h = (y, strip_prefix-some kind w e ∙ ap (◌++◌ kind) (ground arith))

has_id_split :
    (kind w : Text) → has_id (strip_prefix kind w) ≡ true → (y : Text) × (w ≡ kind ++ b':' ∷ y)
unfolding has_id
has_id_split kind w h = elim (Option-cases (strip_prefix kind w)) [
  | inl e ↦ absurd (cc (rw e at h))
  | inr (rest, e) ↦ colon_split kind w rest e (rw e at h)
]

-- What a match by wildcard found: the pattern, and the scope's text.
wildcard_split :
    (p w : Text)
    → wildcard_matches (strip_suffix (codes ":*") p) w ≡ true
    → (kind : Text) × (y : Text) × (p ≡ kind ++ codes ":*") × (w ≡ kind ++ b':' ∷ y)
unfolding wildcard_matches
wildcard_split p w h = elim (Option-cases (strip_suffix (codes ":*") p)) [
  | inl e ↦ absurd (cc (rw e at h))
  | inr (kind, e) ↦
      let (y, q) = has_id_split kind w (rw e at h) in
      (kind, y, strip_suffix-some (codes ":*") p e, q)
]

agent_text : all not_colon (codes "agent") ≡ true
unfolding all
agent_text = refl

project_text : all not_colon (codes "project") ≡ true
unfolding all
project_text = refl

wildcard_kind :
    (kind0 id p : Text)
    → all not_colon kind0 ≡ true
    → valid_id id ≡ true
    → wildcard_matches (strip_suffix (codes ":*") p) (kind0 ++ b':' ∷ id) ≡ true
    → p ≡ kind0 ++ codes ":*"
wildcard_kind kind0 id p k v h =
    let (kind, y, e, q) = wildcard_split p (kind0 ++ b':' ∷ id) h in
    e
    ∙ ap (λ (t : Text). t ++ codes ":*")
        (first_colon kind0 id kind y k (no_colon id (valid_id-chars id v)) q)

wildcard_none :
    (w p : Text)
    → all not_colon w ≡ true
    → wildcard_matches (strip_suffix (codes ":*") p) w ≡ true
    → ⊥
wildcard_none w p k h = let (kind, y, e, q) = wildcard_split p w h in colon_absent w kind y k q

covered : (p : Text) (s : Scope) → IsValid s → pattern_matches p s ≡ true → Covers p s
unfolding pattern_matches to_string all
covered p (agent id) v h = elim (Bool-cases (p == to_string (agent id))) [
  | inl e ↦ inl ((text_eq_iff p _).0 e)
  | inr e ↦ inr (wildcard_kind (codes "agent") id p agent_text v (rw e at h))
]
covered p (project id) v h = elim (Bool-cases (p == to_string (project id))) [
  | inl e ↦ inl ((text_eq_iff p _).0 e)
  | inr e ↦ inr (wildcard_kind (codes "project") id p project_text v (rw e at h))
]
covered p user v h = elim (Bool-cases (p == codes "user")) [
  | inl e ↦ (text_eq_iff p _).0 e
  | inr e ↦ absurd (wildcard_none (codes "user") p refl (rw e at h))
]
covered p org v h = elim (Bool-cases (p == codes "org")) [
  | inl e ↦ (text_eq_iff p _).0 e
  | inr e ↦ absurd (wildcard_none (codes "org") p refl (rw e at h))
]

exact_matches : (s : Scope) → pattern_matches (to_string s) s ≡ true
unfolding pattern_matches
exact_matches s = rw (==-refl (to_string s))

agent_wildcard : (c : ℕ) (id : Text) → pattern_matches (codes "agent:*") (agent (c ∷ id)) ≡ true
unfolding pattern_matches strip_suffix
agent_wildcard c id = ground arith

project_wildcard :
    (c : ℕ) (id : Text) → pattern_matches (codes "project:*") (project (c ∷ id)) ≡ true
unfolding pattern_matches strip_suffix
project_wildcard c id = ground arith

covers : (p : Text) (s : Scope) → IsValid s → Covers p s → pattern_matches p s ≡ true
unfolding to_string valid_id
covers p (agent id) v (inl e) = rw e (exact_matches (agent id))
covers p (agent (c ∷ id)) v (inr e) = rw e (agent_wildcard c id)
covers p (agent []) v (inr e) = cc
covers p (project id) v (inl e) = rw e (exact_matches (project id))
covers p (project (c ∷ id)) v (inr e) = rw e (project_wildcard c id)
covers p (project []) v (inr e) = cc
covers p user v e = rw e (exact_matches user)
covers p org v e = rw e (exact_matches org)

-- On a valid scope, a grant pattern, whatever its text, matches exactly when it is the scope's own
-- text, or `agent:*` and the scope is an agent's, or `project:*` and the scope is a project's.
pub pattern_matches_iff :
    (p : Text) (s : Scope) → IsValid s → (pattern_matches p s ≡ true) ↔ Covers p s
pattern_matches_iff p s v = (covered p s v, covers p s v)
