-- ===== src/Tools/Guards.antt =====
-- tools.rs: what the tools refuse.
use tuskd.Prelude.{
  Bool, true, false, some, List, [], ◌∷◌, ◌≡◌, ◌≢◌, refl, ap, sym, ◌||◌, any, all, all-append,
  Option-cases, Bool-cases, inl, inr, contains, subst,
}
use tuskd.Text.{Text, Text_eq}
use tuskd.Errors.{Message, unknown_agent, revoked_agent, Result, ok, err, denied}
use tuskd.Floats.{Floats}
use tuskd.Scope
use tuskd.Scope.{Scope, Scope_eq, own}
use tuskd.Scope.Roundtrip.{to_string-parse}
use tuskd.Keyring.{Keyring, AgentEntry, find_agent, can}
use tuskd.Keyring.Pattern.{read, promote, for_verb, pattern_matches}
use tuskd.Keyring.Agents.{find_agent-id}
use tuskd.Keyring.Matching.{Covers, pattern_matches_iff}
use tuskd.Keyring.Access.{can_iff}
use tuskd.Journal.{Services}
use tuskd.Index.Search.{Engine}
use tuskd.Gate.Commit.{Config}
use package.tuskd.Tools.Args.{Value}
use package.tuskd.Tools.Handlers.{TuskContext, UnitInterval}
use package.tuskd.Tools.Search.{
  push_new, push_match, push_parsed, push_matching, push_pattern, push_patterns, is_wildcard,
  entitled_read_scopes,
}
use package.tuskd.Tools.Dispatch.{dispatch}

-- The result is a denial, and the state is as it was.
abbrev pub Denies : {S A : Type 0} → Result A × S → S → Type 0
Denies r x = (m : Message) × (r ≡ (err (denied m), x))

module _ {fl : Floats} (sv : Services) (cf : Config fl sv) (ui : UnitInterval fl)
    (agent_id : Text) where
  -- No tool does anything for an agent that is not registered or is revoked: the call is denied, and
  -- nothing changes.
  pub dispatch_denied :
      (engine : Engine fl sv.chrono) (name : Text) (args : Value fl) (x : TuskContext fl sv)
      → ((a : AgentEntry) → find_agent agent_id x.keyring.agents ≡ some a → a.revoked ≡ true)
      → Denies (dispatch sv cf ui engine agent_id name args x) x
  unfolding dispatch
  dispatch_denied engine name args x h =
      elim (Option-cases (find_agent agent_id x.keyring.agents)) [
        | inl e ↦ rw e (unknown_agent agent_id, refl)
        | inr (a, e) ↦ rw (e, h a e) (revoked_agent agent_id, refl)
      ]

or_left : {a : Bool} (b : Bool) → a ≡ true → (a || b) ≡ true
or_left b h = rw h refl

or_right : (a : Bool) {b : Bool} → b ≡ true → (a || b) ≡ true
or_right true h = refl
or_right false h = h

Covers-to_string : (s : Scope) → Covers (Scope.to_string s) s
unfolding Scope.to_string
Covers-to_string (Scope.agent id) = inl refl
Covers-to_string (Scope.project id) = inl refl
Covers-to_string Scope.user = refl
Covers-to_string Scope.org = refl

matches_itself :
    (pattern : Text) (s : Scope) → Scope.parse pattern ≡ ok s → pattern_matches pattern s ≡ true
matches_itself pattern s e =
    let (t, v) = to_string-parse pattern s e in
    (pattern_matches_iff pattern s v).1 (subst (λ p. Covers p s) t (Covers-to_string s))

-- Scopes that all have the property.
module _ (P : Scope → Bool) where
  push_new-all :
      (scope : Scope) (out : List Scope)
      → P scope ≡ true
      → all P out ≡ true
      → all P (push_new scope out) ≡ true
  unfolding push_new all
  push_new-all scope out h k = elim (Bool-cases (contains scope out)) [
    | inl e ↦ rw e k
    | inr e ↦ rw (e, all-append P out (scope ∷ []), k, h) refl
  ]

  push_match-all :
      (pattern : Text) (r : Result Scope) (out : List Scope)
      → ((s : Scope) → pattern_matches pattern s ≡ true → P s ≡ true)
      → all P out ≡ true
      → all P (push_match pattern r out) ≡ true
  push_match-all pattern (err e) out h k = k
  push_match-all pattern (ok s) out h k = elim (Bool-cases (pattern_matches pattern s)) [
    | inl e ↦ rw e (push_new-all s out (h s e) k)
    | inr e ↦ rw e k
  ]

  push_matching-all :
      (pattern : Text) (present : List Text) (out : List Scope)
      → ((s : Scope) → pattern_matches pattern s ≡ true → P s ≡ true)
      → all P out ≡ true
      → all P (push_matching pattern present out) ≡ true
  unfolding push_matching
  push_matching-all pattern [] out h k = k
  push_matching-all pattern (text ∷ present) out h k =
      push_matching-all pattern present _ h (push_match-all pattern (Scope.parse text) out h k)

  push_parsed-all :
      (pattern : Text) (r : Result Scope) (out : List Scope)
      → Scope.parse pattern ≡ r
      → ((s : Scope) → pattern_matches pattern s ≡ true → P s ≡ true)
      → all P out ≡ true
      → all P (push_parsed r out) ≡ true
  push_parsed-all pattern (err e) out e2 h k = k
  push_parsed-all pattern (ok s) out e h k = push_new-all s out (h s (matches_itself pattern s e)) k

  push_pattern-all :
      (pattern : Text) (present : List Text) (out : List Scope)
      → ((s : Scope) → pattern_matches pattern s ≡ true → P s ≡ true)
      → all P out ≡ true
      → all P (push_pattern pattern present out) ≡ true
  unfolding push_pattern
  push_pattern-all pattern present out h k = elim (Bool-cases (is_wildcard pattern)) [
    | inl e ↦ rw e (push_matching-all pattern present out h k)
    | inr e ↦ rw e (push_parsed-all pattern (Scope.parse pattern) out refl h k)
  ]

  push_patterns-all :
      (patterns present : List Text) (out : List Scope)
      → ((s : Scope) → any (λ p. pattern_matches p s) patterns ≡ true → P s ≡ true)
      → all P out ≡ true
      → all P (push_patterns patterns present out) ≡ true
  unfolding push_patterns any
  push_patterns-all [] present out h k = k
  push_patterns-all (p ∷ patterns) present out h k =
      push_patterns-all patterns present _ (λ s m. h s (or_right (pattern_matches p s) m))
        (push_pattern-all p present out
          (λ s m. h s (or_left (any (λ q. pattern_matches q s) patterns) m)) k)

read-not_promote : read ≢ promote
read-not_promote e = cc

all-one : (P : Scope → Bool) (s : Scope) → P s ≡ true → all P (s ∷ []) ≡ true
unfolding all
all-one P s h = rw h refl

-- Every scope that a search covers by default is readable: for an agent that is not revoked, each of
-- `entitled_read_scopes` passes `can` for the verb read.
pub entitled_read_scopes-can :
    (agent_id : Text) (present : List Text) (k : Keyring) (a : AgentEntry) (scopes : List Scope)
    → find_agent agent_id k.agents ≡ some a
    → a.revoked ≡ false
    → entitled_read_scopes agent_id present k ≡ ok scopes
    → all (λ s. can agent_id read s k) scopes ≡ true
unfolding entitled_read_scopes
entitled_read_scopes-can agent_id present k a scopes f r e =
    let found : ok (push_patterns (for_verb a.grants read) present (own agent_id ∷ []))
        ≡ ok scopes =
      rw f at e in
    let same : push_patterns (for_verb a.grants read) present (own agent_id ∷ []) ≡ scopes = cc in
    subst (λ l. all (λ s. can agent_id read s k) l ≡ true) same
      (push_patterns-all (λ s. can agent_id read s k) (for_verb a.grants read) present
        (own agent_id ∷ []) (λ s m. (can_iff agent_id read s k).1 (a, f, (r, inr m)))
        (all-one (λ s. can agent_id read s k) (own agent_id)
          ((can_iff agent_id read (own agent_id) k).1
            (a, f, (r, inl (read-not_promote, ap own (sym (find_agent-id agent_id k.agents f))))))))
