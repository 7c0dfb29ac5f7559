-- ===== src/Tools/Searches.antt =====
-- tools.rs: the scopes that `memory_search` and `skill_list` hand to the index.
use tuskd.Prelude.{
  Bool, true, false, Option, some, none, List, [], ◌∷◌, ◌≡◌, refl, subst, Bool-cases, inl, inr, all,
}
use tuskd.Text.{Text}
use tuskd.Errors.{Result, ok, err}
use tuskd.Floats.{Floats}
use tuskd.Scope
use tuskd.Scope.{Scope}
use tuskd.Keyring.{can, find_agent, AgentEntry}
use tuskd.Keyring.Pattern.{read}
use tuskd.Journal.{Services}
use tuskd.Index.Search.{Engine}
use package.tuskd.Tools.Handlers.{TuskContext, check}
use package.tuskd.Tools.Search.{checked_scopes, scopes_to_search, scopes_present}
use package.tuskd.Tools.Guards.{entitled_read_scopes-can}
use package.tuskd.Tools.Reads.{Result-cases}

-- The property of the value, where there is one.
abbrev OnOk : {A : Type 0} → (A → Type 0) → Result A → Type 0
OnOk P (ok a) = P a
OnOk P (err e) = Unit {0}

OnOk-ok : {A : Type 0} (P : A → Type 0) (r : Result A) (a : A) → OnOk P r → r ≡ ok a → P a
OnOk-ok P (ok b) a h e = (let k : b ≡ a = cc in subst P k h)
OnOk-ok P (err e2) a h e = absurd (no e)
  where
    no : err e2 ≡ ok a → ⊥
    no e = cc

all-∷ :
    (P : Scope → Bool) (s : Scope) (l : List Scope)
    → P s ≡ true
    → all P l ≡ true
    → all P (s ∷ l) ≡ true
unfolding all
all-∷ P s l h k = rw h k

module _ {fl : Floats} (sv : Services) (engine : Engine fl sv.chrono) (agent_id : Text) where
  abbrev readable : TuskContext fl sv → List Scope → Bool
  readable x scopes = all (λ s. can agent_id read s x.keyring) scopes

  checked_scopes-readable :
      (raws : List Text) (x : TuskContext fl sv)
      → OnOk (λ l. readable x l ≡ true) (checked_scopes sv engine agent_id raws x).0
  unfolding checked_scopes check all
  checked_scopes-readable [] x = refl
  checked_scopes-readable (raw ∷ raws) x = elim (Result-cases (Scope.parse raw)) [
    | inr (e, q) ↦ rw q tt
    | inl (s, q) ↦ elim (Bool-cases (can agent_id read s x.keyring)) [
      | inr c ↦ rw (q, c) tt
      | inl c ↦ elim (Result-cases (checked_scopes sv engine agent_id raws x).0) [
        | inr (e, g) ↦ rw (q, c, g) tt
        | inl (l, g) ↦
            rw (q, c, g) (all-∷ _ s l c (OnOk-ok _ _ l (checked_scopes-readable raws x) g))
      ]
    ]
  ]

  -- The scopes that memory_search and skill_list search, those the call names or the default ones, are all
  -- readable: each passes `can` for the verb read, for an agent that is not revoked.
  pub scopes_to_search-can :
      (raws : Option (List Text)) (x : TuskContext fl sv) (a : AgentEntry) (scopes : List Scope)
      → find_agent agent_id x.keyring.agents ≡ some a
      → a.revoked ≡ false
      → (scopes_to_search sv engine agent_id raws x).0 ≡ ok scopes
      → all (λ s. can agent_id read s x.keyring) scopes ≡ true
  unfolding scopes_to_search
  scopes_to_search-can none x a scopes f r e =
      entitled_read_scopes-can agent_id (scopes_present fl sv x.gate.rows) x.keyring a scopes f r e
  scopes_to_search-can (some raws) x a scopes f r e =
      OnOk-ok _ _ scopes (checked_scopes-readable raws x) e
