-- ===== src/Keyring/Effects.antt =====
-- keyring.rs: what a call of a changing operation leaves, by its result.
use tuskd.Prelude.{
  Bool, true, some, List, [], ◌∷◌, ◌++◌, ◌≡◌, any, arith, ◌⊎◌, inl, inr, ℕ, Option-cases,
}
use tuskd.Text.{Text}
use tuskd.Errors.{Result, ok, err, CoreError}
use tuskd.Keyring.Pattern.{Verb, Grants}
use tuskd.Keyring.{
  AgentEntry, CreatedAgent, Keyring, Crypto, by_id, find_agent, update_agent, push_grant, set_token,
  set_revoked, new_entry, token_of, token_hash, create, grant, rotate_token, revoke,
}

-- The list of agents is as before, or is `after`; where the call succeeds it is `after`, and the
-- file holds it.
pub record Effect {ℓ} {A : Type ℓ} (k : Keyring) (after : List AgentEntry) (r : Result A × Keyring)
    : Type ℓ where
  pub either : (r.1.agents ≡ k.agents) ⊎ (r.1.agents ≡ after)
  pub stored : (a : A) → r.0 ≡ ok a → (r.1.agents ≡ after) × (r.1.file ≡ some after)

pub grant-Effect :
    (written : Bool) (id : Text) (verb : Verb) (pattern : Text) (k : Keyring)
    → Effect k
        (update_agent id (push_grant verb pattern) k.agents)
        (grant written id verb pattern k)
unfolding grant
grant-Effect written id verb pattern k = record {
  either = ground arith;
  stored = λ a h. ground arith;
}

pub revoke-Effect :
    (written : Bool) (id : Text) (k : Keyring)
    → Effect k (update_agent id set_revoked k.agents) (revoke written id k)
unfolding revoke
revoke-Effect written id k = record { either = ground arith; stored = λ a h. ground arith }

pub rotate_token-Effect :
    (c : Crypto) (written : Bool) (secret : List ℕ) (id : Text) (k : Keyring)
    → Effect k
        (update_agent id (set_token (token_hash c (token_of c secret))) k.agents)
        (rotate_token c written secret id k)
unfolding rotate_token
rotate_token-Effect c written secret id k = record {
  either = ground arith;
  stored = λ a h. ground arith;
}

pub create-Effect :
    (c : Crypto) (written : Bool) (secret : List ℕ) (private public now id : Text) (grants : Grants)
    (k : Keyring)
    → Effect k
        (k.agents ++ new_entry id public (token_hash c (token_of c secret)) grants now ∷ [])
        (create c written secret (ok (private, public)) now id grants k)
unfolding create
create-Effect c written secret private public now id grants k = record {
  either = ground arith;
  stored = λ a h. ground arith;
}

-- Only an id that no agent has is added.
pub create-fresh :
    (c : Crypto) (written : Bool) (secret : List ℕ) (keys : Result (Text × Text)) (now id : Text)
    (grants : Grants) (k : Keyring)
    → any (by_id id) k.agents ≡ true
    → (create c written secret keys now id grants k).1 ≡ k
unfolding create
create-fresh c written secret keys now id grants k h = ground arith

pub create-no_keys :
    (c : Crypto) (written : Bool) (secret : List ℕ) (e : CoreError) (now id : Text)
    (grants : Grants) (k : Keyring)
    → (create c written secret (err e) now id grants k).1 ≡ k
unfolding create
create-no_keys c written secret e now id grants k = ground arith

pub create-token :
    (c : Crypto) (written : Bool) (secret : List ℕ) (private public now id : Text) (grants : Grants)
    (k : Keyring) (made : CreatedAgent)
    → (create c written secret (ok (private, public)) now id grants k).0 ≡ ok made
    → made.token ≡ token_of c secret
unfolding create
create-token c written secret private public now id grants k made h = ground arith

-- A rotation succeeds only for a registered agent, and returns the token of its secret.
pub rotate_token-found :
    (c : Crypto) (written : Bool) (secret : List ℕ) (id token : Text) (k : Keyring)
    → (rotate_token c written secret id k).0 ≡ ok token
    → (a : AgentEntry) × (find_agent id k.agents ≡ some a) × (token ≡ token_of c secret)
unfolding rotate_token
rotate_token-found c written secret id token k h = elim (Option-cases (find_agent id k.agents)) [
  | inl e ↦ absurd (ground arith)
  | inr (a, e) ↦ (a, e, ground arith)
]
