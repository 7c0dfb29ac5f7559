-- ===== src/Keyring/History.antt =====
-- keyring.rs: what holds after any calls, in any order, some of whose saves fail.
use tuskd.Prelude.{
  ℕ, Bool, true, false, none, some, List, [], ◌∷◌, ◌++◌, ◌≡◌, refl, ap, ◌==◌, ◌||◌, arith, any,
  contains, inl, inr, Bool-cases, Option-cases, ◌∙◌, ==-refl,
}
use tuskd.Text.{Text, Text_eq, text_eq_iff}
use tuskd.Errors.{Result, ok, err}
use tuskd.Scope.{Scope}
use tuskd.Keyring.Pattern.{Verb, Grants}
use tuskd.Keyring
use tuskd.Keyring.{
  AgentEntry, Keyring, Crypto, by_id, find_agent, update_agent, push_grant, set_token, set_revoked,
  new_entry, token_of, token_hash, can, entry_can, open_file,
}
use tuskd.Keyring.Agents.{
  ids, KeepsId, ids-update_agent, find_agent-update_agent, find_agent-append,
}
use tuskd.Keyring.Effects.{
  Effect, grant-Effect, revoke-Effect, rotate_token-Effect, create-Effect, create-fresh,
  create-no_keys,
}

-- A call of an operation that changes the keyring.
pub data Op : Type 0 where
  creates : List ℕ → Result (Text × Text) → Text → Text → Grants → Op
  grants : Text → Verb → Text → Op
  rotates : List ℕ → Text → Op
  revokes : Text → Op

unfoldable pub step : Crypto → Keyring → Bool × Op → Keyring
step c k (written, creates secret keys now id g) =
    (Keyring.create c written secret keys now id g k).1
step c k (written, grants id verb pattern) = (Keyring.grant written id verb pattern k).1
step c k (written, rotates secret id) = (Keyring.rotate_token c written secret id k).1
step c k (written, revokes id) = (Keyring.revoke written id k).1

unfoldable pub run : Crypto → Keyring → List (Bool × Op) → Keyring
unfolding step
run c k [] = k
run c k (op ∷ ops) = run c (step c k op) ops

-- How the list of agents may change: not at all, by a change of the entries of one id, or by a new
-- entry with an id of its own.
data Change (l : List AgentEntry) : List AgentEntry → Type 0 where
  same : Change l l
  changed :
      (id : Text) (f : AgentEntry → AgentEntry)
      → KeepsId f
      → ((a : AgentEntry) → a.revoked ≡ true → (f a).revoked ≡ true)
      → Change l (update_agent id f l)
  added : (e : AgentEntry) → any (by_id e.id) l ≡ false → Change l (l ++ e ∷ [])

Change-of :
    {A : Type 0} (k : Keyring) (l : List AgentEntry) (r : Result A × Keyring)
    → Effect k l r
    → Change k.agents l
    → Change k.agents r.1.agents
Change-of k l r e c = elim e.either [ inl p ↦ rw p same | inr p ↦ rw p c ]

created :
    (c : Crypto) (k : Keyring) (written : Bool) (secret : List ℕ) (keys : Result (Text × Text))
    (now id : Text) (g : Grants)
    → Change k.agents (Keyring.create c written secret keys now id g k).1.agents
unfolding new_entry
created c k written secret (err e) now id g = rw (create-no_keys c written secret e now id g k) same
created c k written secret (ok (private, public)) now id g =
    elim (Bool-cases (any (by_id id) k.agents)) [
      | inl old ↦ rw (create-fresh c written secret (ok (private, public)) now id g k old) same
      | inr new ↦
          Change-of k _ _ (create-Effect c written secret private public now id g k) (added _ new)
    ]

step-Change : (c : Crypto) (k : Keyring) (op : Bool × Op) → Change k.agents (step c k op).agents
unfolding step push_grant set_token set_revoked
step-Change c k (written, creates secret keys now id g) = created c k written secret keys now id g
step-Change c k (written, grants id verb pattern) =
    Change-of k _ _ (grant-Effect written id verb pattern k)
      (changed id (push_grant verb pattern) (λ a. ground arith) (λ a h. ground arith))
step-Change c k (written, rotates secret id) =
    Change-of k _ _ (rotate_token-Effect c written secret id k)
      (changed id (set_token (token_hash c (token_of c secret))) (λ a. refl) (λ a h. h))
step-Change c k (written, revokes id) =
    Change-of k _ _ (revoke-Effect written id k) (changed id set_revoked (λ a. refl) (λ a h. refl))

-- No id stands twice.
abbrev pub Distinct : List Text → Type 0
Distinct [] = Unit {0}
Distinct (x ∷ xs) = (contains x xs ≡ false) × Distinct xs

any-ids : (id : Text) (l : List AgentEntry) → contains id (ids l) ≡ any (by_id id) l
unfolding any contains
any-ids id [] = refl
any-ids id (a ∷ l) = ground (arith, text_eq_iff a.id id, text_eq_iff id a.id, any-ids id l)

contains_last :
    (x y : Text) (xs : List Text) → contains x (xs ++ y ∷ []) ≡ (contains x xs || x == y)
unfolding contains
contains_last x y [] = ground arith
contains_last x y (z ∷ xs) = ground (arith, contains_last x y xs)

Distinct-last :
    (xs : List Text) (y : Text) → Distinct xs → contains y xs ≡ false → Distinct (xs ++ y ∷ [])
unfolding contains
Distinct-last [] y d n = (refl, tt)
Distinct-last (x ∷ xs) y d n = (
  ground (arith, contains_last x y xs, text_eq_iff x y, text_eq_iff y x),
  Distinct-last xs y d.1 (ground arith),
)

ids_last : (l : List AgentEntry) (e : AgentEntry) → ids (l ++ e ∷ []) ≡ ids l ++ e.id ∷ []
ids_last [] e = refl
ids_last (a ∷ l) e = ap (◌∷◌ a.id) (ids_last l e)

Change-Distinct : {l m : List AgentEntry} → Change l m → Distinct (ids l) → Distinct (ids m)
Change-Distinct same d = d
Change-Distinct {l} (changed id f k r) d = rw (ids-update_agent id f l k) d
Change-Distinct {l} (added e n) d =
    rw (ids_last l e) (Distinct-last (ids l) e.id d (any-ids e.id l ∙ n))

run-Distinct :
    (c : Crypto) (k : Keyring) (ops : List (Bool × Op))
    → Distinct (ids k.agents)
    → Distinct (ids (run c k ops).agents)
unfolding run
run-Distinct c k [] d = d
run-Distinct c k (op ∷ ops) d =
    run-Distinct c (step c k op) ops (Change-Distinct (step-Change c k op) d)

-- Whatever operations are called on a keyring that starts empty, and whichever of its saves fail, no
-- two agents have one id.
pub unique_ids :
    (c : Crypto) (ops : List (Bool × Op)) → Distinct (ids (run c (open_file none) ops).agents)
unique_ids c ops = run-Distinct c (open_file none) ops (unfold open_file in tt)

-- The first agent with the id is revoked.
abbrev pub IsRevoked : Text → List AgentEntry → Type 0
IsRevoked id l = (a : AgentEntry) × (find_agent id l ≡ some a) × (a.revoked ≡ true)

updated-IsRevoked :
    (id j : Text) (f : AgentEntry → AgentEntry) (l : List AgentEntry)
    → KeepsId f
    → ((a : AgentEntry) → a.revoked ≡ true → (f a).revoked ≡ true)
    → IsRevoked j l
    → IsRevoked j (update_agent id f l)
updated-IsRevoked id j f l k keep (a, e, h) = elim (Bool-cases (id == j)) [
  | inl p ↦ (f a, find_agent-update_agent id j f l k ∙ rw (p, e), keep a h)
  | inr p ↦ (a, find_agent-update_agent id j f l k ∙ rw (p, e), h)
]

found_any :
    (id : Text) (l : List AgentEntry) {a : AgentEntry}
    → find_agent id l ≡ some a
    → any (by_id id) l ≡ true
unfolding find_agent any
found_any id [] h = cc
found_any id (x ∷ l) {a} h = ground (arith, found_any id l {a = a})

added-IsRevoked :
    (j : Text) (l : List AgentEntry) (e : AgentEntry)
    → any (by_id e.id) l ≡ false
    → IsRevoked j l
    → IsRevoked j (l ++ e ∷ [])
added-IsRevoked j l e n (a, p, h) =
    (a, ground (arith, find_agent-append j l e n, found_any j l p, text_eq_iff e.id j), h)

Change-IsRevoked : (j : Text) {l m : List AgentEntry} → Change l m → IsRevoked j l → IsRevoked j m
Change-IsRevoked j same r = r
Change-IsRevoked j {l} (changed id f k keep) r = updated-IsRevoked id j f l k keep r
Change-IsRevoked j {l} (added e n) r = added-IsRevoked j l e n r

pub run-IsRevoked :
    (c : Crypto) (j : Text) (k : Keyring) (ops : List (Bool × Op))
    → IsRevoked j k.agents
    → IsRevoked j (run c k ops).agents
unfolding run
run-IsRevoked c j k [] r = r
run-IsRevoked c j k (op ∷ ops) r =
    run-IsRevoked c j (step c k op) ops (Change-IsRevoked j (step-Change c k op) r)

revoked_cannot :
    (id : Text) (verb : Verb) (scope : Scope) (k : Keyring)
    → IsRevoked id k.agents
    → can id verb scope k ≡ false
unfolding can entry_can
revoked_cannot id verb scope k (a, e, h) = rw e (rw h)

revoke-found :
    (written : Bool) (id : Text) (k : Keyring)
    → (Keyring.revoke written id k).0 ≡ ok tt
    → (a : AgentEntry) × (find_agent id k.agents ≡ some a)
unfolding Keyring.revoke
revoke-found written id k h = elim (Option-cases (find_agent id k.agents)) [
  | inl e ↦ absurd (ground arith)
  | inr found ↦ found
]

revoke-IsRevoked :
    (written : Bool) (id : Text) (k : Keyring)
    → (Keyring.revoke written id k).0 ≡ ok tt
    → IsRevoked id (Keyring.revoke written id k).1.agents
unfolding set_revoked
revoke-IsRevoked written id k h =
    let (a, e) = revoke-found written id k h in
    let after = ((revoke-Effect written id k).stored tt h).0 in
    rw after (
      set_revoked a,
      find_agent-update_agent id id set_revoked k.agents (λ b. refl) ∙ rw (==-refl id, e),
      refl,
    )

-- Once a revocation has succeeded, the agent is refused every verb on every scope, after any further
-- calls and whichever of their saves fail: no operation brings a revoked agent back.
pub revoked_forever :
    (c : Crypto) (written : Bool) (id : Text) (k : Keyring) (ops : List (Bool × Op)) (verb : Verb)
    (scope : Scope)
    → (Keyring.revoke written id k).0 ≡ ok tt
    → can id verb scope (run c (Keyring.revoke written id k).1 ops) ≡ false
revoked_forever c written id k ops verb scope h =
    revoked_cannot id verb scope _ (run-IsRevoked c id _ ops (revoke-IsRevoked written id k h))
