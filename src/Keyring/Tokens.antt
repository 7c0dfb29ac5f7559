-- ===== src/Keyring/Tokens.antt =====
-- keyring.rs: bearer tokens.
use tuskd.Prelude.{
  ℕ, Bool, true, false, not, Option, none, some, List, [], ◌∷◌, ◌++◌, ◌≡◌, refl, ap, sym, ◌&&◌,
  arith, contains, ◌⊎◌, inl, inr, ◌↔◌, Bool-cases, subst, ◌∙◌, ==-refl, length,
}
use tuskd.Text.{Text, Text_eq, text_eq_iff}
use tuskd.Errors.{ok, denied, bad_token, ok_or, CoreError}
use tuskd.Keyring.Pattern.{Grants}
use tuskd.Keyring
use tuskd.Keyring.{
  AgentEntry, CreatedAgent, Keyring, Crypto, find_agent, update_agent, set_token, new_entry,
  token_of, token_hash, auth_by_token, auth_loop, ct_eq_digest, stored_digest,
}
use tuskd.Keyring.Agents.{ids, find_agent-update_agent, ids-update_agent}
use tuskd.Keyring.Effects.{rotate_token-Effect, create-Effect, create-token, rotate_token-found}
use tuskd.Keyring.History.{Distinct}

-- What hex and subtle document: decoding undoes encoding, and the comparison decides equality.
pub record CryptoLaws (c : Crypto) : Type 0 where
  pub hex_round : (b : List ℕ) → c.hex_decode (c.hex_encode b) ≡ some b
  pub ct_eq_iff : (a b : List ℕ) → length a ≡ length b → (c.ct_eq a b ≡ true) ↔ (a ≡ b)

-- An entry that the loop would take.
abbrev passes : Crypto → List ℕ → AgentEntry → Bool
passes c digest a = ct_eq_digest c (stored_digest c a) digest && not a.revoked

abbrev Passed : Crypto → List ℕ → Option AgentEntry → Type 0
Passed c digest none = Unit {0}
Passed c digest (some a) = passes c digest a ≡ true

auth_loop-Passed :
    (c : Crypto) (digest : List ℕ) (l : List AgentEntry) (found : Option AgentEntry)
    → Passed c digest found
    → Passed c digest (auth_loop c digest l found)
unfolding auth_loop
auth_loop-Passed c digest [] found h = h
auth_loop-Passed c digest (a ∷ l) found h =
    auth_loop-Passed c digest l _
      (elim (Bool-cases (passes c digest a)) [ inl p ↦ rw p p | inr p ↦ rw p h ])

abbrev In : AgentEntry → List AgentEntry → Type 0
In a [] = ⊥
In a (x ∷ l) = (a ≡ x) ⊎ In a l

auth_loop-In :
    (c : Crypto) (digest : List ℕ) (l : List AgentEntry) (found : Option AgentEntry)
    (a : AgentEntry)
    → auth_loop c digest l found ≡ some a
    → (found ≡ some a) ⊎ In a l
unfolding auth_loop
auth_loop-In c digest [] found a h = inl h
auth_loop-In c digest (x ∷ l) found a h = elim (auth_loop-In c digest l _ a h) [
  | inl p ↦ ground arith
  | inr q ↦ inr (inr q)
]

In-ids : (a : AgentEntry) (l : List AgentEntry) → In a l → contains a.id (ids l) ≡ true
unfolding contains
In-ids a [] h = absurd h
In-ids a (x ∷ l) (inl e) = rw e (rw (==-refl x.id))
In-ids a (x ∷ l) (inr h) = ground (arith, In-ids a l h)

find_agent-In :
    (a : AgentEntry) (l : List AgentEntry) → Distinct (ids l) → In a l → find_agent a.id l ≡ some a
unfolding find_agent
find_agent-In a [] d h = absurd h
find_agent-In a (x ∷ l) d (inl e) = rw e (rw (==-refl x.id))
find_agent-In a (x ∷ l) d (inr h) =
    ground (arith, find_agent-In a l d.1 h, In-ids a l h, text_eq_iff x.id a.id)

ok_or-ok {ℓ} : {A : Type ℓ} (o : Option A) (e : CoreError) {a : A} → ok_or o e ≡ ok a → o ≡ some a
ok_or-ok none e h = cc
ok_or-ok (some b) e h = cc

module _ (c : Crypto) (laws : CryptoLaws c) where
  digest_eq : (a b : List ℕ) → ct_eq_digest c a b ≡ true → a ≡ b
  unfolding ct_eq_digest
  digest_eq a b h = ground (arith, laws.ct_eq_iff a b)

  digest_refl : (a : List ℕ) → ct_eq_digest c a a ≡ true
  unfolding ct_eq_digest
  digest_refl a = ground (arith, laws.ct_eq_iff a a)

  stored_hash :
      (a : AgentEntry) (t : Text) → a.token_sha256 ≡ token_hash c t → stored_digest c a ≡ c.sha256 t
  unfolding stored_digest token_hash
  stored_hash a t h = ground (arith, laws.hex_round (c.sha256 t))

  passed :
      (k : Keyring) (t : Text) (a : AgentEntry)
      → auth_by_token c t k ≡ ok a
      → passes c (c.sha256 t) a ≡ true
  unfolding auth_by_token
  passed k t a h =
      subst (Passed c (c.sha256 t)) (ok_or-ok _ _ h)
        (auth_loop-Passed c (c.sha256 t) k.agents none tt)

  found_by_token :
      (k : Keyring) (t : Text) (a : AgentEntry)
      → Distinct (ids k.agents)
      → auth_by_token c t k ≡ ok a
      → find_agent a.id k.agents ≡ some a
  unfolding auth_by_token
  found_by_token k t a d h = elim (auth_loop-In c (c.sha256 t) k.agents none a (ok_or-ok _ _ h)) [
    | inl p ↦ cc
    | inr p ↦ find_agent-In a k.agents d p
  ]

  -- A token authenticates only as a registered agent that is not revoked, whose stored digest is the
  -- token's, where the ids of the keyring are distinct.
  pub auth_by_token_sound :
      (k : Keyring) (t : Text) (a : AgentEntry)
      → Distinct (ids k.agents)
      → auth_by_token c t k ≡ ok a
      → (find_agent a.id k.agents ≡ some a) × (a.revoked ≡ false) × (stored_digest c a ≡ c.sha256 t)
  auth_by_token_sound k t a d h =
      let p = passed k t a h in
      (found_by_token k t a d h, ground arith, digest_eq _ _ (ground arith))

  auth_loop_last :
      (digest : List ℕ) (l : List AgentEntry) (e : AgentEntry) (found : Option AgentEntry)
      → passes c digest e ≡ true
      → auth_loop c digest (l ++ e ∷ []) found ≡ some e
  unfolding auth_loop
  auth_loop_last digest [] e found h = rw h
  auth_loop_last digest (x ∷ l) e found h = auth_loop_last digest l e _ h

  new_passes :
      (secret : List ℕ) (id public now : Text) (g : Grants)
      → passes c
          (c.sha256 (token_of c secret))
          (new_entry id public (token_hash c (token_of c secret)) g now)
        ≡ true
  unfolding new_entry
  new_passes secret id public now g =
      rw
        (stored_hash (new_entry id public (token_hash c (token_of c secret)) g now)
          (token_of c secret) refl)
        (rw (digest_refl (c.sha256 (token_of c secret))))

  -- The token that a successful `create` returns authenticates as the new agent, whoever else is
  -- registered.
  pub auth-create :
      (secret : List ℕ) (private public now id : Text) (g : Grants) (written : Bool) (k : Keyring)
      (made : CreatedAgent)
      → (Keyring.create c written secret (ok (private, public)) now id g k).0 ≡ ok made
      → auth_by_token c made.token
          (Keyring.create c written secret (ok (private, public)) now id g k).1
        ≡ ok (new_entry id public (token_hash c made.token) g now)
  unfolding auth_by_token
  auth-create secret private public now id g written k made h =
      rw (((create-Effect c written secret private public now id g k).stored made h).0) (
        rw (create-token c written secret private public now id g k made h) (
          ap (λ (o : Option AgentEntry). ok_or o (denied bad_token))
            (auth_loop_last (c.sha256 (token_of c secret)) k.agents _ none
              (new_passes secret id public now g))))

  replaced :
      (secret : List ℕ) (id t : Text) (l : List AgentEntry) (a b : AgentEntry)
      → find_agent id l ≡ some b
      → find_agent id (update_agent id (set_token (token_hash c (token_of c secret))) l) ≡ some a
      → stored_digest c a ≡ c.sha256 t
      → c.sha256 t ≡ c.sha256 (token_of c secret)
  unfolding set_token
  replaced secret id t l a b found now stored =
      sym stored
      ∙ stored_hash a (token_of c secret) (
          ground (
            arith,
            find_agent-update_agent id id (set_token (token_hash c (token_of c secret))) l
                (λ x. refl),
            ==-refl id,
          ))

  -- After a rotation, only a token with the digest of the new one authenticates as the agent: the old
  -- token is refused unless the two digests collide. The ids of the keyring are distinct.
  pub rotate_token-replaces :
      (written : Bool) (secret : List ℕ) (id token t : Text) (k : Keyring) (a : AgentEntry)
      → Distinct (ids k.agents)
      → (Keyring.rotate_token c written secret id k).0 ≡ ok token
      → auth_by_token c t (Keyring.rotate_token c written secret id k).1 ≡ ok a
      → a.id ≡ id
      → c.sha256 t ≡ c.sha256 token
  unfolding set_token
  rotate_token-replaces written secret id token t k a d h auth e =
      let (b, found, fresh) = rotate_token-found c written secret id token k h in
      let (now, live, stored) = auth_by_token_sound k' t a d' auth in
      replaced secret id t k.agents a b found
        (sym (ap (find_agent id) after) ∙ sym (ap (λ (x : Text). find_agent x k'.agents) e) ∙ now)
        stored
      ∙ ap c.sha256 (sym fresh)
    where
      k' : Keyring
      k' = (Keyring.rotate_token c written secret id k).1

      after : k'.agents ≡ update_agent id (set_token (token_hash c (token_of c secret))) k.agents
      after = ((rotate_token-Effect c written secret id k).stored token h).0

      d' : Distinct (ids k'.agents)
      d' =
          rw
            (
              after,
              ids-update_agent id (set_token (token_hash c (token_of c secret))) k.agents
                  (λ x. refl),
            )
            d
