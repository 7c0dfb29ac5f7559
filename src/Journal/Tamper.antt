-- ===== src/Journal/Tamper.antt =====
-- sync.rs: what the last hash of a journal says of all its lines.
use tuskd.Prelude.{
  ℕ, suc, none, some, List, [], ◌∷◌, ◌++◌, ◌≡◌, ◌≢◌, refl, ap, ap₂, sym, ◌∙◌, append-nil, subst,
  ◌⊎◌, inl, inr, Bool-cases, ◌==◌,
}
use tuskd.Text.{Text, Text_eq, text_eq_iff, codes}
use tuskd.Errors.{ok}
use package.tuskd.Journal.{JournalEntry, Services, content_hash, genesis_hash, verify}
use package.tuskd.Journal.Chain.{verify-cases, verify-nil}

-- The seed is not a JSON text, so it is never read as an entry.
pub record SeedLaws (sv : Services) : Type 0 where
  pub seed_no_line : (s : Text) → sv.from_slice (codes "tuskd-journal:" ++ s) ≡ none

-- Two texts with one hash.
abbrev pub Collision : Services → Type 0
Collision sv = (s : Text) × (t : Text) × (s ≢ t) × (content_hash sv s ≡ content_hash sv t)

same_or_Collision :
    (sv : Services) (s t : Text) → content_hash sv s ≡ content_hash sv t → (s ≡ t) ⊎ Collision sv
same_or_Collision sv s t h = elim (Bool-cases (s == t)) [
  | inl e ↦ inl ((text_eq_iff s t).0 e)
  | inr e ↦ inr (s, t, (λ p. (let q = (text_eq_iff s t).1 p in cc)), h)
]

or_else : {A B C : Type 0} → (A → B) → A ⊎ C → B ⊎ C
or_else f (inl a) = inl (f a)
or_else f (inr c) = inr c

-- The lines of a chain from its end: each is read, and the next hash is the one it names.
abbrev Back : Services → Text → List Text → Text → Type 0
Back sv seed [] hash = hash ≡ seed
Back sv seed (line ∷ lines) hash =
    (content_hash sv line ≡ hash)
    × ((entry : JournalEntry) × (sv.from_slice line ≡ some entry) × Back sv seed lines entry.prev)

abbrev shunt : List Text → List Text → List Text
shunt seen [] = seen
shunt seen (line ∷ lines) = shunt (line ∷ seen) lines

shunt-shunt :
    (acc seen lines : List Text) → shunt acc (shunt seen lines) ≡ shunt (lines ++ acc) seen
shunt-shunt acc seen [] = refl
shunt-shunt acc seen (line ∷ lines) = shunt-shunt acc (line ∷ seen) lines

shunt-injective : (a b : List Text) → shunt [] a ≡ shunt [] b → a ≡ b
shunt-injective a b h =
    sym (append-nil a)
    ∙ sym (shunt-shunt [] [] a)
    ∙ ap (shunt []) h
    ∙ shunt-shunt [] [] b
    ∙ append-nil b

verify-Back :
    (sv : Services) (seed : Text) (n : ℕ) (running last : Text) (seen lines : List Text)
    → Back sv seed seen running
    → verify sv n running lines ≡ ok last
    → Back sv seed (shunt seen lines) last
verify-Back sv seed n running last seen [] b h =
    subst (Back sv seed seen) (verify-nil sv n running last h) b
verify-Back sv seed n running last seen (line ∷ lines) b h =
    let (entry, e, p, rest) = verify-cases sv n running last line lines h in
    verify-Back sv seed (suc n) (content_hash sv line) last (line ∷ seen) lines
      (refl, (entry, e, subst (Back sv seed seen) (sym p) b)) rest

module _ {sv : Services} (laws : SeedLaws sv) where
  line_as_seed :
      (vault_id line : Text) (entry : JournalEntry)
      → sv.from_slice line ≡ some entry
      → content_hash sv line ≡ genesis_hash sv vault_id
      → Collision sv
  unfolding genesis_hash content_hash
  line_as_seed vault_id line entry e h = (
    line,
    codes "tuskd-journal:" ++ vault_id,
    (λ p. (let none_there = laws.seed_no_line vault_id in let f = ap sv.from_slice p in cc)),
    h,
  )

  Back-unique :
      (vault_id hash : Text) (a b : List Text)
      → Back sv (genesis_hash sv vault_id) a hash
      → Back sv (genesis_hash sv vault_id) b hash
      → (a ≡ b) ⊎ Collision sv
  Back-unique vault_id hash [] [] h k = inl refl
  Back-unique vault_id hash (l ∷ a) [] (h, (entry, e, rest)) k =
      inr (line_as_seed vault_id l entry e (h ∙ k))
  Back-unique vault_id hash [] (m ∷ b) k (h, (entry, e, rest)) =
      inr (line_as_seed vault_id m entry e (h ∙ k))
  Back-unique vault_id hash (l ∷ a) (m ∷ b) (h, (entry, e, rest)) (k, (other, f, after)) =
      longer (same_or_Collision sv l m (h ∙ sym k)) (λ (one : entry ≡ other).
        Back-unique vault_id other.prev a b
          (subst (λ (x : JournalEntry). Back sv (genesis_hash sv vault_id) a x.prev) one rest)
          after)
    where
      longer :
          (l ≡ m) ⊎ Collision sv
          → (entry ≡ other → (a ≡ b) ⊎ Collision sv)
          → ((l ∷ a) ≡ m ∷ b) ⊎ Collision sv
      longer (inl same) earlier = or_else (λ (q : a ≡ b). ap₂ ◌∷◌ same q) (earlier cc)
      longer (inr c) earlier = inr c

  -- Where two files verify for one vault up to the same hash, they have the same lines, or two different
  -- texts with one hash are found: without a collision no line before the last hash can be changed,
  -- added, dropped or moved. The one condition is that no text that starts as the seed does is read as an
  -- entry.
  pub verify_unique :
      (vault_id last : Text) (a b : List Text)
      → verify sv 0 (genesis_hash sv vault_id) a ≡ ok last
      → verify sv 0 (genesis_hash sv vault_id) b ≡ ok last
      → (a ≡ b) ⊎ Collision sv
  verify_unique vault_id last a b h k =
      let seed = genesis_hash sv vault_id in
      or_else (shunt-injective a b) (
        Back-unique vault_id last (shunt [] a) (shunt [] b)
          (verify-Back sv seed 0 seed last [] a refl h)
          (verify-Back sv seed 0 seed last [] b refl k))
