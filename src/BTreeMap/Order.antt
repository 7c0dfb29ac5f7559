-- ===== src/BTreeMap/Order.antt =====
-- The keys of a map stand in ascending order, none twice.
use tuskd.Prelude.{
  true, false, none, some, [], ◌∷◌, ◌≡◌, refl, ap, sym, subst, ◌==◌, ◌⊎◌, inl, inr, arith, ℕ_eq,
  Bool-cases,
}
use tuskd.Text.{Text, Text_eq, text_eq_iff}
use package.tuskd.BTreeMap.{BTreeMap, text_lt, lookup, insert, remove}

pub text_lt_irrefl : (s : Text) → text_lt s s ≡ false
unfolding text_lt
text_lt_irrefl [] = refl
text_lt_irrefl (c ∷ s) = ground (arith, text_lt_irrefl s)

pub text_lt_trans : (s t u : Text) → text_lt s t ≡ true → text_lt t u ≡ true → text_lt s u ≡ true
unfolding text_lt
text_lt_trans [] [] u p q = cc
text_lt_trans [] (d ∷ t) [] p q = cc
text_lt_trans [] (d ∷ t) (e ∷ u) p q = refl
text_lt_trans (c ∷ s) [] u p q = cc
text_lt_trans (c ∷ s) (d ∷ t) [] p q = cc
text_lt_trans (c ∷ s) (d ∷ t) (e ∷ u) p q = ground (arith, text_lt_trans s t u)

pub text_lt_total : (s t : Text) → text_lt s t ≡ false → (s == t) ≡ false → text_lt t s ≡ true
unfolding text_lt
text_lt_total [] [] p q = cc
text_lt_total [] (d ∷ t) p q = cc
text_lt_total (c ∷ s) [] p q = refl
text_lt_total (c ∷ s) (d ∷ t) p q = ground (arith, text_lt_total s t)

module _ {V : Type 0} where
  -- Every key is above `k`.
  abbrev pub Above : Text → BTreeMap V → Type 0
  Above k [] = Unit {0}
  Above k ((j, w) ∷ m) = (text_lt k j ≡ true) × Above k m

  abbrev pub IsSorted : BTreeMap V → Type 0
  IsSorted [] = Unit {0}
  IsSorted ((k, v) ∷ m) = Above k m × IsSorted m

  Above-trans : (j k : Text) (m : BTreeMap V) → text_lt j k ≡ true → Above k m → Above j m
  Above-trans j k [] h a = tt
  Above-trans j k ((i, w) ∷ m) h a = (text_lt_trans j k i h a.0, Above-trans j k m h a.1)

  insert-Above :
      (j k : Text) (v : V) (m : BTreeMap V)
      → text_lt j k ≡ true
      → Above j m
      → Above j (insert k v m)
  unfolding insert
  insert-Above j k v [] h a = (h, tt)
  insert-Above j k v ((i, w) ∷ m) h a = elim (Bool-cases (k == i)) [
    | inl e ↦ rw e (h, a.1)
    | inr e ↦ elim (Bool-cases (text_lt k i)) [
      | inl l ↦ rw (e, l) (h, a)
      | inr l ↦ rw (e, l) (a.0, insert-Above j k v m h a.1)
    ]
  ]

  pub insert-IsSorted : (k : Text) (v : V) (m : BTreeMap V) → IsSorted m → IsSorted (insert k v m)
  unfolding insert
  insert-IsSorted k v [] s = (tt, tt)
  insert-IsSorted k v ((j, w) ∷ m) s = elim (Bool-cases (k == j)) [
    | inl e ↦ rw e (subst (λ t. Above t m) (sym ((text_eq_iff k j).0 e)) s.0, s.1)
    | inr e ↦ elim (Bool-cases (text_lt k j)) [
      | inl l ↦ rw (e, l) ((l, Above-trans k j m l s.0), s)
      | inr l ↦
          rw (e, l) (insert-Above j k v m (text_lt_total k j l e) s.0, insert-IsSorted k v m s.1)
    ]
  ]

  remove-Above : (j k : Text) (m : BTreeMap V) → Above j m → Above j (remove k m)
  unfolding remove
  remove-Above j k [] a = tt
  remove-Above j k ((i, w) ∷ m) a = elim (Bool-cases (i == k)) [
    | inl e ↦ rw e (remove-Above j k m a.1)
    | inr e ↦ rw e (a.0, remove-Above j k m a.1)
  ]

  pub remove-IsSorted : (k : Text) (m : BTreeMap V) → IsSorted m → IsSorted (remove k m)
  unfolding remove
  remove-IsSorted k [] s = tt
  remove-IsSorted k ((j, w) ∷ m) s = elim (Bool-cases (j == k)) [
    | inl e ↦ rw e (remove-IsSorted k m s.1)
    | inr e ↦ rw e (remove-Above j k m s.0, remove-IsSorted k m s.1)
  ]

  pub lookup-Above : (k : Text) (m : BTreeMap V) → Above k m → lookup k m ≡ none
  unfolding lookup
  lookup-Above k [] a = refl
  lookup-Above k ((j, w) ∷ m) a = elim (Bool-cases (j == k)) [
    | inl e ↦ absurd (above_itself j a.0 ((text_eq_iff j k).0 e))
    | inr e ↦ rw e (lookup-Above k m a.1)
  ]
    where
      above_itself : (j : Text) → text_lt k j ≡ true → j ≡ k → ⊥
      above_itself j l e =
          let f : text_lt k k ≡ true = subst (λ t. text_lt k t ≡ true) e l in cc (text_lt_irrefl k)

  -- The first value under a key is the one that stands there.
  abbrev pub Has : Text → V → BTreeMap V → Type 0
  Has k v [] = ⊥
  Has k v ((j, w) ∷ m) = ((j ≡ k) × (w ≡ v)) ⊎ Has k v m

  Has-Above : (j k : Text) (v : V) (m : BTreeMap V) → Above j m → Has k v m → text_lt j k ≡ true
  Has-Above j k v [] a h = elim h [ ]
  Has-Above j k v ((i, w) ∷ m) a (inl (p, q)) = subst (λ t. text_lt j t ≡ true) p a.0
  Has-Above j k v ((i, w) ∷ m) a (inr h) = Has-Above j k v m a.1 h

  pub Has-lookup :
      (k : Text) (v : V) (m : BTreeMap V) → IsSorted m → Has k v m → lookup k m ≡ some v
  unfolding lookup
  Has-lookup k v [] s h = elim h [ ]
  Has-lookup k v ((j, w) ∷ m) s (inl (p, q)) = rw ((text_eq_iff j k).1 p) (ap some q)
  Has-lookup k v ((j, w) ∷ m) s (inr h) = elim (Bool-cases (j == k)) [
    | inl e ↦ absurd (clash j ((text_eq_iff j k).0 e) (Has-Above j k v m s.0 h))
    | inr e ↦ rw e (Has-lookup k v m s.1 h)
  ]
    where
      clash : (j : Text) → j ≡ k → text_lt j k ≡ true → ⊥
      clash j e l =
          let f : text_lt k k ≡ true = subst (λ t. text_lt t k ≡ true) e l in cc (text_lt_irrefl k)
