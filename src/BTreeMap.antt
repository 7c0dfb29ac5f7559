-- ===== src/BTreeMap.antt =====
-- `BTreeMap<String, V>` of Rust's standard library, as a list in the order of its keys, and the
-- sorting of pairs.
pub mod Order
use tuskd.Prelude.{
  Bool, true, false, Option, none, some, List, [], ◌∷◌, ◌≡◌, refl, ap, ◌∙◌, ◌==◌, ◌&&◌, ◌||◌,
  if◌then◌else◌, ℕ_eq, ltb, arith, Bool-cases, inl, inr, ==-refl,
}
use tuskd.Text.{Text, Text_eq, text_eq_iff}

-- The order of strings.
unfoldable pub text_lt : Text → Text → Bool
text_lt [] [] = false
text_lt [] (c ∷ s) = true
text_lt (c ∷ s) [] = false
text_lt (c ∷ s) (d ∷ t) = ltb c d || c == d && text_lt s t

abbrev pub BTreeMap : Type 0 → Type 0
BTreeMap V = List (Text × V)

module _ {V : Type 0} where
  unfoldable pub lookup : Text → BTreeMap V → Option V
  lookup j [] = none
  lookup j ((k, v) ∷ m) = if k == j then some v else lookup j m

  unfoldable pub insert : Text → V → BTreeMap V → BTreeMap V
  unfolding text_lt
  insert k v [] = (k, v) ∷ []
  insert k v ((j, w) ∷ m) =
      if k == j
      then (k, v) ∷ m
      else if text_lt k j
      then (k, v) ∷ (j, w) ∷ m
      else (j, w) ∷ insert k v m

  unfoldable pub remove : Text → BTreeMap V → BTreeMap V
  remove k [] = []
  remove k ((j, w) ∷ m) = if j == k then remove k m else (j, w) ∷ remove k m

  abbrev pub into_keys : BTreeMap V → List Text
  into_keys [] = []
  into_keys ((k, v) ∷ m) = k ∷ into_keys m

  pub lookup-insert :
      (j k : Text) (v : V) (m : BTreeMap V)
      → lookup j (insert k v m) ≡ (if k == j then some v else lookup j m)
  unfolding lookup insert
  lookup-insert j k v [] = refl
  lookup-insert j k v ((i, w) ∷ m) =
      ground (arith, lookup-insert j k v m, text_eq_iff k i, text_eq_iff k j, text_eq_iff i j)

  pub lookup-remove :
      (j k : Text) (m : BTreeMap V) → lookup j (remove k m) ≡ (if k == j then none else lookup j m)
  unfolding lookup remove
  lookup-remove j k [] = ground arith
  lookup-remove j k ((i, w) ∷ m) =
      ground (arith, lookup-remove j k m, text_eq_iff i k, text_eq_iff k j, text_eq_iff i j)

  -- A map in which no key is found is empty.
  pub all_none : (m : BTreeMap V) → ((j : Text) → lookup j m ≡ none) → m ≡ []
  unfolding lookup
  all_none [] h = refl
  all_none ((k, v) ∷ m) h = let found = h k in let clash = rw (==-refl k) at found in cc

-- The order of pairs.
unfoldable pub pair_lt : Text × Text → Text × Text → Bool
unfolding text_lt
pair_lt (j, v) (k, w) = text_lt j k || j == k && text_lt v w

unfoldable pub insert_pair : Text × Text → List (Text × Text) → List (Text × Text)
unfolding pair_lt
insert_pair p [] = p ∷ []
insert_pair p (q ∷ l) = if pair_lt q p then q ∷ insert_pair p l else p ∷ q ∷ l

-- `sort`
unfoldable pub sort : List (Text × Text) → List (Text × Text)
unfolding insert_pair
sort [] = []
sort (p ∷ l) = insert_pair p (sort l)

-- No key stands twice.
abbrev pub Distinct : List (Text × Text) → Type 0
Distinct [] = Unit {0}
Distinct ((k, v) ∷ m) = (lookup k m ≡ none) × Distinct m

lookup-insert_pair :
    (j k v : Text) (l : List (Text × Text))
    → lookup k l ≡ none
    → lookup j (insert_pair (k, v) l) ≡ (if k == j then some v else lookup j l)
unfolding lookup insert_pair
lookup-insert_pair j k v [] h = refl
lookup-insert_pair j k v ((i, w) ∷ l) h =
    ground (arith, lookup-insert_pair j k v l, text_eq_iff i k, text_eq_iff k j, text_eq_iff i j)

module _ (k i w : Text) (l : List (Text × Text)) where
  later : lookup k ((i, w) ∷ l) ≡ none → lookup k l ≡ none
  unfolding lookup
  later h = ground (arith, h)

  first :
      (v : Text)
      → lookup k ((i, w) ∷ l) ≡ none
      → lookup i l ≡ none
      → (if k == i then some v else lookup i l) ≡ none
  unfolding lookup
  first v h e = ground (arith, h, text_eq_iff k i, text_eq_iff i k)

insert_pair-Distinct :
    (k v : Text) (l : List (Text × Text))
    → lookup k l ≡ none
    → Distinct l
    → Distinct (insert_pair (k, v) l)
unfolding insert_pair
insert_pair-Distinct k v [] h d = (h, tt)
insert_pair-Distinct k v ((i, w) ∷ l) h d = elim (Bool-cases (pair_lt (i, w) (k, v))) [
  | inl e ↦ rw e (
    (lookup-insert_pair i k v l (later k i w l h) ∙ first k i w l v h d.0),
    insert_pair-Distinct k v l (later k i w l h) d.1,
  )
  | inr e ↦ rw e ((h, d))
]

pub lookup-sort : (j : Text) (l : List (Text × Text)) → Distinct l → lookup j (sort l) ≡ lookup j l
unfolding lookup sort
lookup-sort j [] d = refl
lookup-sort j ((k, v) ∷ l) d =
    lookup-insert_pair j k v (sort l) (lookup-sort k l d.1 ∙ d.0)
    ∙ ap (λ o. if k == j then some v else o) (lookup-sort j l d.1)

pub sort-Distinct : (l : List (Text × Text)) → Distinct l → Distinct (sort l)
unfolding sort
sort-Distinct [] d = tt
sort-Distinct ((k, v) ∷ l) d =
    insert_pair-Distinct k v (sort l) (lookup-sort k l d.1 ∙ d.0) (sort-Distinct l d.1)
