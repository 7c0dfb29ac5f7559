-- ===== src/Prelude/Lists.antt =====
-- Lists measured by native numbers, and the Boolean walks of Rust's iterators.
use Prim.Native.Nat.{ℕ, zero, suc, ◌+◌, ◌≤◌}
use mathlib.Core.Path.{◌≡◌, refl, sym, ap, subst}
use mathlib.Core.Logic.{◌⊎◌, inl, inr}
use mathlib.Core.Bool.{Bool, true, false, ◌&&◌, ◌||◌}
use mathlib.Core.List.{List, [], ◌∷◌, ◌++◌, map}
use mathlib.Core.Option.{Option, none, some}
use native.Mathlib.Omega.{arith}
use package.tuskd.Prelude.Tests.{if◌then◌else◌, PartialEq, ◌==◌}

module _ {ℓ} {A : Type ℓ} where
  abbrev pub length : List A → ℕ
  length [] = 0
  length (x ∷ xs) = suc (length xs)

  abbrev pub take : ℕ → List A → List A
  take zero xs = []
  take (suc n) [] = []
  take (suc n) (x ∷ xs) = x ∷ take n xs

  abbrev pub drop : ℕ → List A → List A
  drop zero xs = xs
  drop (suc n) [] = []
  drop (suc n) (x ∷ xs) = drop n xs

  -- `iter().all(p)`
  unfoldable pub all : (A → Bool) → List A → Bool
  all p [] = true
  all p (x ∷ xs) = p x && all p xs

  -- `iter().any(p)`
  unfoldable pub any : (A → Bool) → List A → Bool
  any p [] = false
  any p (x ∷ xs) = p x || any p xs

  -- `iter().find(p)`
  unfoldable pub find : (A → Bool) → List A → Option A
  find p [] = none
  find p (x ∷ xs) = if p x then some x else find p xs

  pub length-append : (xs ys : List A) → length (xs ++ ys) ≡ length xs + length ys
  length-append [] ys = omega arith
  length-append (x ∷ xs) ys = omega (arith, length-append xs ys)

  pub all-append : (p : A → Bool) (xs ys : List A) → all p (xs ++ ys) ≡ (all p xs && all p ys)
  unfolding all
  all-append p [] ys = refl
  all-append p (x ∷ xs) ys = ground (arith, all-append p xs ys)

  pub any-append : (p : A → Bool) (xs ys : List A) → any p (xs ++ ys) ≡ (any p xs || any p ys)
  unfolding any
  any-append p [] ys = refl
  any-append p (x ∷ xs) ys = ground (arith, any-append p xs ys)

module _ {ℓ} {A : Type ℓ} ⦃e : PartialEq A⦄ where
  -- `contains(&a)`
  unfoldable pub contains : A → List A → Bool
  contains a [] = false
  contains a (x ∷ xs) = (a == x) || contains a xs

abbrev pub Every {ℓ} : {A : Type ℓ} → (A → Type ℓ) → List A → Type ℓ
Every P [] = Unit
Every P (a ∷ l) = P a × Every P l

abbrev pub In : {A : Type 0} → A → List A → Type 0
In a [] = ⊥
In a (b ∷ l) = (a ≡ b) ⊎ In a l

pub Every-In : {A : Type 0} (P : A → Type 0) (a : A) (l : List A) → Every P l → In a l → P a
Every-In P a [] h i = absurd i
Every-In P a (b ∷ l) (h, hs) (inl e) = subst P (sym e) h
Every-In P a (b ∷ l) (h, hs) (inr i) = Every-In P a l hs i

pub Every-of_In : {A : Type 0} (P : A → Type 0) (l : List A) → ((a : A) → In a l → P a) → Every P l
Every-of_In P [] h = tt
Every-of_In P (a ∷ l) h = (h a (inl refl), Every-of_In P l (λ b i. h b (inr i)))

pub Every-take : {A : Type 0} (P : A → Type 0) (n : ℕ) (l : List A) → Every P l → Every P (take n l)
Every-take P zero l h = tt
Every-take P (suc n) [] h = tt
Every-take P (suc n) (a ∷ l) h = (h.0, Every-take P n l h.1)

pub Every-map :
    {A B : Type 0} (P : A → Type 0) (Q : B → Type 0) (f : A → B) (l : List A)
    → ((a : A) → P a → Q (f a))
    → Every P l
    → Every Q (map f l)
Every-map P Q f [] h k = tt
Every-map P Q f (a ∷ l) h k = (h a k.0, Every-map P Q f l h k.1)

pub Every-mono :
    {A : Type 0} (P Q : A → Type 0) (l : List A) → ((a : A) → P a → Q a) → Every P l → Every Q l
Every-mono P Q [] h k = tt
Every-mono P Q (a ∷ l) h k = (h a k.0, Every-mono P Q l h k.1)

pub length-take : {A : Type 0} (n : ℕ) (l : List A) → length (take n l) ≤ n
length-take zero l = omega arith
length-take (suc n) [] = omega arith
length-take (suc n) (a ∷ l) = (let h : length (take n l) ≤ n = length-take n l in omega arith)

pub take-append : {A : Type 0} (xs ys : List A) → take (length xs) (xs ++ ys) ≡ xs
take-append [] ys = refl
take-append (x ∷ xs) ys = ap (λ l. x ∷ l) (take-append xs ys)

pub drop-append : {A : Type 0} (xs ys : List A) → drop (length xs) (xs ++ ys) ≡ ys
drop-append [] ys = refl
drop-append (x ∷ xs) ys = drop-append xs ys
