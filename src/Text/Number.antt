-- ===== src/Text/Number.antt =====
-- `i64`: `to_string` and `parse::<i64>`.
use tuskd.Prelude.{
  ℕ, zero, suc, ◌+◌, ◌-◌, ◌*◌, ◌/◌, ◌%◌, ◌<◌, ◌≡◌, refl, ap, sym, ◌∙◌, Bool, true, false, Option,
  none, some, [], ◌∷◌, arith, if◌then◌else◌, ◌==◌, ℕ_eq, ltb, leb, all, Bool-cases, inl, inr,
  nat_eq_iff, ◌≢◌, ◌^◌, ◌↔◌, PartialEq,
}
use tuskd.Text.{Text, is_ascii_digit, codes}

-- `negsuc n` is -(n + 1).
pub data ℤ : Type 0 where
  pos : ℕ → ℤ
  negsuc : ℕ → ℤ

abbrev pub int_eq : ℤ → ℤ → Bool
int_eq (pos m) (pos n) = m == n
int_eq (negsuc m) (negsuc n) = m == n
int_eq _ _ = false

pub int_eq_iff : (a b : ℤ) → (int_eq a b ≡ true) ↔ (a ≡ b)
int_eq_iff (pos m) (pos n) = ground (arith, nat_eq_iff m n)
int_eq_iff (negsuc m) (negsuc n) = ground (arith, nat_eq_iff m n)
int_eq_iff (pos m) (negsuc n) = ground arith
int_eq_iff (negsuc m) (pos n) = ground arith

instance abbrev pub ℤ_eq : PartialEq ℤ
ℤ_eq = record { eq = int_eq; eq_iff = int_eq_iff }

abbrev pub i64_bound : ℕ
i64_bound = 0x8000000000000000

abbrev pub IsI64 : ℤ → Type 0
IsI64 (pos n) = n < i64_bound
IsI64 (negsuc n) = n < i64_bound

abbrev opposite : ℕ → ℤ
opposite zero = pos 0
opposite (suc n) = negsuc n

parse_digits : ℕ → Text → Option ℕ
unfolding is_ascii_digit
parse_digits n [] = some n
parse_digits n (c ∷ s) =
    let rest = parse_digits (n * 10 + (c - b'0')) s in if is_ascii_digit c then rest else none

nonempty_digits : Text → Option ℕ
unfolding parse_digits
nonempty_digits [] = none
nonempty_digits (c ∷ s) = parse_digits 0 (c ∷ s)

positive : Option ℕ → Option ℤ
positive none = none
positive (some n) = if ltb n i64_bound then some (pos n) else none

negative : Option ℕ → Option ℤ
negative none = none
negative (some n) = if leb n i64_bound then some (opposite n) else none

unfoldable pub parse_i64 : Text → Option ℤ
unfolding nonempty_digits positive negative
parse_i64 [] = none
parse_i64 (c ∷ s) =
    if c == b'-'
    then negative (nonempty_digits s)
    else if c == b'+'
    then positive (nonempty_digits s)
    else positive (nonempty_digits (c ∷ s))

-- The decimal digits of `n` before `acc`; `n + 1` rounds are enough.
show_from : ℕ → ℕ → Text → Text
show_from zero n acc = acc
show_from (suc f) n acc =
    let d = b'0' + n % 10 in
    let rest = show_from f (n / 10) (d ∷ acc) in if n / 10 == 0 then d ∷ acc else rest

show_ℕ : ℕ → Text
unfolding show_from
show_ℕ n = show_from (suc n) n []

unfoldable pub show_i64 : ℤ → Text
unfolding show_ℕ
show_i64 (pos n) = show_ℕ n
show_i64 (negsuc n) = b'-' ∷ show_ℕ (suc n)

show_min : show_i64 (negsuc 9223372036854775807) ≡ codes "-9223372036854775808"
unfolding show_i64
show_min = refl

pub digit_test : (d : ℕ) → d < 10 → is_ascii_digit (b'0' + d) ≡ true
unfolding is_ascii_digit
digit_test d h = ground arith

digit_step :
    (m d : ℕ) (s : Text) → d < 10 → parse_digits m ((b'0' + d) ∷ s) ≡ parse_digits (m * 10 + d) s
unfolding parse_digits
digit_step m d s h = rw (digit_test d h) (ap (λ (t : ℕ). parse_digits t s) (omega arith))

parse-show_from :
    (f n : ℕ) (acc : Text) → n < f → parse_digits 0 (show_from f n acc) ≡ parse_digits n acc
unfolding show_from
parse-show_from zero n acc h = absurd (omega arith)
parse-show_from (suc f) n acc h = elim (Bool-cases (n / 10 == 0)) [
  | inl e ↦ rw e (
      digit_step 0 (n % 10) acc (omega arith)
      ∙ ap (λ (t : ℕ). parse_digits t acc) (last_digit n ((nat_eq_iff (n / 10) 0).0 e)))
  | inr e ↦ rw e (
      parse-show_from f (n / 10) _ (smaller f n h e)
      ∙ digit_step (n / 10) (n % 10) acc (omega arith)
      ∙ ap (λ (t : ℕ). parse_digits t acc) (omega arith))
]
  where
    last_digit : (m : ℕ) → m / 10 ≡ 0 → 0 * 10 + m % 10 ≡ m
    last_digit m e = omega arith

    smaller : (g m : ℕ) → m < suc g → (m / 10 == 0) ≡ false → m / 10 < g
    smaller g m h e = ground arith

-- Printed numbers are digits, at least one.
show_from-digits :
    (f n : ℕ) (acc : Text)
    → all is_ascii_digit acc ≡ true
    → all is_ascii_digit (show_from f n acc) ≡ true
unfolding show_from all
show_from-digits zero n acc h = h
show_from-digits (suc f) n acc h =
    let more : all is_ascii_digit ((b'0' + n % 10) ∷ acc) ≡ true =
      rw (digit_test (n % 10) (omega arith)) h in
    ground (arith, more, show_from-digits f (n / 10) ((b'0' + n % 10) ∷ acc) more)

show_from-cons : (f n c : ℕ) (acc : Text) → (d : ℕ) × (s : Text) × (show_from f n (c ∷ acc) ≡ d ∷ s)
unfolding show_from
show_from-cons zero n c acc = (c, acc, refl)
show_from-cons (suc f) n c acc = elim (Bool-cases (n / 10 == 0)) [
  | inl e ↦ (b'0' + n % 10, c ∷ acc, rw e)
  | inr e ↦ let (d, s, h) = show_from-cons f (n / 10) (b'0' + n % 10) (c ∷ acc) in (d, s, rw e h)
]

show_ℕ-cons : (n : ℕ) → (d : ℕ) × (s : Text) × (show_ℕ n ≡ d ∷ s)
unfolding show_ℕ
show_ℕ-cons n = elim (Bool-cases (n / 10 == 0)) [
  | inl e ↦ (b'0' + n % 10, [], rw e)
  | inr e ↦ let (d, s, h) = show_from-cons n (n / 10) (b'0' + n % 10) [] in (d, s, rw e h)
]

show_ℕ-digits : (n : ℕ) → all is_ascii_digit (show_ℕ n) ≡ true
unfolding show_ℕ all
show_ℕ-digits n = show_from-digits (suc n) n [] refl

parse-show_ℕ : (n : ℕ) → nonempty_digits (show_ℕ n) ≡ some n
unfolding nonempty_digits
parse-show_ℕ n =
    let (d, s, e) = show_ℕ-cons n in
    ap nonempty_digits e
    ∙ ap (parse_digits 0) (sym e)
    ∙ unfold show_ℕ in parse-show_from (suc n) n [] (omega arith)

digit_start :
    (n d : ℕ) (s : Text)
    → all is_ascii_digit (d ∷ s) ≡ true
    → nonempty_digits (d ∷ s) ≡ some n
    → n < i64_bound
    → parse_i64 (d ∷ s) ≡ some (pos n)
unfolding parse_i64 all is_ascii_digit
digit_start n d s digits h lt = ground arith

-- Every `i64` is read back from its decimal text.
pub parse_i64-show_i64 : (z : ℤ) → IsI64 z → parse_i64 (show_i64 z) ≡ some z
unfolding show_i64 parse_i64
parse_i64-show_i64 (pos n) h =
    let (d, s, e) = show_ℕ-cons n in
    ap parse_i64 e
    ∙ digit_start n d s (ap (all is_ascii_digit) (sym e) ∙ show_ℕ-digits n)
        (ap nonempty_digits (sym e) ∙ parse-show_ℕ n) h
parse_i64-show_i64 (negsuc n) h = ground (arith, parse-show_ℕ (suc n))

positive-IsI64 : (o : Option ℕ) (z : ℤ) → positive o ≡ some z → IsI64 z
unfolding positive
positive-IsI64 none z h = cc
positive-IsI64 (some n) (pos m) h = ground arith
positive-IsI64 (some n) (negsuc m) h = ground arith

negative-IsI64 : (o : Option ℕ) (z : ℤ) → negative o ≡ some z → IsI64 z
unfolding negative
negative-IsI64 none z h = cc
negative-IsI64 (some zero) (pos m) h = ground arith
negative-IsI64 (some zero) (negsuc m) h = ground arith
negative-IsI64 (some (suc n)) (pos m) h = ground arith
negative-IsI64 (some (suc n)) (negsuc m) h = ground arith

-- `parse::<i64>` gives numbers in range.
pub parse_i64-IsI64 : (t : Text) (z : ℤ) → parse_i64 t ≡ some z → IsI64 z
unfolding parse_i64
parse_i64-IsI64 [] z h = cc
parse_i64-IsI64 (c ∷ s) z h = elim (Bool-cases (c == b'-')) [
  | inl e ↦ negative-IsI64 (nonempty_digits s) z (rw e at h)
  | inr e ↦ elim (Bool-cases (c == b'+')) [
    | inl f ↦ positive-IsI64 (nonempty_digits s) z (rw (e, f) at h)
    | inr f ↦ positive-IsI64 (nonempty_digits (c ∷ s)) z (rw (e, f) at h)
  ]
]

-- Digits and the minus sign are all that a printed number has.
digits_only :
    (p : ℕ → Bool) (s : Text)
    → ((c : ℕ) → is_ascii_digit c ≡ true → p c ≡ true)
    → all is_ascii_digit s ≡ true
    → all p s ≡ true
unfolding all
digits_only p [] f h = refl
digits_only p (c ∷ s) f h = ground (arith, f c, digits_only p s f)

pub show_i64-chars :
    (p : ℕ → Bool) (z : ℤ)
    → ((c : ℕ) → is_ascii_digit c ≡ true → p c ≡ true)
    → p b'-' ≡ true
    → all p (show_i64 z) ≡ true
unfolding show_i64 all
show_i64-chars p (pos n) f m = digits_only p (show_ℕ n) f (show_ℕ-digits n)
show_i64-chars p (negsuc n) f m =
    ground (arith, digits_only p (show_ℕ (suc n)) f (show_ℕ-digits (suc n)))

pub show_i64-nonempty : (z : ℤ) → show_i64 z ≢ []
unfolding show_i64
show_i64-nonempty (pos n) h = let (d, s, e) = show_ℕ-cons n in cc
show_i64-nonempty (negsuc n) h = cc

-- The bits of an `i64` as a `u64`, and back.
to_u64 : ℤ → ℕ
to_u64 (pos n) = n % 2 ^ 64
to_u64 (negsuc n) = 2 ^ 64 - 1 - n % 2 ^ 64

of_u64 : ℕ → ℤ
of_u64 u = if ltb u (2 ^ 63) then pos u else negsuc (2 ^ 64 - 1 - u)

-- `+` on `i64` in a release build, which wraps around.
unfoldable pub add_i64 : ℤ → ℤ → ℤ
unfolding to_u64 of_u64
add_i64 a b = of_u64 ((to_u64 a + to_u64 b) % 2 ^ 64)
