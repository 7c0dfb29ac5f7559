-- ===== src/Text/Ends.antt =====
-- A text is trimmed, and not empty, exactly when its first and last characters are no white space.
use tuskd.Prelude.{
  ℕ, ◌≤◌, ◌≡◌, refl, ap, sym, ◌∙◌, true, false, [], ◌∷◌, ◌++◌, reverse, reverse-append,
  append_assoc, arith, Bool-cases, inl, inr, length, length-append,
}
use mathlib.Core.List.{reverse-cons}
use tuskd.Text.{Text, is_whitespace, trim_start, trim_end, trim}
use tuskd.Text.Trim.{IsTrimmed, trim_start_keep, trim_end_keep, last_split}

abbrev pub StartsWell : Text → Type 0
StartsWell s = (c : ℕ) × (t : Text) × (s ≡ c ∷ t) × (is_whitespace c ≡ false)

abbrev pub EndsWell : Text → Type 0
EndsWell s = (t : Text) × (d : ℕ) × (s ≡ t ++ d ∷ []) × (is_whitespace d ≡ false)

pub IsTrimmed-of_ends : (s : Text) → StartsWell s → EndsWell s → IsTrimmed s
unfolding trim
IsTrimmed-of_ends s (c, t, e, h) (u, d, f, k) =
    ap trim e
    ∙ unfold trim in
      (ap trim_end (trim_start_keep c t h) ∙ ap trim_end (sym e ∙ f) ∙ trim_end_keep u d k ∙ sym f)

pub StartsWell-append : (s t : Text) → StartsWell s → StartsWell (s ++ t)
StartsWell-append s t (c, u, e, h) = (c, u ++ t, ap (λ (x : Text). x ++ t) e, h)

pub EndsWell-append : (s t : Text) → EndsWell t → EndsWell (s ++ t)
EndsWell-append s t (u, d, e, h) = (s ++ u, d, ap (◌++◌ s) e ∙ sym (append_assoc s u (d ∷ [])), h)

length-trim_start : (s : Text) → length (trim_start s) ≤ length s
unfolding trim_start
length-trim_start [] = omega arith
length-trim_start (c ∷ s) = ground (arith, length-trim_start s)

length-reverse : (s : Text) → length (reverse s) ≡ length s
length-reverse [] = refl
length-reverse (c ∷ s) =
    omega
      (arith, ap length (reverse-cons c s), length-append (reverse s) (c ∷ []), length-reverse s)

length-trim_end : (s : Text) → length (trim_end s) ≤ length s
unfolding trim_end
length-trim_end s = omega (
  arith,
  length-reverse (trim_start (reverse s)),
  length-trim_start (reverse s),
  length-reverse s,
)

starts_of_trimmed : (c : ℕ) (s : Text) → IsTrimmed (c ∷ s) → is_whitespace c ≡ false
unfolding trim trim_start
starts_of_trimmed c s h = elim (Bool-cases (is_whitespace c)) [
  | inl e ↦
      absurd
        (omega (arith, ap length (rw e at h), length-trim_end (trim_start s), length-trim_start s))
  | inr e ↦ e
]

trim_start-space : (c : ℕ) (s : Text) → is_whitespace c ≡ true → trim_start (c ∷ s) ≡ trim_start s
unfolding trim_start
trim_start-space c s h = rw h

trim_end-space : (u : Text) (c : ℕ) → is_whitespace c ≡ true → trim_end (u ++ c ∷ []) ≡ trim_end u
unfolding trim_end
trim_end-space u c h =
    ap (λ (t : Text). reverse (trim_start t)) (reverse-append u (c ∷ []))
    ∙ ap reverse (trim_start-space c (reverse u) h)

ends_of_trimmed :
    (t : Text) (d : ℕ) → trim_end (t ++ d ∷ []) ≡ t ++ d ∷ [] → is_whitespace d ≡ false
ends_of_trimmed t d h = elim (Bool-cases (is_whitespace d)) [
  | inl e ↦ absurd (
      omega (
        arith,
        ap length h,
        ap length (trim_end-space t d e),
        length-trim_end t,
        length-append t (d ∷ []),
      ))
  | inr e ↦ e
]

pub ends_of : (c : ℕ) (s : Text) → IsTrimmed (c ∷ s) → StartsWell (c ∷ s) × EndsWell (c ∷ s)
unfolding trim
ends_of c s h =
    let first = starts_of_trimmed c s h in
    let (t, d, e) = last_split c s in
    let fixed : trim_end (c ∷ s) ≡ c ∷ s = ap trim_end (sym (trim_start_keep c s first)) ∙ h in
    ((c, s, refl, first), (t, d, e, ends_of_trimmed t d (ap trim_end (sym e) ∙ fixed ∙ e)))
