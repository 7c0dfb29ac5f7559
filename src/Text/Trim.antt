-- ===== src/Text/Trim.antt =====
-- When `trim` leaves a text alone.
use tuskd.Prelude.{
  ℕ, ◌≡◌, refl, ap, sym, ◌∙◌, Bool, true, false, [], ◌∷◌, ◌++◌, reverse, reverse-append,
  reverse-reverse, arith, ℕ_eq, all, not, all-append, subst,
}
use tuskd.Text.{Text, is_whitespace, trim_start, trim_end, trim}

-- A text that neither begins nor ends with white space.
abbrev pub IsTrimmed : Text → Type 0
IsTrimmed s = trim s ≡ s

pub trim-space : (s : Text) → trim (b' ' ∷ s) ≡ trim s
unfolding trim trim_start is_whitespace
trim-space s = refl

pub trim_start_keep : (c : ℕ) (s : Text) → is_whitespace c ≡ false → trim_start (c ∷ s) ≡ c ∷ s
unfolding trim_start
trim_start_keep c s h = rw h

pub trim_end_keep :
    (s : Text) (c : ℕ) → is_whitespace c ≡ false → trim_end (s ++ c ∷ []) ≡ s ++ c ∷ []
unfolding trim_end
trim_end_keep s c h =
    ap (λ (t : Text). reverse (trim_start t)) (reverse-append s (c ∷ []))
    ∙ ap reverse (trim_start_keep c (reverse s) h)
    ∙ ap reverse (sym (reverse-append s (c ∷ [])))
    ∙ reverse-reverse (s ++ c ∷ [])

-- A text between two marks that are no white space is trimmed.
pub enclosed-IsTrimmed :
    (a : ℕ) (s : Text) (b : ℕ)
    → is_whitespace a ≡ false
    → is_whitespace b ≡ false
    → IsTrimmed (a ∷ s ++ b ∷ [])
unfolding trim
enclosed-IsTrimmed a s b ha hb =
    ap trim_end (trim_start_keep a (s ++ b ∷ []) ha) ∙ trim_end_keep (a ∷ s) b hb

abbrev pub no_space : Text → Bool
no_space = all (λ c. not (is_whitespace c))

-- A text is empty or ends in a character.
pub last_split : (c : ℕ) (s : Text) → (t : Text) × (d : ℕ) × (c ∷ s ≡ t ++ d ∷ [])
last_split c [] = ([], c, refl)
last_split c (d ∷ s) = let (t, e, h) = last_split d s in (c ∷ t, e, ap (◌∷◌ c) h)

last_no_space : (t : Text) (d : ℕ) → no_space (t ++ d ∷ []) ≡ true → is_whitespace d ≡ false
unfolding all
last_no_space t d h = ground (arith, all-append (λ c. not (is_whitespace c)) t (d ∷ []))

-- A text with no white space is trimmed.
pub no_space-IsTrimmed : (s : Text) → no_space s ≡ true → IsTrimmed s
unfolding trim all
no_space-IsTrimmed [] h = refl
no_space-IsTrimmed (c ∷ s) h =
    let (t, d, e) = last_split c s in
    ap trim_end (trim_start_keep c s (ground arith))
    ∙ ap trim_end e
    ∙ trim_end_keep t d (last_no_space t d (subst (λ (x : Text). no_space x ≡ true) e h))
    ∙ sym e
