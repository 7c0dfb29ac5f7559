-- ===== src/Text/Lines.antt =====
-- Cutting a text at its newlines, and at its first colon.
use tuskd.Prelude.{ℕ, ◌≡◌, true, not, some, [], ◌∷◌, ◌++◌, arith, ◌==◌, ℕ_eq, all}
use tuskd.Text.{Text, split_once}

pub split_once-append :
    (d : ℕ) (s t : Text)
    → all (λ c. not (c == d)) s ≡ true
    → split_once d (s ++ d ∷ t) ≡ some (s, t)
unfolding split_once all
split_once-append d [] t h = ground arith
split_once-append d (c ∷ s) t h = ground (arith, split_once-append d s t)
