-- ===== src/Text/Affix.antt =====
-- What `strip_prefix` and `strip_suffix` decide.
use tuskd.Prelude.{
  ◌≡◌, refl, ap, sym, some, [], ◌∷◌, ◌++◌, reverse, reverse-append, reverse-reverse, arith, ℕ_eq,
  ◌∙◌, ◌≡⟨◌⟩◌, ◌∎, Option-cases, inl, inr,
}
use tuskd.Text.{Text, strip_prefix, strip_suffix}

pub strip_prefix-append : (p s : Text) → strip_prefix p (p ++ s) ≡ some s
unfolding strip_prefix
strip_prefix-append [] s = refl
strip_prefix-append (c ∷ p) s = ground (arith, strip_prefix-append p s)

pub strip_prefix-some : (p s : Text) {r : Text} → strip_prefix p s ≡ some r → s ≡ p ++ r
unfolding strip_prefix
strip_prefix-some [] s h = ground arith
strip_prefix-some (c ∷ p) [] h = cc
strip_prefix-some (c ∷ p) (d ∷ s) {r} h = ground (arith, strip_prefix-some p s {r = r})

pub strip_suffix-append : (p s : Text) → strip_suffix p (s ++ p) ≡ some s
unfolding strip_suffix
strip_suffix-append p s =
    rw (reverse-append s p, strip_prefix-append (reverse p) (reverse s))
      (ap some (reverse-reverse s))

reversed_suffix : (p s x : Text) → reverse s ≡ reverse p ++ x → s ≡ reverse x ++ p
reversed_suffix p s x h =
    s
    ≡⟨ sym (reverse-reverse s) ⟩ reverse (reverse s)
    ≡⟨ ap reverse h ⟩ reverse (reverse p ++ x)
    ≡⟨ reverse-append (reverse p) x ⟩ reverse x ++ reverse (reverse p)
    ≡⟨ ap (◌++◌ (reverse x)) (reverse-reverse p) ⟩ reverse x ++ p ∎

pub strip_suffix-some : (p s : Text) {r : Text} → strip_suffix p s ≡ some r → s ≡ r ++ p
unfolding strip_suffix
strip_suffix-some p s {r} h = elim (Option-cases (strip_prefix (reverse p) (reverse s))) [
  | inl e ↦ absurd (cc (rw e at h))
  | inr (x, e) ↦
      reversed_suffix p s x (strip_prefix-some (reverse p) (reverse s) e)
      ∙ ap (λ (t : Text). t ++ p) (ground arith)
]
