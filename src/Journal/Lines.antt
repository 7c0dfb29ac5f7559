-- ===== src/Journal/Lines.antt =====
-- sync.rs: the lines of the journal's file.
use tuskd.Prelude.{
  ℕ, suc, ◌+◌, Bool, true, false, not, List, [], ◌∷◌, ◌++◌, append_assoc, zero, ap₂, Bool-cases,
  inl, inr, ◌≤◌, ◌≡◌, refl, ap, sym, ◌∙◌, ◌==◌, if◌then◌else◌, ℕ_eq, all, length, take, arith,
}
use tuskd.Text.{Text}
use tuskd.Frontmatter.Quoting.{newline}

abbrev push_char : ℕ → List Text × Text → List Text × Text
push_char c ([], torn) = ([], c ∷ torn)
push_char c (line ∷ lines, torn) = ((c ∷ line) ∷ lines, torn)

-- The lines that end in a newline, and what stands behind the last newline.
unfoldable pub split_tail : Text → List Text × Text
split_tail [] = ([], [])
split_tail (c ∷ s) =
    let rest = split_tail s in if c == newline then ([] ∷ rest.0, rest.1) else push_char c rest

-- The offset behind the last complete line.
unfoldable pub good_end : List Text → ℕ
good_end [] = 0
good_end (line ∷ lines) = length line + 1 + good_end lines

-- The file of these lines.
unfoldable pub join_lines : List Text → Text
join_lines [] = []
join_lines (line ∷ lines) = line ++ newline ∷ join_lines lines

abbrev pub one_line : Text → Bool
one_line = all (λ c. not (c == newline))

pub split_tail-line :
    (line rest : Text)
    → one_line line ≡ true
    → split_tail (line ++ newline ∷ rest) ≡ (line ∷ (split_tail rest).0, (split_tail rest).1)
unfolding split_tail all
split_tail-line [] rest h = refl
split_tail-line (c ∷ line) rest h = ground (arith, split_tail-line line rest)

split_tail-torn : (torn : Text) → one_line torn ≡ true → split_tail torn ≡ ([], torn)
unfolding split_tail all
split_tail-torn [] h = refl
split_tail-torn (c ∷ torn) h = ground (arith, split_tail-torn torn)

abbrev pub AreLines : List Text → Type 0
AreLines [] = Unit {0}
AreLines (line ∷ lines) = (one_line line ≡ true) × AreLines lines

pub split_tail-join :
    (lines : List Text) (torn : Text)
    → AreLines lines
    → one_line torn ≡ true
    → split_tail (join_lines lines ++ torn) ≡ (lines, torn)
unfolding join_lines
split_tail-join [] torn h t = split_tail-torn torn t
split_tail-join (line ∷ lines) torn h t =
    ap split_tail (append_assoc line (newline ∷ join_lines lines) torn)
    ∙ split_tail-line line (join_lines lines ++ torn) h.0
    ∙ ap (λ (r : List Text × Text). (line ∷ r.0, r.1)) (split_tail-join lines torn h.1 t)

join-push_char :
    (c : ℕ) (lines : List Text) (torn : Text)
    → join_lines (push_char c (lines, torn)).0 ++ (push_char c (lines, torn)).1
      ≡ c ∷ (join_lines lines ++ torn)
unfolding join_lines
join-push_char c [] torn = refl
join-push_char c (line ∷ lines) torn = refl

push_char-AreLines :
    (c : ℕ) (lines : List Text) (torn : Text)
    → (c == newline) ≡ false
    → AreLines lines × (one_line torn ≡ true)
    → AreLines (push_char c (lines, torn)).0 × (one_line (push_char c (lines, torn)).1 ≡ true)
unfolding all
push_char-AreLines c [] torn n h = (tt, ground (arith, h.1))
push_char-AreLines c (line ∷ lines) torn n h = ((ground (arith, h.0.0), h.0.1), h.1)

pub join-split_tail : (raw : Text) → join_lines (split_tail raw).0 ++ (split_tail raw).1 ≡ raw
unfolding split_tail join_lines
join-split_tail [] = refl
join-split_tail (c ∷ raw) = elim (Bool-cases (c == newline)) [
  | inl e ↦ rw e (ap₂ ◌∷◌ (sym ((ℕ_eq.eq_iff c newline).0 e)) (join-split_tail raw))
  | inr e ↦ rw e (
      join-push_char c (split_tail raw).0 (split_tail raw).1
      ∙ ap (λ t. c ∷ t) (join-split_tail raw))
]

pub split_tail-AreLines :
    (raw : Text) → AreLines (split_tail raw).0 × (one_line (split_tail raw).1 ≡ true)
unfolding split_tail all
split_tail-AreLines [] = (tt, refl)
split_tail-AreLines (c ∷ raw) = elim (Bool-cases (c == newline)) [
  | inl e ↦ rw e ((refl, (split_tail-AreLines raw).0), (split_tail-AreLines raw).1)
  | inr e ↦
      rw e (push_char-AreLines c (split_tail raw).0 (split_tail raw).1 e (split_tail-AreLines raw))
]

pub join_lines-append :
    (lines : List Text) (line : Text)
    → join_lines (lines ++ line ∷ []) ≡ join_lines lines ++ (line ++ newline ∷ [])
unfolding join_lines
join_lines-append [] line = refl
join_lines-append (l ∷ lines) line =
    ap (λ t. l ++ newline ∷ t) (join_lines-append lines line)
    ∙ sym (append_assoc l (newline ∷ join_lines lines) (line ++ newline ∷ []))

pub AreLines-append :
    (lines : List Text) (line : Text)
    → AreLines lines
    → one_line line ≡ true
    → AreLines (lines ++ line ∷ [])
AreLines-append [] line h l = (l, tt)
AreLines-append (m ∷ lines) line h l = (h.0, AreLines-append lines line h.1 l)

zero_add : (n : ℕ) → 0 + n ≡ n
zero_add n = omega arith

suc_add : (a b : ℕ) → suc a + b ≡ suc (a + b)
suc_add a b = omega arith

reorder : (a b : ℕ) → a + 1 + b ≡ a + suc b
reorder a b = omega arith

take-append :
    (line rest : Text) (n : ℕ) → take (length line + n) (line ++ rest) ≡ line ++ take n rest
take-append [] rest n = ap (λ m. take m rest) (zero_add n)
take-append (c ∷ line) rest n =
    ap (λ m. take m (c ∷ line ++ rest)) (suc_add (length line) n)
    ∙ ap (λ t. c ∷ t) (take-append line rest n)

pub take-good_end :
    (lines : List Text) (torn : Text)
    → take (good_end lines) (join_lines lines ++ torn) ≡ join_lines lines
unfolding good_end join_lines
take-good_end [] torn = refl
take-good_end (line ∷ lines) torn =
    ap (λ n. take n ((line ++ newline ∷ join_lines lines) ++ torn))
      (reorder (length line) (good_end lines))
    ∙ ap (take (length line + suc (good_end lines)))
        (append_assoc line (newline ∷ join_lines lines) torn)
    ∙ take-append line (newline ∷ join_lines lines ++ torn) (suc (good_end lines))
    ∙ ap (λ t. line ++ newline ∷ t) (take-good_end lines torn)

no_suc : (n : ℕ) → ¬ (suc n ≤ 0)
no_suc n = omega arith

pub one_line-take :
    (n : ℕ) (line : Text)
    → one_line line ≡ true
    → n ≤ length line
    → one_line (take n (line ++ newline ∷ [])) ≡ true
unfolding all
one_line-take zero line h b = refl
one_line-take (suc n) [] h b = absurd (no_suc n b)
one_line-take (suc n) (c ∷ line) h b = ground (arith, one_line-take n line)
