-- ===== src/Index/Terms.antt =====
-- index.rs: the terms of a full-text query.
use tuskd.Prelude.{ℕ_eq, Bool, true, false, List, [], ◌∷◌, ◌++◌, map, ◌==◌, if◌then◌else◌}
use tuskd.Text.{Text, codes, is_whitespace}

abbrev word : Text → List Text → List Text
word [] words = words
word (c ∷ s) words = (c ∷ s) ∷ words

abbrev split_from : Text → Text → List Text
split_from before [] = word before []
split_from before (c ∷ s) = elim (is_whitespace c) [
  | true ↦ word before (split_from [] s)
  | false ↦ split_from (before ++ c ∷ []) s
]

unfoldable pub split_whitespace : Text → List Text
unfolding is_whitespace
split_whitespace s = split_from [] s

-- The end of a term, quotes doubled.
abbrev quoted_end : Text → Text
quoted_end [] = b'"' ∷ []
quoted_end (c ∷ s) = let rest = quoted_end s in if c == b'"' then b'"' ∷ b'"' ∷ rest else c ∷ rest

abbrev pub join_or : List Text → Text
join_or [] = []
join_or (t ∷ []) = t
join_or (t ∷ u ∷ ts) = t ++ codes " OR " ++ join_or (u ∷ ts)

unfoldable pub terms : Text → List Text
unfolding split_whitespace
terms query = map (λ t. b'"' ∷ quoted_end t) (split_whitespace query)

abbrev pub is_ranked : List Text → Bool
is_ranked [] = false
is_ranked (t ∷ ts) = true
