-- ===== src/Frontmatter/Lists.antt =====
-- frontmatter.rs: lists in square brackets.
use tuskd.Prelude.{Bool, true, false, List, [], ◌∷◌, ◌++◌, if◌then◌else◌, ◌==◌, ℕ_eq}
use tuskd.Text.{Text, codes, Text_eq, trim, starts_with}
use tuskd.Errors.{Result, ok, err, frontmatter, malformed_list, unterminated_quote, ◌>>=◌, ok_or}
use tuskd.Floats.{Floats}
use tuskd.Frontmatter.Quoting.{quote_mark, backslash, unquote, strip_both, write_scalar}

-- The loop of `split_top_level`: what is read of the current part, whether it stands in quotes,
-- whether a backslash was read, and the parts before it.
unfoldable pub split_loop : Text → Text → Bool → Bool → List Text → Text → Result (List Text)
split_loop s cur true escaped parts [] = err (frontmatter (unterminated_quote s))
split_loop s cur false escaped parts [] = ok (parts ++ cur ∷ [])
split_loop s cur true escaped parts (c ∷ rest) =
    let cur' = cur ++ c ∷ [] in
    let next = λ (q e : Bool). split_loop s cur' q e parts rest in
    if escaped
    then next true false
    else if c == backslash
    then next true true
    else if c == quote_mark
    then next false false
    else next true false
split_loop s cur false escaped parts (c ∷ rest) =
    let in_quote = split_loop s (cur ++ c ∷ []) true escaped parts rest in
    let next_part = split_loop s [] false escaped (parts ++ cur ∷ []) rest in
    let plain = split_loop s (cur ++ c ∷ []) false escaped parts rest in
    if c == quote_mark then in_quote else if c == b',' then next_part else plain

unfoldable pub split_top_level : Text → Result (List Text)
split_top_level s = split_loop s [] false false [] s

unfoldable pub parse_item : Text → Result Text
parse_item part =
    let part' = trim part in if starts_with (quote_mark ∷ []) part' then unquote part' else ok part'

unfoldable pub parse_items : List Text → Result (List Text)
parse_items [] = ok []
parse_items (part ∷ parts) = do item ← parse_item part; items ← parse_items parts; ok (item ∷ items)

-- The trimmed inside of the brackets, item by item.
unfoldable pub parse_inner : Text → Result (List Text)
parse_inner [] = ok []
parse_inner (c ∷ s) = do parts ← split_top_level (c ∷ s); parse_items parts

unfoldable pub parse_list : Text → Result (List Text)
parse_list raw = do
  inner ← ok_or (strip_both (codes "[") (codes "]") raw) (frontmatter (malformed_list raw))
  parse_inner (trim inner)

-- The items after the first, each behind a comma.
unfoldable pub write_rest : Floats → List Text → Text
write_rest fl [] = []
write_rest fl (item ∷ items) = codes ", " ++ (write_scalar fl item ++ write_rest fl items)

unfoldable pub write_items : Floats → List Text → Text
write_items fl [] = []
write_items fl (item ∷ items) = write_scalar fl item ++ write_rest fl items
