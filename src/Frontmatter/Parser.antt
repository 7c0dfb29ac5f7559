-- ===== src/Frontmatter/Parser.antt =====
-- frontmatter.rs: `parse`.
use tuskd.Prelude.{
  ℕ, Bool, true, false, not, Option, none, some, List, [], ◌∷◌, ◌++◌, if◌then◌else◌, ◌||◌, ◌==◌,
  ℕ_eq, all, any,
}
use tuskd.Text.{
  Text, codes, Text_eq, trim, strip_prefix, starts_with, split_once, is_ascii_alphanumeric,
  is_ascii_digit,
}
use tuskd.Text.Number.{ℤ, parse_i64}
use tuskd.Errors.{
  Result, ok, err, frontmatter, missing_opening_fence, missing_closing_fence, malformed_line,
  invalid_key, duplicate_key, empty_value, inline_map, ◌>>=◌, ◌>>◌, ok_or, ensure,
}
use tuskd.Floats.{Floats}
use tuskd.Frontmatter.Quoting.{quote_mark, newline, unquote}
use tuskd.Frontmatter.Lists.{parse_list}

pub data FmValue (fl : Floats) : Type 0 where
  str : Text → FmValue fl
  int : ℤ → FmValue fl
  float : fl.F64 → FmValue fl
  list : List Text → FmValue fl

abbrev pub Fields : Floats → Type 0
Fields fl = List (Text × FmValue fl)

abbrev cons_line : ℕ → List (Text × Text) → List (Text × Text)
cons_line c [] = []
cons_line c ((line, rest) ∷ lines) = (c ∷ line, rest) ∷ lines

-- The lines of a text that end in a newline, each with the text behind it: what the loop of `parse`
-- finds at `pos` round by round.
unfoldable pub split_lines : Text → List (Text × Text)
split_lines [] = []
split_lines (c ∷ s) =
    let lines = split_lines s in if c == newline then ([], s) ∷ lines else cons_line c lines

abbrev pub is_empty : Text → Bool
is_empty [] = true
is_empty (_ ∷ _) = false

-- `key.starts_with(|c| c.is_ascii_digit())`
abbrev starts_with_digit : Text → Bool
starts_with_digit [] = false
starts_with_digit (c ∷ _) = is_ascii_digit c

unfoldable pub is_key_char : ℕ → Bool
is_key_char c = is_ascii_alphanumeric c || c == b'_'

unfoldable pub valid_key : Text → Bool
valid_key key = not (is_empty key || not (all is_key_char key) || starts_with_digit key)

module _ (fl : Floats) where
  unfoldable pub scalar_of : Text → Option ℤ → Option fl.F64 → FmValue fl
  scalar_of raw (some i) f = int i
  scalar_of raw none (some f) = float f
  scalar_of raw none none = str raw

  unfoldable pub parse_scalar : Text → Result (FmValue fl)
  parse_scalar raw =
      if starts_with (quote_mark ∷ []) raw
      then (do s ← unquote raw; ok (str s))
      else ok (scalar_of raw (parse_i64 raw) (fl.parse_f64 raw))

  unfoldable pub parse_value : Text → Result (FmValue fl)
  parse_value raw =
      if starts_with (codes "[") raw
      then (do items ← parse_list raw; ok (list items))
      else parse_scalar raw

  abbrev pub has_key : Text → Fields fl → Bool
  has_key key = any (λ (f : Text × FmValue fl). f.0 == key)

  -- One round of the loop behind the test for the closing fence: the field of the line.
  unfoldable pub parse_line : Text → Fields fl → Result (Text × FmValue fl)
  parse_line line fields = do
    (key0, raw0) ← ok_or (split_once b':' line) (frontmatter (malformed_line line))
    let key = trim key0
    ensure (valid_key key) (frontmatter (invalid_key key))
    ensure (not (has_key key fields)) (frontmatter (duplicate_key key))
    let raw = trim raw0
    ensure (not (is_empty raw)) (frontmatter (empty_value key))
    ensure (not (starts_with (codes "{") raw)) (frontmatter (inline_map key))
    value ← parse_value raw
    ok (key, value)

  unfoldable pub parse_fields : List (Text × Text) → Fields fl → Result (Fields fl × Text)
  parse_fields [] fields = err (frontmatter missing_closing_fence)
  parse_fields ((line, rest) ∷ lines) fields =
      let next = λ (f : Text × FmValue fl). parse_fields lines (fields ++ f ∷ []) in
      if line == codes "---" then ok (fields, rest) else (parse_line line fields >>= next)

  unfoldable pub parse : Text → Result (Fields fl × Text)
  parse text = do
    rest ← ok_or (strip_prefix (codes "---\n") text) (frontmatter missing_opening_fence)
    parse_fields (split_lines rest) []
