-- ===== src/Text.antt =====
-- Rust's `str`, as the list of its code points, and what the program uses of it.
pub mod Affix
pub mod Trim
pub mod Ends
pub mod Lines
pub mod Number
use Prim.Native.Char.{code}
use Prim.Native.String.{String}
use tuskd.Prelude.{
  ℕ, zero, suc, ◌+◌, ◌≤◌, ◌≡◌, refl, ap, Bool, true, false, ◌&&◌, ◌||◌, Option, none, some, List,
  [], ◌∷◌, ◌++◌, reverse, reverse-append, arith, ltb, leb, if◌then◌else◌, PartialEq, ◌==◌, ℕ_eq,
  list_eq, list_eq_iff, ◌↔◌,
}

abbrev pub Text : Type 0
Text = List ℕ

abbrev pub codes : String → Text
codes String.[] = []
codes (String.◌∷◌ c s) = code c ∷ codes s

instance abbrev pub Text_eq : PartialEq Text
Text_eq = record { eq = list_eq; eq_iff = list_eq_iff }

-- `char::is_ascii_digit`, `char::is_ascii_alphanumeric`
unfoldable pub is_ascii_digit : ℕ → Bool
is_ascii_digit c = leb b'0' c && leb c b'9'

unfoldable pub is_ascii_alphanumeric : ℕ → Bool
unfolding is_ascii_digit
is_ascii_alphanumeric c = is_ascii_digit c || leb b'a' c && leb c b'z' || leb b'A' c && leb c b'Z'

-- `char::is_whitespace`: the code points with the property White_Space.
unfoldable pub is_whitespace : ℕ → Bool
is_whitespace c =
    c == 0x20
    || leb 0x09 c && leb c 0x0d
    || c == 0x85
    || c == 0xa0
    || c == 0x1680
    || leb 0x2000 c && leb c 0x200a
    || c == 0x2028
    || c == 0x2029
    || c == 0x202f
    || c == 0x205f
    || c == 0x3000

-- `str::len`: bytes of UTF-8.
unfoldable pub utf8_len : ℕ → ℕ
utf8_len c = if ltb c 0x80 then 1 else if ltb c 0x800 then 2 else if ltb c 0x10000 then 3 else 4

unfoldable pub len : Text → ℕ
unfolding utf8_len
len [] = 0
len (c ∷ s) = utf8_len c + len s

-- `str::strip_prefix`, the prefix first.
unfoldable pub strip_prefix : Text → Text → Option Text
strip_prefix [] s = some s
strip_prefix (p ∷ ps) [] = none
strip_prefix (p ∷ ps) (c ∷ s) = if p == c then strip_prefix ps s else none

unfoldable pub starts_with : Text → Text → Bool
unfolding strip_prefix
starts_with p s = elim (strip_prefix p s) [ none ↦ false | some _ ↦ true ]

abbrev pub Option_reverse : Option Text → Option Text
Option_reverse none = none
Option_reverse (some s) = some (reverse s)

-- `str::strip_suffix`, the suffix first.
unfoldable pub strip_suffix : Text → Text → Option Text
unfolding strip_prefix
strip_suffix p s = Option_reverse (strip_prefix (reverse p) (reverse s))

unfoldable pub trim_start : Text → Text
trim_start [] = []
trim_start (c ∷ s) = if is_whitespace c then trim_start s else c ∷ s

unfoldable pub trim_end : Text → Text
unfolding trim_start
trim_end s = reverse (trim_start (reverse s))

unfoldable pub trim : Text → Text
unfolding trim_end
trim s = trim_end (trim_start s)

-- `str::split_once` at a character.
unfoldable pub split_once : ℕ → Text → Option (Text × Text)
split_once d [] = none
split_once d (c ∷ s) =
    let rest = split_once d s in
    if c == d then some ([], s) else elim rest [ none ↦ none | some (a, b) ↦ some (c ∷ a, b) ]

pub text_eq_iff : (s t : Text) → ((s == t) ≡ true) ↔ (s ≡ t)
text_eq_iff = list_eq_iff
