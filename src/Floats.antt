-- ===== src/Floats.antt =====
-- `f64`, which the language of this library does not have: its operations as the program uses them,
-- and what Rust's standard library documents of its texts.
use tuskd.Prelude.{ℕ, Bool, true, Option, none, some, [], all, ◌||◌, ◌==◌, ℕ_eq, ◌≡◌, ◌≢◌}
use tuskd.Text.{Text, is_ascii_alphanumeric}
use tuskd.Text.Number.{ℤ, parse_i64}

pub record Floats : Type 1 where
  pub F64 : Type 0
  -- `parse::<f64>()`, `format!("{f}")` and `format!("{f:.1}")`
  pub parse_f64 : Text → Option F64
  pub display : F64 → Text
  pub display_1 : F64 → Text
  -- `i as f64`
  pub of_i64 : ℤ → F64
  pub half : F64
  pub zero_f64 : F64
  pub add_f64 : F64 → F64 → F64
  pub div_f64 : F64 → F64 → F64

-- The characters of a printed number: digits, signs, a point, `NaN` and `inf`.
unfoldable pub is_number_char : ℕ → Bool
is_number_char c = is_ascii_alphanumeric c || c == b'-' || c == b'.'

-- `fl` prints `f` so that it is read back: `{}` prints the digits that identify the number, with no
-- exponent, and `{:.1}` does for a number that `{}` prints as an integer.
pub record Prints (fl : Floats) (f : fl.F64) : Type 0 where
  pub display_chars : all is_number_char (fl.display f) ≡ true
  pub display_nonempty : fl.display f ≢ []
  pub display_parse : fl.parse_f64 (fl.display f) ≡ some f
  pub display_1_chars : all is_number_char (fl.display_1 f) ≡ true
  pub display_1_nonempty : fl.display_1 f ≢ []
  pub display_1_float : parse_i64 (fl.display_1 f) ≡ none
  pub display_1_parse :
      (z : ℤ) → parse_i64 (fl.display f) ≡ some z → fl.parse_f64 (fl.display_1 f) ≡ some f
