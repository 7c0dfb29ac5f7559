-- ===== src/Frontmatter/Printer.antt =====
-- frontmatter.rs: `serialize`.
use tuskd.Prelude.{Option, none, some, [], ◌∷◌, ◌++◌}
use tuskd.Text.{Text, codes}
use tuskd.Text.Number.{ℤ, parse_i64, show_i64}
use tuskd.Floats.{Floats}
use tuskd.Frontmatter.Quoting.{write_scalar, newline}
use tuskd.Frontmatter.Lists.{write_items}
use tuskd.Frontmatter.Parser.{FmValue, str, int, float, list, Fields}

module _ (fl : Floats) where
  unfoldable pub float_text_of : fl.F64 → Option ℤ → Text
  float_text_of f none = fl.display f
  float_text_of f (some i) = fl.display_1 f

  -- A number that `{}` prints as an integer is printed with a decimal.
  unfoldable pub float_text : fl.F64 → Text
  float_text f = float_text_of f (parse_i64 (fl.display f))

  unfoldable pub value_text : FmValue fl → Text
  value_text (str s) = write_scalar fl s
  value_text (int i) = show_i64 i
  value_text (float f) = float_text f
  value_text (list items) = codes "[" ++ (write_items fl items ++ codes "]")

  -- The fields, and `tail` behind them.
  unfoldable pub serialize_fields : Fields fl → Text → Text
  serialize_fields [] tail = tail
  serialize_fields ((k, v) ∷ fields) tail =
      k ++ (codes ": " ++ (value_text v ++ newline ∷ serialize_fields fields tail))

  unfoldable pub serialize : Fields fl → Text → Text
  serialize fields body = codes "---\n" ++ serialize_fields fields (codes "---\n" ++ body)
