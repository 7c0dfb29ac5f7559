-- ===== src/Tests/Documents.antt =====
-- frontmatter.rs at fixed inputs.
use tuskd.Prelude.{◌≡◌, refl, [], ◌∷◌, all, any, arith}
use tuskd.Text.{
  Text, Text_eq, codes, trim, trim_start, strip_prefix, starts_with, split_once, is_whitespace,
  is_ascii_alphanumeric,
}
use tuskd.Text.Number.{negsuc, parse_i64, show_i64}
use tuskd.Errors.{ok, err, frontmatter, duplicate_key, empty_value}
use tuskd.Floats.{Prints, is_number_char}
use tuskd.Frontmatter.Quoting.{is_special, needs_quoting, escape_all, quote, write_scalar}
use tuskd.Frontmatter.Lists.{write_items, write_rest}
use tuskd.Frontmatter.Parser.{
  str, int, float, list, Fields, split_lines, valid_key, is_key_char, parse_scalar, scalar_of,
  parse_value, parse_line, parse_fields, parse,
}
use tuskd.Frontmatter.Printer.{serialize, serialize_fields, value_text, float_text, float_text_of}
use tuskd.Frontmatter.Roundtrip.{norm_fields, AreFields, parse-serialize}
use tuskd.Tests.Values.{tenths}

abbrev fields : Fields tenths
fields =
    (codes "id", str (codes "a: \"b\""))
    ∷ (codes "uses", int (negsuc 6))
    ∷ (codes "trust", float 5)
    ∷ (codes "tags", list (codes "x, y" ∷ codes "z" ∷ []))
    ∷ []

abbrev document : Text
document = codes "---\nid: \"a: \\\"b\\\"\"\nuses: -7\ntrust: 0.5\ntags: [\"x, y\", z]\n---\nBODY"

serialized : serialize tenths fields (codes "BODY") ≡ document
unfolding serialize serialize_fields value_text float_text float_text_of write_scalar needs_quoting
    quote escape_all write_items write_rest show_i64 parse_i64 trim trim_start is_whitespace
    is_special any
serialized = refl

duplicate :
    parse tenths (codes "---\na: 1\na: 2\n---\n") ≡ err (frontmatter (duplicate_key (codes "a")))
unfolding parse parse_fields parse_line parse_value parse_scalar scalar_of split_lines strip_prefix
    starts_with split_once valid_key is_key_char is_ascii_alphanumeric trim trim_start is_whitespace
    all any parse_i64
duplicate = refl

nested :
    parse tenths (codes "---\nmeta:\n  inner: 1\n---\nbody")
    ≡ err (frontmatter (empty_value (codes "meta")))
unfolding parse parse_fields parse_line split_lines strip_prefix split_once valid_key is_key_char
    is_ascii_alphanumeric trim trim_start is_whitespace all any
nested = refl

half-Prints : Prints tenths 5
unfolding all is_number_char is_ascii_alphanumeric show_i64 parse_i64
half-Prints = record {
  display_chars = refl;
  display_nonempty = λ e. cc;
  display_parse = refl;
  display_1_chars = refl;
  display_1_nonempty = λ e. cc;
  display_1_float = refl;
  display_1_parse = λ z e. cc;
}

are_fields : AreFields fields
unfolding valid_key is_key_char is_ascii_alphanumeric all any
are_fields =
    (refl, refl, tt, (refl, refl, omega arith, (refl, refl, half-Prints, (refl, refl, tt, tt))))

parse-serialize_example :
    parse tenths (serialize tenths fields (codes "BODY")) ≡ ok (norm_fields fields, codes "BODY")
parse-serialize_example = parse-serialize tenths fields (codes "BODY") are_fields
