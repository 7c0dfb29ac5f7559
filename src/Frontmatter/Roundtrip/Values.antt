-- ===== src/Frontmatter/Roundtrip/Values.antt =====
-- frontmatter.rs: a written value is read back.
use tuskd.Prelude.{
  ℕ, ◌≡◌, refl, ap, sym, Bool, true, false, not, List, [], ◌∷◌, ◌++◌, map, arith, ◌==◌, ℕ_eq, any,
  all, Bool-cases, inl, inr, all-append, ◌≢◌, Option-cases, nat_eq_iff,
}
use tuskd.Text.{
  Text, codes, starts_with, is_whitespace, is_ascii_digit, is_ascii_alphanumeric, strip_prefix,
}
use tuskd.Text.Trim.{IsTrimmed, no_space-IsTrimmed, enclosed-IsTrimmed}
use tuskd.Text.Number.{
  ℤ, IsI64, parse_i64, show_i64, parse_i64-show_i64, show_i64-chars, show_i64-nonempty,
}
use tuskd.Errors.{ok}
use tuskd.Floats.{Floats, Prints, is_number_char}
use tuskd.Frontmatter.Quoting.{
  quote_mark, newline, is_special, needs_quoting, quote, write_scalar, escape_all,
}
use tuskd.Frontmatter.Lists.{write_items}
use tuskd.Frontmatter.Parser.{
  FmValue, str, int, float, list, is_empty, parse_value, parse_scalar, scalar_of,
}
use tuskd.Frontmatter.Printer.{value_text, float_text, float_text_of}
use tuskd.Frontmatter.Roundtrip.Quoted.{
  norm, no_newline, Bare, bare, unquote-quote, Bare-no_newline, quote-no_newline, mark_no_space,
}
use tuskd.Frontmatter.Roundtrip.Items.{parse_list-write_items, items-no_newline, bare-norm}

-- The values that can be read back: integers in the range of `i64`, and numbers that print well.
abbrev pub IsWritable : {fl : Floats} → FmValue fl → Type 0
IsWritable (str s) = Unit {0}
IsWritable (int z) = IsI64 z
IsWritable {fl} (float f) = Prints fl f
IsWritable (list items) = Unit {0}

unfoldable pub norm_value : {fl : Floats} → FmValue fl → FmValue fl
norm_value (str s) = str (norm s)
norm_value (int z) = int z
norm_value (float f) = float f
norm_value (list items) = list (map norm items)

-- What `parse_line` asks of the text of a value.
pub record Reads (fl : Floats) (v : FmValue fl) (text : Text) : Type 0 where
  pub trimmed : IsTrimmed text
  pub nonempty : is_empty text ≡ false
  pub one_line : no_newline text ≡ true
  pub no_map : starts_with (codes "{") text ≡ false
  pub parses : parse_value fl text ≡ ok (norm_value v)

pub all_mono :
    (p q : ℕ → Bool) (s : Text)
    → ((c : ℕ) → p c ≡ true → q c ≡ true)
    → all p s ≡ true
    → all q s ≡ true
unfolding all
all_mono p q [] f h = refl
all_mono p q (c ∷ s) f h = ground (arith, f c, all_mono p q s f)

number_no_space : (c : ℕ) → is_number_char c ≡ true → not (is_whitespace c) ≡ true
unfolding is_number_char is_ascii_alphanumeric is_whitespace
number_no_space c h = ground arith

number_no_newline : (c : ℕ) → is_number_char c ≡ true → not (c == newline) ≡ true
unfolding is_number_char is_ascii_alphanumeric
number_no_newline c h = ground arith

number_start :
    (c : ℕ) (t : Text) (m : ℕ)
    → is_number_char m ≡ false
    → is_number_char c ≡ true
    → starts_with (m ∷ []) (c ∷ t) ≡ false
unfolding starts_with strip_prefix
number_start c t m a b = elim (Bool-cases (m == c)) [
  | inl e ↦ ground (arith, ap is_number_char ((nat_eq_iff m c).0 e))
  | inr e ↦ rw (e, starts_with, strip_prefix)
]

-- A number's text is read as a scalar that is not quoted.
number-Reads :
    (fl : Floats) (v : FmValue fl) (text : Text)
    → all is_number_char text ≡ true
    → text ≢ []
    → scalar_of fl text (parse_i64 text) (fl.parse_f64 text) ≡ norm_value v
    → Reads fl v text
unfolding all parse_value parse_scalar
number-Reads fl v [] h n e = absurd (n refl)
number-Reads fl v (c ∷ s) h n e = record {
  trimmed = no_space-IsTrimmed (c ∷ s) (all_mono _ _ (c ∷ s) number_no_space h);
  nonempty = refl;
  one_line = unfold no_newline in all_mono _ _ (c ∷ s) number_no_newline h;
  no_map =
      number_start c s b'{' (unfold is_number_char is_ascii_alphanumeric in refl) (ground arith);
  parses =
      rw
        (
          number_start c s b'[' (unfold is_number_char is_ascii_alphanumeric in refl)
              (ground arith),
          number_start c s quote_mark (unfold is_number_char is_ascii_alphanumeric in refl)
              (ground arith),
        )
        (ap ok e);
}

digit_is_number : (c : ℕ) → is_ascii_digit c ≡ true → is_number_char c ≡ true
unfolding is_number_char is_ascii_alphanumeric
digit_is_number c h = ground arith

int-Reads : (fl : Floats) (z : ℤ) → IsI64 z → Reads fl (int z) (show_i64 z)
unfolding scalar_of norm_value
int-Reads fl z h =
    number-Reads fl (int z) (show_i64 z)
      (show_i64-chars is_number_char z digit_is_number
        (unfold is_number_char is_ascii_alphanumeric in refl))
      (show_i64-nonempty z) (rw (parse_i64-show_i64 z h))

float-Reads : (fl : Floats) (f : fl.F64) → Prints fl f → Reads fl (float f) (float_text fl f)
unfolding float_text float_text_of scalar_of norm_value
float-Reads fl f p = elim (Option-cases (parse_i64 (fl.display f))) [
  | inl e ↦ rw e (
      number-Reads fl (float f) (fl.display f) p.display_chars p.display_nonempty
        (rw (e, p.display_parse)))
  | inr (z, e) ↦ rw e (
      number-Reads fl (float f) (fl.display_1 f) p.display_1_chars p.display_1_nonempty
        (rw (p.display_1_float, p.display_1_parse z e)))
]

special_start :
    (c : ℕ) (t : Text) (m : ℕ)
    → is_special m ≡ true
    → any is_special (c ∷ t) ≡ false
    → starts_with (m ∷ []) (c ∷ t) ≡ false
unfolding starts_with strip_prefix any
special_start c t m a b = elim (Bool-cases (m == c)) [
  | inl e ↦ ground (arith, ap is_special ((nat_eq_iff m c).0 e))
  | inr e ↦ rw (e, starts_with, strip_prefix)
]

Bare-Reads : (fl : Floats) (s : Text) → Bare fl s → Reads fl (str s) s
unfolding parse_value parse_scalar norm_value scalar_of
Bare-Reads fl [] b = let (c, s, e, h) = b.starts in cc
Bare-Reads fl (c ∷ s) b = record {
  trimmed = b.trimmed;
  nonempty = refl;
  one_line = Bare-no_newline fl (c ∷ s) b;
  no_map = special_start c s b'{' (unfold is_special in refl) b.plain;
  parses =
      rw
        (
          special_start c s b'[' (unfold is_special in refl) b.plain,
          special_start c s quote_mark (unfold is_special in refl) b.plain,
          b.no_i64,
          b.no_f64,
        )
        (ap (λ (t : Text). ok (str t)) (sym (bare-norm (c ∷ s) b.plain)));
}

quote-Reads : (fl : Floats) (s : Text) → Reads fl (str s) (quote s)
unfolding parse_value parse_scalar norm_value starts_with strip_prefix quote
quote-Reads fl s = record {
  trimmed = enclosed-IsTrimmed quote_mark (escape_all s) quote_mark mark_no_space mark_no_space;
  nonempty = refl;
  one_line = quote-no_newline s;
  no_map = refl;
  parses = rw (unquote-quote s);
}

str-Reads : (fl : Floats) (s : Text) → Reads fl (str s) (write_scalar fl s)
unfolding write_scalar
str-Reads fl s = elim (Bool-cases (needs_quoting fl s)) [
  | inl e ↦ rw e (quote-Reads fl s)
  | inr e ↦ rw e (Bare-Reads fl s (bare fl s e))
]

list-Reads :
    (fl : Floats) (items : List Text)
    → Reads fl (list items) (codes "[" ++ (write_items fl items ++ codes "]"))
unfolding parse_value norm_value starts_with strip_prefix no_newline all
list-Reads fl items = record {
  trimmed =
      enclosed-IsTrimmed b'[' (write_items fl items) b']' (unfold is_whitespace in refl)
        (unfold is_whitespace in refl);
  nonempty = refl;
  one_line = ground (
    arith,
    all-append (λ d. not (d == newline)) (write_items fl items) (codes "]"),
    items-no_newline fl items,
  );
  no_map = refl;
  parses = rw (parse_list-write_items fl items);
}

-- The text of a value reads as the value, up to carriage returns in its strings.
pub value-Reads : (fl : Floats) (v : FmValue fl) → IsWritable v → Reads fl v (value_text fl v)
unfolding value_text
value-Reads fl (str s) h = str-Reads fl s
value-Reads fl (int z) h = int-Reads fl z h
value-Reads fl (float f) h = float-Reads fl f h
value-Reads fl (list items) h = list-Reads fl items
