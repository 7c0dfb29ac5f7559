-- ===== src/Frontmatter/Roundtrip.antt =====
-- frontmatter.rs: a serialised document parses to the fields and the body that it was made of.
pub mod Quoted
mod Items
pub mod Values
unfoldable pub use Quoted.{norm_char, norm}
use tuskd.Prelude.{
  ℕ, ◌≡◌, refl, ap, sym, ◌∙◌, Bool, true, false, not, Option, none, some, List, [], ◌∷◌, ◌++◌, map,
  arith, if◌then◌else◌, ◌||◌, ◌&&◌, ◌==◌, ℕ_eq, any, all, all-append, any-append, append_assoc,
  append-nil, Bool-cases, inl, inr,
}
use tuskd.Text.{
  Text, codes, Text_eq, trim, text_eq_iff, strip_prefix, is_whitespace, is_ascii_alphanumeric,
}
use tuskd.Text.Affix.{strip_prefix-append}
use tuskd.Text.Lines.{split_once-append}
use tuskd.Text.Trim.{IsTrimmed, trim-space, no_space-IsTrimmed}
use tuskd.Errors.{Result, ok, err, ◌>>=◌}
use tuskd.Floats.{Floats}
use tuskd.Frontmatter.Quoting.{newline}
use tuskd.Frontmatter.Parser.{
  FmValue, Fields, split_lines, valid_key, is_key_char, has_key, parse_value, parse_line,
  parse_fields, parse, is_empty,
}
use tuskd.Frontmatter.Printer.{value_text, serialize_fields, serialize}
use Quoted.{no_newline}
use Values.{IsWritable, norm_value, Reads, value-Reads, all_mono}

split_lines-append :
    (line rest : Text)
    → no_newline line ≡ true
    → split_lines (line ++ newline ∷ rest) ≡ (line, rest) ∷ split_lines rest
unfolding split_lines no_newline all
split_lines-append [] rest h = refl
split_lines-append (c ∷ line) rest h = ground (arith, split_lines-append line rest)

key-all :
    (p : ℕ → Bool) (key : Text)
    → ((c : ℕ) → is_key_char c ≡ true → p c ≡ true)
    → valid_key key ≡ true
    → all p key ≡ true
unfolding valid_key
key-all p key f h = all_mono is_key_char p key f (ground arith)

key_no_colon : (c : ℕ) → is_key_char c ≡ true → not (c == b':') ≡ true
unfolding is_key_char is_ascii_alphanumeric
key_no_colon c h = ground arith

key_no_newline : (c : ℕ) → is_key_char c ≡ true → not (c == newline) ≡ true
unfolding is_key_char is_ascii_alphanumeric
key_no_newline c h = ground arith

key_no_space : (c : ℕ) → is_key_char c ≡ true → not (is_whitespace c) ≡ true
unfolding is_key_char is_ascii_alphanumeric is_whitespace
key_no_space c h = ground arith

key_not_fence :
    (key rest : Text) → valid_key key ≡ true → ((key ++ b':' ∷ rest) == codes "---") ≡ false
unfolding valid_key is_key_char is_ascii_alphanumeric all
key_not_fence [] rest h = refl
key_not_fence (c ∷ key) rest h = ground arith

-- One written line.
module _ (fl : Floats) (key : Text) (v : FmValue fl) (text : Text) (fields : Fields fl)
    (k : valid_key key ≡ true) (r : Reads fl v text) where
  line : Text
  line = key ++ b':' ∷ b' ' ∷ text

  parse-line : has_key fl key fields ≡ false → parse_line fl line fields ≡ ok (key, norm_value v)
  unfolding parse_line line
  parse-line fresh = rw (
    split_once-append b':' key (b' ' ∷ text) (key-all _ key key_no_colon k),
    no_space-IsTrimmed key (key-all _ key key_no_space k),
    k,
    fresh,
    trim-space text,
    r.trimmed,
    r.nonempty,
    r.no_map,
    r.parses,
  )

  line-no_newline : no_newline line ≡ true
  unfolding line no_newline all
  line-no_newline = ground (
    arith,
    all-append (λ c. not (c == newline)) key (b':' ∷ b' ' ∷ text),
    key-all _ key key_no_newline k,
    r.one_line,
  )

  split-line :
      (rest : Text)
      → split_lines (key ++ (codes ": " ++ (text ++ newline ∷ rest)))
        ≡ (line, rest) ∷ split_lines rest
  unfolding line
  split-line rest =
      ap split_lines (sym (append_assoc key (codes ": " ++ text) (newline ∷ rest)))
      ∙ split_lines-append line rest line-no_newline

  parse_fields-line :
      (rest : Text)
      → has_key fl key fields ≡ false
      → parse_fields fl (split_lines (key ++ (codes ": " ++ (text ++ newline ∷ rest)))) fields
        ≡ parse_fields fl (split_lines rest) (fields ++ (key, norm_value v) ∷ [])
  parse_fields-line rest fresh =
      ap (λ l. parse_fields fl l fields) (split-line rest)
      ∙ unfold parse_fields line in
        (rw (key_not_fence key (b' ' ∷ text) k) (
          ap
            (λ (m : Result (Text × FmValue fl)).
              m >>= λ f. parse_fields fl (split_lines rest) (fields ++ f ∷ []))
            (parse-line fresh)))

module _ {fl : Floats} where
  -- Fields that a document can hold: valid keys, none twice, with values that can be read back.
  abbrev pub AreFields : Fields fl → Type 0
  AreFields [] = Unit {0}
  AreFields ((key, v) ∷ fields) =
      (valid_key key ≡ true) × (has_key fl key fields ≡ false) × IsWritable v × AreFields fields

  unfoldable pub norm_fields : Fields fl → Fields fl
  norm_fields [] = []
  norm_fields ((key, v) ∷ fields) = (key, norm_value v) ∷ norm_fields fields

  -- None of the keys of `fields` stands in `seen`.
  abbrev Apart : Fields fl → Fields fl → Type 0
  Apart seen [] = Unit {0}
  Apart seen ((key, _) ∷ fields) = (has_key fl key seen ≡ false) × Apart seen fields

  Apart-last :
      (seen fields : Fields fl) (key : Text) (v : FmValue fl)
      → has_key fl key fields ≡ false
      → Apart seen fields
      → Apart (seen ++ (key, v) ∷ []) fields
  unfolding any
  Apart-last seen [] key v h a = tt
  Apart-last seen ((j, w) ∷ fields) key v h a = (
    ground (
      arith,
      any-append (λ (f : Text × FmValue fl). f.0 == j) seen ((key, v) ∷ []),
      text_eq_iff j key,
      text_eq_iff key j,
      a.0,
    ),
    Apart-last seen fields key v (ground arith) a.1,
  )

  Apart-nil : (fields : Fields fl) → Apart [] fields
  unfolding any
  Apart-nil [] = tt
  Apart-nil (f ∷ fields) = (refl, Apart-nil fields)

closing :
    (fl : Floats) (fields : Fields fl) (body : Text)
    → parse_fields fl (split_lines (codes "---\n" ++ body)) fields ≡ ok (fields, body)
unfolding parse_fields split_lines
closing fl fields body = refl

parse_fields-serialize :
    (fl : Floats) (fields seen : Fields fl) (body : Text)
    → AreFields fields
    → Apart seen fields
    → parse_fields fl (split_lines (serialize_fields fl fields (codes "---\n" ++ body))) seen
      ≡ ok (seen ++ norm_fields fields, body)
unfolding serialize_fields norm_fields
parse_fields-serialize fl [] seen body h a =
    closing fl seen body ∙ ap (λ (s : Fields fl). ok (s, body)) (sym (append-nil seen))
parse_fields-serialize fl ((key, v) ∷ fields) seen body h a =
    parse_fields-line fl key v (value_text fl v) seen h.0 (value-Reads fl v h.2) _ a.0
    ∙ parse_fields-serialize fl fields (seen ++ (key, norm_value v) ∷ []) body h.3
        (Apart-last seen fields key (norm_value v) h.1 a.1)
    ∙ ap (λ (s : Fields fl). ok (s, body))
        (append_assoc seen ((key, norm_value v) ∷ []) (norm_fields fields))

-- A document made of distinct valid keys, values that can be read back and any body parses to these
-- keys in this order, the values, and the body; only carriage returns in strings become newlines.
pub parse-serialize :
    (fl : Floats) (fields : Fields fl) (body : Text)
    → AreFields fields
    → parse fl (serialize fl fields body) ≡ ok (norm_fields fields, body)
unfolding parse serialize
parse-serialize fl fields body h =
    rw (strip_prefix-append (codes "---\n") (serialize_fields fl fields (codes "---\n" ++ body)))
      (parse_fields-serialize fl fields [] body h (Apart-nil fields))
