-- ===== src/Frontmatter/Quoting.antt =====
-- frontmatter.rs: quoted strings, and which strings have to be quoted.
use tuskd.Prelude.{
  ℕ, Bool, true, false, not, Option, none, some, [], ◌∷◌, ◌++◌, if◌then◌else◌, ◌||◌, ◌==◌, ℕ_eq,
  any,
}
use tuskd.Text.{Text, codes, Text_eq, trim, strip_prefix, strip_suffix}
use tuskd.Text.Number.{parse_i64}
use tuskd.Errors.{
  Result, ok, err, frontmatter, bad_escape, stray_quote, malformed_quoted, ◌>>=◌, ok_or,
}
use tuskd.Floats.{Floats}

abbrev pub quote_mark : ℕ
quote_mark = b'"'

abbrev pub backslash : ℕ
backslash = b'\\'

abbrev pub newline : ℕ
newline = 10

abbrev pub carriage_return : ℕ
carriage_return = 13

-- The loop of `unquote`; the first argument says that a backslash was read.
unfoldable pub unescape : Text → Bool → Text → Result Text
unescape raw true [] = err (frontmatter (bad_escape raw))
unescape raw false [] = ok []
unescape raw true (c ∷ s) =
    let rest = unescape raw false s in
    if c == backslash
    then (do out ← rest; ok (backslash ∷ out))
    else if c == quote_mark
    then (do out ← rest; ok (quote_mark ∷ out))
    else if c == b'n'
    then (do out ← rest; ok (newline ∷ out))
    else err (frontmatter (bad_escape raw))
unescape raw false (c ∷ s) =
    let escaped = unescape raw true s in
    let rest = unescape raw false s in
    if c == backslash
    then escaped
    else if c == quote_mark
    then err (frontmatter (stray_quote raw))
    else (do out ← rest; ok (c ∷ out))

-- `strip_prefix('"').and_then(|s| s.strip_suffix('"'))`
unfoldable pub strip_both : Text → Text → Text → Option Text
strip_both p q s = elim (strip_prefix p s) [ none ↦ none | some t ↦ strip_suffix q t ]

unfoldable pub unquote : Text → Result Text
unquote raw = do
  inner ←
      ok_or (strip_both (quote_mark ∷ []) (quote_mark ∷ []) raw)
        (frontmatter (malformed_quoted raw))
  unescape raw false inner

abbrev pub is_some {ℓ} : {A : Type ℓ} → Option A → Bool
is_some none = false
is_some (some _) = true

-- The characters of the `matches!` in `needs_quoting`.
unfoldable pub is_special : ℕ → Bool
is_special c =
    c == quote_mark
    || c == b'['
    || c == b']'
    || c == b','
    || c == b':'
    || c == backslash
    || c == newline
    || c == carriage_return
    || c == b'{'
    || c == b'#'

unfoldable pub needs_quoting : Floats → Text → Bool
needs_quoting fl [] = true
needs_quoting fl (c ∷ s) =
    if not (trim (c ∷ s) == c ∷ s)
    then true
    else if is_some (parse_i64 (c ∷ s)) || is_some (fl.parse_f64 (c ∷ s))
    then true
    else any is_special (c ∷ s)

unfoldable pub escape : ℕ → Text
escape c =
    if c == backslash
    then codes "\\\\"
    else if c == quote_mark
    then codes "\\\""
    else if c == newline
    then codes "\\n"
    else if c == carriage_return
    then codes "\\n"
    else c ∷ []

unfoldable pub escape_all : Text → Text
unfolding escape
escape_all [] = []
escape_all (c ∷ s) = escape c ++ escape_all s

unfoldable pub quote : Text → Text
quote s = quote_mark ∷ escape_all s ++ quote_mark ∷ []

unfoldable pub write_scalar : Floats → Text → Text
write_scalar fl s = if needs_quoting fl s then quote s else s
