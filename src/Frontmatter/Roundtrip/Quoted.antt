-- ===== src/Frontmatter/Roundtrip/Quoted.antt =====
-- frontmatter.rs: a written string is read back, up to carriage returns.
use tuskd.Prelude.{
  ℕ, ◌≡◌, refl, ap, ◌∙◌, Bool, true, false, not, Option, none, some, [], ◌∷◌, ◌++◌, map, arith,
  if◌then◌else◌, ◌==◌, ℕ_eq, any, all, Bool-cases, inl, inr, nat_eq_iff, all-append,
}
use tuskd.Text.{Text, Text_eq, trim, text_eq_iff, strip_prefix, is_whitespace}
use tuskd.Text.Affix.{strip_suffix-append}
use tuskd.Text.Trim.{IsTrimmed}
use tuskd.Text.Ends.{StartsWell, EndsWell, ends_of}
use tuskd.Text.Number.{parse_i64}
use tuskd.Errors.{Result, ok, ◌>>=◌}
use tuskd.Floats.{Floats}
use tuskd.Frontmatter.Quoting.{
  quote_mark, backslash, newline, carriage_return, unescape, unquote, strip_both, is_special,
  needs_quoting, escape, escape_all, quote, write_scalar, is_some,
}

-- What a written character is read back as.
unfoldable pub norm_char : ℕ → ℕ
norm_char c = if c == carriage_return then newline else c

unfoldable pub norm : Text → Text
norm = map norm_char

-- A text without carriage returns is its own normal form.
pub norm_id : (s : Text) → all (λ c. not (c == carriage_return)) s ≡ true → norm s ≡ s
unfolding norm norm_char all
norm_id [] h = refl
norm_id (c ∷ s) h = ground (arith, norm_id s)

-- The escape of one character, with the characters that have one told apart.
pub data EscapeCase : ℕ → Type 0 where
  is_backslash : EscapeCase backslash
  is_quote_mark : EscapeCase quote_mark
  is_newline : EscapeCase newline
  is_carriage_return : EscapeCase carriage_return
  is_plain :
      {c : ℕ}
      → (c == backslash) ≡ false
      → (c == quote_mark) ≡ false
      → (c == newline) ≡ false
      → (c == carriage_return) ≡ false
      → EscapeCase c

pub escape_case : (c : ℕ) → EscapeCase c
escape_case c = elim (Bool-cases (c == backslash)) [
  | inl e ↦ rw ((nat_eq_iff c backslash).0 e) is_backslash
  | inr a ↦ elim (Bool-cases (c == quote_mark)) [
    | inl e ↦ rw ((nat_eq_iff c quote_mark).0 e) is_quote_mark
    | inr b ↦ elim (Bool-cases (c == newline)) [
      | inl e ↦ rw ((nat_eq_iff c newline).0 e) is_newline
      | inr d ↦ elim (Bool-cases (c == carriage_return)) [
        | inl e ↦ rw ((nat_eq_iff c carriage_return).0 e) is_carriage_return
        | inr e ↦ is_plain a b d e
      ]
    ]
  ]
]

unescape-escape :
    (raw : Text) (c : ℕ) (t : Text)
    → EscapeCase c
    → unescape raw false (escape c ++ t) ≡ (unescape raw false t >>= λ out. ok (norm_char c ∷ out))
unfolding unescape escape norm_char
unescape-escape raw c t is_backslash = refl
unescape-escape raw c t is_quote_mark = refl
unescape-escape raw c t is_newline = refl
unescape-escape raw c t is_carriage_return = refl
unescape-escape raw c t (is_plain a b d e) = rw (a, b, d, e) (rw (a, b))

unescape-escape_all : (raw s : Text) → unescape raw false (escape_all s) ≡ ok (norm s)
unfolding escape_all norm
unescape-escape_all raw [] = unfold unescape in refl
unescape-escape_all raw (c ∷ s) =
    unescape-escape raw c (escape_all s) (escape_case c)
    ∙ ap (λ (r : Result Text). r >>= λ out. ok (norm_char c ∷ out)) (unescape-escape_all raw s)

inside_quotes :
    (s : Text) → strip_both (quote_mark ∷ []) (quote_mark ∷ []) (quote s) ≡ some (escape_all s)
unfolding strip_both quote strip_prefix
inside_quotes s = strip_suffix-append (quote_mark ∷ []) (escape_all s)

pub unquote-quote : (s : Text) → unquote (quote s) ≡ ok (norm s)
unfolding unquote
unquote-quote s = rw (inside_quotes s) (unescape-escape_all (quote s) s)

unfoldable pub no_newline : Text → Bool
no_newline = all (λ c. not (c == newline))

-- What a string that is written bare has for it.
pub record Bare (fl : Floats) (s : Text) : Type 0 where
  pub trimmed : IsTrimmed s
  pub starts : StartsWell s
  pub ends : EndsWell s
  pub no_i64 : parse_i64 s ≡ none
  pub no_f64 : fl.parse_f64 s ≡ none
  pub plain : any is_special s ≡ false

is_some-false {ℓ} : {A : Type ℓ} (o : Option A) → is_some o ≡ false → o ≡ none
is_some-false none h = refl
is_some-false (some a) h = cc

pub bare : (fl : Floats) (s : Text) → needs_quoting fl s ≡ false → Bare fl s
unfolding needs_quoting
bare fl [] h = cc
bare fl (c ∷ s) h =
    let t : IsTrimmed (c ∷ s) = ground (arith, text_eq_iff (trim (c ∷ s)) (c ∷ s)) in
    let (b, e) = ends_of c s t in
    record {
      trimmed = t;
      starts = b;
      ends = e;
      no_i64 = is_some-false _ (ground arith);
      no_f64 = is_some-false _ (ground arith);
      plain = ground arith;
    }

pub plain-all :
    (q : ℕ → Bool) (s : Text)
    → ((c : ℕ) → is_special c ≡ false → q c ≡ true)
    → any is_special s ≡ false
    → all q s ≡ true
unfolding any all
plain-all q [] f h = refl
plain-all q (c ∷ s) f h = ground (arith, f c, plain-all q s f)

escape-no_newline : (c : ℕ) → EscapeCase c → no_newline (escape c) ≡ true
unfolding escape no_newline all
escape-no_newline c is_backslash = refl
escape-no_newline c is_quote_mark = refl
escape-no_newline c is_newline = refl
escape-no_newline c is_carriage_return = refl
escape-no_newline c (is_plain a b d e) = rw (a, b, d, e) (rw d)

escape_all-no_newline : (s : Text) → no_newline (escape_all s) ≡ true
unfolding escape_all no_newline
escape_all-no_newline [] = unfold all in refl
escape_all-no_newline (c ∷ s) = ground (
  arith,
  all-append (λ d. not (d == newline)) (escape c) (escape_all s),
  escape-no_newline c (escape_case c),
  escape_all-no_newline s,
)

pub quote-no_newline : (s : Text) → no_newline (quote s) ≡ true
unfolding quote no_newline all
quote-no_newline s = ground (
  arith,
  all-append (λ d. not (d == newline)) (escape_all s) (quote_mark ∷ []),
  escape_all-no_newline s,
)

pub Bare-no_newline : (fl : Floats) (s : Text) → Bare fl s → no_newline s ≡ true
unfolding no_newline is_special
Bare-no_newline fl s b = plain-all _ s (λ c h. ground arith) b.plain

-- The text of a string: one line, which neither begins nor ends with white space.
pub write_scalar-no_newline : (fl : Floats) (s : Text) → no_newline (write_scalar fl s) ≡ true
unfolding write_scalar
write_scalar-no_newline fl s = elim (Bool-cases (needs_quoting fl s)) [
  | inl e ↦ rw e (quote-no_newline s)
  | inr e ↦ rw e (Bare-no_newline fl s (bare fl s e))
]

pub mark_no_space : is_whitespace quote_mark ≡ false
unfolding is_whitespace
mark_no_space = refl

pub write_scalar-ends :
    (fl : Floats) (s : Text) → StartsWell (write_scalar fl s) × EndsWell (write_scalar fl s)
unfolding write_scalar
write_scalar-ends fl s = elim (Bool-cases (needs_quoting fl s)) [
  | inl e ↦ rw e (
      unfold quote in
      (
        (quote_mark, escape_all s ++ quote_mark ∷ [], refl, mark_no_space),
        (quote_mark ∷ escape_all s, quote_mark, refl, mark_no_space),
      ))
  | inr e ↦ rw e ((bare fl s e).starts, (bare fl s e).ends)
]
