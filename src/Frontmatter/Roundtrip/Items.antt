-- ===== src/Frontmatter/Roundtrip/Items.antt =====
-- frontmatter.rs: a written list is read back, item by item.
use tuskd.Prelude.{
  ℕ, ◌≡◌, refl, ap, ◌∙◌, Bool, true, false, not, List, [], ◌∷◌, ◌++◌, map, arith, if◌then◌else◌,
  ◌==◌, ℕ_eq, any, all, Bool-cases, inl, inr, append_assoc, append-nil, all-append, ◌≡⟨◌⟩◌, ◌∎,
}
use tuskd.Text.{Text, codes, trim, strip_prefix, starts_with, trim_end, trim_start}
use tuskd.Text.Affix.{strip_suffix-append}
use tuskd.Text.Trim.{IsTrimmed, trim-space}
use tuskd.Text.Ends.{StartsWell, EndsWell, IsTrimmed-of_ends, StartsWell-append, EndsWell-append}
use tuskd.Errors.{Result, ok, ◌>>=◌}
use tuskd.Floats.{Floats}
use tuskd.Frontmatter.Quoting.{
  quote_mark, backslash, newline, is_special, needs_quoting, escape, escape_all, quote,
  write_scalar, unquote, strip_both, carriage_return,
}
use tuskd.Frontmatter.Lists.{
  split_loop, split_top_level, parse_item, parse_items, parse_inner, parse_list, write_rest,
  write_items,
}
use tuskd.Frontmatter.Roundtrip.Quoted.{
  norm, norm_id, unquote-quote, bare, plain-all, write_scalar-ends, write_scalar-no_newline,
  no_newline, EscapeCase, is_backslash, is_quote_mark, is_newline, is_carriage_return, is_plain,
  escape_case,
}

plain_char :
    (c : ℕ) (w : Text)
    → any is_special (c ∷ w) ≡ false
    → ((c == quote_mark) ≡ false) × ((c == b',') ≡ false) × (any is_special w ≡ false)
unfolding any is_special
plain_char c w h = ground arith

module _ (s : Text) (parts : List Text) where
  abbrev at : Bool → Text → Text → Result (List Text)
  at in_quote cur rest = split_loop s cur in_quote false parts rest

  -- A bare text is read on to the current part.
  split_bare :
      (cur w rest : Text)
      → any is_special w ≡ false
      → at false cur (w ++ rest) ≡ at false (cur ++ w) rest
  unfolding split_loop
  split_bare cur [] rest h = rw append-nil
  split_bare cur (c ∷ w) rest h =
      let (a, b, k) = plain_char c w h in
      rw (a, b)
        (split_bare (cur ++ c ∷ []) w rest k
          ∙ ap (λ (t : Text). at false t rest) (append_assoc cur (c ∷ []) w))

  regroup :
      (q : Bool) (cur x y rest : Text) → at q ((cur ++ x) ++ y) rest ≡ at q (cur ++ (x ++ y)) rest
  regroup q cur x y rest = ap (λ (t : Text). at q t rest) (append_assoc cur x y)

  -- So is an escaped character inside of quotes.
  split_escape :
      (cur rest : Text) (c : ℕ)
      → EscapeCase c
      → at true cur (escape c ++ rest) ≡ at true (cur ++ escape c) rest
  unfolding split_loop escape
  split_escape cur rest c is_backslash = regroup true cur (backslash ∷ []) (backslash ∷ []) rest
  split_escape cur rest c is_quote_mark = regroup true cur (backslash ∷ []) (quote_mark ∷ []) rest
  split_escape cur rest c is_newline = regroup true cur (backslash ∷ []) (b'n' ∷ []) rest
  split_escape cur rest c is_carriage_return = regroup true cur (backslash ∷ []) (b'n' ∷ []) rest
  split_escape cur rest c (is_plain a b d e) = rw (a, b, d, e) (rw (a, b))

  split_escape_all :
      (cur t rest : Text) → at true cur (escape_all t ++ rest) ≡ at true (cur ++ escape_all t) rest
  unfolding escape_all
  split_escape_all cur [] rest = rw append-nil
  split_escape_all cur (c ∷ t) rest =
      at true cur ((escape c ++ escape_all t) ++ rest)
      ≡⟨ ap (at true cur) (append_assoc (escape c) (escape_all t) rest) ⟩
        at true cur (escape c ++ (escape_all t ++ rest))
      ≡⟨ split_escape cur (escape_all t ++ rest) c (escape_case c) ⟩
        at true (cur ++ escape c) (escape_all t ++ rest)
      ≡⟨ split_escape_all (cur ++ escape c) t rest ⟩
        at true ((cur ++ escape c) ++ escape_all t) rest
      ≡⟨ regroup true cur (escape c) (escape_all t) rest ⟩
        at true (cur ++ (escape c ++ escape_all t)) rest ∎

  -- And a quoted text as a whole.
  split_quote :
      (cur t rest : Text) → at false cur (quote t ++ rest) ≡ at false (cur ++ quote t) rest
  unfolding quote split_loop
  split_quote cur t rest =
      at true (cur ++ quote_mark ∷ []) ((escape_all t ++ quote_mark ∷ []) ++ rest)
      ≡⟨ ap (at true (cur ++ quote_mark ∷ []))
          (append_assoc (escape_all t) (quote_mark ∷ []) rest) ⟩
        at true (cur ++ quote_mark ∷ []) (escape_all t ++ quote_mark ∷ rest)
      ≡⟨ split_escape_all (cur ++ quote_mark ∷ []) t (quote_mark ∷ rest) ⟩
        at false (((cur ++ quote_mark ∷ []) ++ escape_all t) ++ quote_mark ∷ []) rest
      ≡⟨ regroup false (cur ++ quote_mark ∷ []) (escape_all t) (quote_mark ∷ []) rest ⟩
        at false ((cur ++ quote_mark ∷ []) ++ (escape_all t ++ quote_mark ∷ [])) rest
      ≡⟨ regroup false cur (quote_mark ∷ []) (escape_all t ++ quote_mark ∷ []) rest ⟩
        at false (cur ++ quote_mark ∷ (escape_all t ++ quote_mark ∷ [])) rest ∎

  split_item :
      (fl : Floats) (cur item rest : Text)
      → at false cur (write_scalar fl item ++ rest) ≡ at false (cur ++ write_scalar fl item) rest
  unfolding write_scalar
  split_item fl cur item rest = elim (Bool-cases (needs_quoting fl item)) [
    | inl e ↦ rw e (split_quote cur item rest)
    | inr e ↦ rw e (split_bare cur item rest (bare fl item e).plain)
  ]

-- The parts of a written list behind its first item.
abbrev spaced : Floats → List Text → List Text
spaced fl = map (λ item. b' ' ∷ write_scalar fl item)

split_rest :
    (fl : Floats) (s cur : Text) (parts items : List Text)
    → split_loop s cur false false parts (write_rest fl items) ≡ ok (parts ++ cur ∷ spaced fl items)
unfolding write_rest split_loop
split_rest fl s cur parts [] = refl
split_rest fl s cur parts (item ∷ items) =
    split_item s (parts ++ cur ∷ []) fl (b' ' ∷ []) item (write_rest fl items)
    ∙ split_rest fl s (b' ' ∷ write_scalar fl item) (parts ++ cur ∷ []) items
    ∙ ap ok (append_assoc parts (cur ∷ []) (spaced fl (item ∷ items)))

split-write_items :
    (fl : Floats) (s item : Text) (items : List Text)
    → split_loop s [] false false [] (write_items fl (item ∷ items))
      ≡ ok (write_scalar fl item ∷ spaced fl items)
unfolding write_items
split-write_items fl s item items =
    split_item s [] fl [] item (write_rest fl items)
    ∙ split_rest fl s (write_scalar fl item) [] items

bare_not_quoted : (s : Text) → any is_special s ≡ false → starts_with (quote_mark ∷ []) s ≡ false
unfolding starts_with any is_special
bare_not_quoted [] h = refl
bare_not_quoted (c ∷ s) h = ground arith

special-norm : (c : ℕ) → is_special c ≡ false → not (c == carriage_return) ≡ true
unfolding is_special
special-norm c h = ground arith

-- A bare string is kept as it is.
pub bare-norm : (s : Text) → any is_special s ≡ false → norm s ≡ s
bare-norm s h = norm_id s (plain-all _ s special-norm h)

pub parse-write_scalar :
    (fl : Floats) (item : Text)
    → (if starts_with (quote_mark ∷ []) (write_scalar fl item)
        then unquote (write_scalar fl item)
        else ok (write_scalar fl item))
      ≡ ok (norm item)
unfolding write_scalar
parse-write_scalar fl item = elim (Bool-cases (needs_quoting fl item)) [
  | inl e ↦ rw e (unfold starts_with quote in unquote-quote item)
  | inr e ↦ let b = bare fl item e in rw (e, bare_not_quoted item b.plain, bare-norm item b.plain)
]

written-IsTrimmed : (fl : Floats) (item : Text) → IsTrimmed (write_scalar fl item)
written-IsTrimmed fl item =
    let (b, e) = write_scalar-ends fl item in IsTrimmed-of_ends (write_scalar fl item) b e

parse_item-write_scalar :
    (fl : Floats) (item : Text) → parse_item (write_scalar fl item) ≡ ok (norm item)
unfolding parse_item
parse_item-write_scalar fl item = rw (written-IsTrimmed fl item) (parse-write_scalar fl item)

parse_item_spaced :
    (fl : Floats) (item : Text) → parse_item (b' ' ∷ write_scalar fl item) ≡ ok (norm item)
unfolding parse_item
parse_item_spaced fl item =
    rw (trim-space (write_scalar fl item), written-IsTrimmed fl item) (parse-write_scalar fl item)

parse_items-spaced :
    (fl : Floats) (items : List Text) → parse_items (spaced fl items) ≡ ok (map norm items)
unfolding parse_items
parse_items-spaced fl [] = refl
parse_items-spaced fl (item ∷ items) = rw (parse_item_spaced fl item, parse_items-spaced fl items)

ends_rest :
    (fl : Floats) (w : Text) (items : List Text) → EndsWell w → EndsWell (w ++ write_rest fl items)
unfolding write_rest
ends_rest fl w [] h = rw append-nil h
ends_rest fl w (item ∷ items) h = EndsWell-append w _ (
    EndsWell-append (codes ", ") _
      (ends_rest fl (write_scalar fl item) items (write_scalar-ends fl item).1))

items-ends :
    (fl : Floats) (item : Text) (items : List Text)
    → StartsWell (write_items fl (item ∷ items)) × EndsWell (write_items fl (item ∷ items))
unfolding write_items
items-ends fl item items =
    let (b, e) = write_scalar-ends fl item in
    (
      StartsWell-append (write_scalar fl item) (write_rest fl items) b,
      ends_rest fl (write_scalar fl item) items e,
    )

inner_of : (x : Text) → StartsWell x → parse_inner x ≡ (split_top_level x >>= parse_items)
unfolding parse_inner
inner_of x (c, s, e, h) = rw e

parse_inner-write_items :
    (fl : Floats) (items : List Text)
    → parse_inner (trim (write_items fl items)) ≡ ok (map norm items)
parse_inner-write_items fl [] = unfold write_items parse_inner trim trim_end trim_start in refl
parse_inner-write_items fl (item ∷ items) =
    let (b, e) = items-ends fl item items in
    let x = write_items fl (item ∷ items) in
    ap parse_inner (IsTrimmed-of_ends x b e)
    ∙ inner_of x b
    ∙ unfold split_top_level parse_items in
      (rw (split-write_items fl x item items)
        (rw (parse_item-write_scalar fl item, parse_items-spaced fl items)))

pub parse_list-write_items :
    (fl : Floats) (items : List Text)
    → parse_list (codes "[" ++ (write_items fl items ++ codes "]")) ≡ ok (map norm items)
unfolding parse_list strip_both strip_prefix
parse_list-write_items fl items =
    rw (strip_suffix-append (codes "]") (write_items fl items)) (parse_inner-write_items fl items)

rest-no_newline : (fl : Floats) (items : List Text) → no_newline (write_rest fl items) ≡ true
unfolding write_rest no_newline all
rest-no_newline fl [] = refl
rest-no_newline fl (item ∷ items) = ground (
  arith,
  all-append (λ d. not (d == newline)) (write_scalar fl item) (write_rest fl items),
  write_scalar-no_newline fl item,
  rest-no_newline fl items,
)

pub items-no_newline : (fl : Floats) (items : List Text) → no_newline (write_items fl items) ≡ true
unfolding write_items no_newline
items-no_newline fl [] = unfold all in refl
items-no_newline fl (item ∷ items) = ground (
  arith,
  all-append (λ d. not (d == newline)) (write_scalar fl item) (write_rest fl items),
  write_scalar-no_newline fl item,
  rest-no_newline fl items,
)
