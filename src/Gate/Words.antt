-- ===== src/Gate/Words.antt =====
-- gate.rs: the overlap of texts, and the names of skills.
use tuskd.Prelude.{
  ℕ, suc, ◌+◌, Bool, true, false, List, [], ◌∷◌, ◌++◌, map, ◌==◌, if◌then◌else◌, ℕ_eq, take, length,
  reverse, contains,
}
use tuskd.Text.{Text, codes, Text_eq, trim, is_ascii_alphanumeric}
use tuskd.Text.Number.{pos}
use tuskd.Floats.{Floats}
use tuskd.Journal.Lines.{split_tail}

-- The Unicode tables of Rust's standard library, and the order of `f64`.
pub record Unicode (fl : Floats) : Type 0 where
  pub is_alphanumeric : ℕ → Bool
  pub to_lowercase : Text → Text
  pub gt : fl.F64 → fl.F64 → Bool
  pub threshold : fl.F64

abbrev push_to : ℕ → List Text → List Text
push_to c [] = (c ∷ []) ∷ []
push_to c (t ∷ tokens) = (c ∷ t) ∷ tokens

-- `s.split(|c| !p(c))`
unfoldable pub split_not : (ℕ → Bool) → Text → List Text
split_not p [] = [] ∷ []
split_not p (c ∷ s) = if p c then push_to c (split_not p s) else [] ∷ split_not p s

-- Collecting into a `HashSet`, without the empty tokens.
unfoldable pub token_set : (Text → Text) → List Text → List Text
unfolding contains
token_set lower [] = []
token_set lower ([] ∷ tokens) = token_set lower tokens
token_set lower ((c ∷ t) ∷ tokens) =
    let rest = token_set lower tokens in
    if contains (lower (c ∷ t)) rest then rest else lower (c ∷ t) ∷ rest

unfoldable pub shared : List Text → List Text → ℕ
unfolding contains
shared [] b = 0
shared (t ∷ a) b = if contains t b then suc (shared a b) else shared a b

-- The tokens of `b` that are not in `a`.
unfoldable pub fresh : List Text → List Text → ℕ
unfolding contains
fresh a [] = 0
fresh a (t ∷ b) = if contains t a then fresh a b else suc (fresh a b)

unfoldable pub token_overlap : {fl : Floats} → Unicode fl → Text → Text → fl.F64
unfolding split_not token_set shared fresh
token_overlap {fl} u a b =
    let ta = token_set u.to_lowercase (split_not u.is_alphanumeric a) in
    let tb = token_set u.to_lowercase (split_not u.is_alphanumeric b) in
    let union = length ta + fresh ta tb in
    if union == 0
    then fl.zero_f64
    else fl.div_f64 (fl.of_i64 (pos (shared ta tb))) (fl.of_i64 (pos union))

unfoldable pub trim_start_matches : ℕ → Text → Text
trim_start_matches d [] = []
trim_start_matches d (c ∷ s) = if c == d then trim_start_matches d s else c ∷ s

unfoldable pub trim_matches : ℕ → Text → Text
unfolding trim_start_matches
trim_matches d s = reverse (trim_start_matches d (reverse (trim_start_matches d s)))

-- The first line that is not empty without its heading markers.
unfoldable pub first_heading : List Text → Text
unfolding trim trim_start_matches
first_heading [] = codes "untitled"
first_heading (line ∷ lines) =
    let rest = first_heading lines in
    let text = trim (trim_start_matches b'#' (trim line)) in if text == [] then rest else text

unfoldable pub first_line : Text → Text
unfolding first_heading split_tail
first_line body =
    let (lines, last) = split_tail body in take 120 (first_heading (lines ++ last ∷ []))

slug_char : ℕ → ℕ
slug_char c = if is_ascii_alphanumeric c then c else b'-'

-- Runs of dashes become one; the flag says whether the last character was a dash.
unfoldable pub collapse : Bool → Text → Text
collapse prev_dash [] = []
collapse prev_dash (c ∷ s) =
    if c == b'-'
    then (if prev_dash then collapse true s else b'-' ∷ collapse true s)
    else c ∷ collapse false s

-- The id stands in the name where no character of the first line does.
unfoldable pub skill_name : (Text → Text) → Text → Text → Text
unfolding first_line collapse trim_matches slug_char is_ascii_alphanumeric
skill_name lower id body =
    let cleaned =
      take 60 (collapse false (trim_matches b'-' (map slug_char (lower (first_line body))))) in
    if cleaned == [] then codes "skill-" ++ lower id else cleaned
