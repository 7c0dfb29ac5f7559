-- ===== src/Record/Roundtrip.antt =====
-- record.rs: a record is read back from its file.
use tuskd.Prelude.{
  true, not, Option, none, some, List, [], ◌∷◌, map, ◌≡◌, refl, ap, ap₂, ◌∙◌, ◌==◌, ℕ_eq, all,
  arith,
}
use mathlib.Core.Option
use tuskd.Text.{Text, codes, Text_eq, is_ascii_alphanumeric}
use tuskd.Text.Number.{ℤ, IsI64}
use tuskd.Errors.{ok}
use tuskd.Floats.{Floats, Prints}
use tuskd.Time.{Chrono, IsWhole, fmt_ts, parse_ts}
use tuskd.Scope
use tuskd.Scope.{Scope, is_id_char, agent, project, user, org}
use tuskd.Scope.Roundtrip.{IsValid, parse-to_string, valid_id-chars}
use tuskd.Record.Kind.{RecordType, type_to_string, parse_type-type_to_string}
use tuskd.Frontmatter.Quoting.{carriage_return}
use tuskd.Frontmatter.Parser.{FmValue, str, int, float, list, valid_key, is_key_char}
use tuskd.Frontmatter.Roundtrip.{norm, parse-serialize}
use tuskd.Frontmatter.Roundtrip.Values.{norm_value}
use tuskd.Record.Fields.{
  Record, push_opt, field, req_str, opt_str, list_field, num, int_field, version_field, opt_ts,
}
use tuskd.Record.Markdown.{to_fields, from_fields, to_markdown, from_markdown}
use tuskd.Frontmatter.Roundtrip.Quoted.{norm_id}
use tuskd.Record.Rows.{
  KeptOpts, KeptValue, push_all, row, field-rows, norm_fields_id, Kept-push_all, Kept-AreFields,
  Kept,
}

-- A text with no carriage return.
abbrev pub IsPlain : Text → Type 0
IsPlain s = all (λ c. not (c == carriage_return)) s ≡ true

abbrev pub ArePlain : List Text → Type 0
ArePlain [] = Unit {0}
ArePlain (s ∷ l) = IsPlain s × ArePlain l

abbrev pub Each {ℓ} : {A : Type ℓ} → (A → Type 0) → Option A → Type 0
Each P none = Unit {0}
Each P (some a) = P a

-- A record that its file can hold: no carriage returns outside of the body, a valid scope, times of
-- whole milliseconds, and numbers that print well.
pub record IsStorable {fl : Floats} {ch : Chrono} (r : Record fl ch) : Type 0 where
  pub id_plain : IsPlain r.id
  pub scope_valid : IsValid r.scope
  pub author_plain : IsPlain r.author
  pub created_whole : IsWhole ch r.created_at
  pub valid_whole : IsWhole ch r.valid_at
  pub invalid_whole : Each (IsWhole ch) r.invalid_at
  pub supersedes_plain : Each IsPlain r.supersedes
  pub entities_plain : ArePlain r.entities
  pub tags_plain : ArePlain r.tags
  pub trust_prints : Prints fl r.trust
  pub uses_i64 : IsI64 r.uses
  pub successes_prints : Prints fl r.successes
  pub last_used_whole : Each (IsWhole ch) r.last_used
  pub version_i64 : Each IsI64 r.version
  pub trigger_plain : Each IsPlain r.trigger

map-norm : (l : List Text) → ArePlain l → map norm l ≡ l
map-norm [] h = refl
map-norm (s ∷ l) h = ap₂ ◌∷◌ (norm_id s h.0) (map-norm l h.1)

module _ (fl : Floats) where
  norm_str : (s : Text) → IsPlain s → norm_value {fl = fl} (str s) ≡ str s
  unfolding norm_value
  norm_str s h = ap str (norm_id s h)

  norm_list : (l : List Text) → ArePlain l → norm_value {fl = fl} (list l) ≡ list l
  unfolding norm_value
  norm_list l h = ap list (map-norm l h)

type-IsPlain : (k : RecordType) → IsPlain (type_to_string k)
unfolding type_to_string all
type-IsPlain k = ground arith

module _ {fl : Floats} where
  module _ {ch : Chrono} (r : Record fl ch) where
    abbrev rows : List (Text × Option (FmValue fl))
    rows =
        (codes "id", some (str r.id))
        ∷ (codes "type", some (str (type_to_string r.kind)))
        ∷ (codes "scope", some (str (Scope.to_string r.scope)))
        ∷ (codes "author", some (str r.author))
        ∷ (codes "created_at", some (str (fmt_ts ch r.created_at)))
        ∷ (codes "valid_at", some (str (fmt_ts ch r.valid_at)))
        ∷ (codes "invalid_at", Option.map (λ t. str (fmt_ts ch t)) r.invalid_at)
        ∷ (codes "supersedes", Option.map str r.supersedes)
        ∷ (codes "entities", some (list r.entities))
        ∷ (codes "tags", some (list r.tags))
        ∷ (codes "trust", some (float r.trust))
        ∷ (codes "uses", some (int r.uses))
        ∷ (codes "successes", some (float r.successes))
        ∷ (codes "last_used", Option.map (λ t. str (fmt_ts ch t)) r.last_used)
        ∷ (codes "version", Option.map int r.version)
        ∷ (codes "trigger", Option.map str r.trigger)
        ∷ []

    to_fields-rows : to_fields fl ch r ≡ push_all rows []
    unfolding to_fields push_opt
    to_fields-rows = refl

module _ (fl : Floats) where
  kept_time :
      (ch : Chrono) (o : Option ch.DateTime)
      → Each (IsWhole ch) o
      → KeptValue {fl = fl} (Option.map (λ t. str (fmt_ts ch t)) o)
  unfolding fmt_ts
  kept_time ch none h = tt
  kept_time ch (some t) h = (tt, norm_str fl _ h.no_return)

  kept_text : (o : Option Text) → Each IsPlain o → KeptValue {fl = fl} (Option.map str o)
  kept_text none h = tt
  kept_text (some s) h = (tt, norm_str fl s h)

  kept_int : (o : Option ℤ) → Each IsI64 o → KeptValue {fl = fl} (Option.map int o)
  unfolding norm_value
  kept_int none h = tt
  kept_int (some i) h = (h, refl)

all-IsPlain : (s : Text) → all is_id_char s ≡ true → IsPlain s
unfolding all is_id_char is_ascii_alphanumeric
all-IsPlain [] h = refl
all-IsPlain (c ∷ s) h = ground (arith, all-IsPlain s)

scope-IsPlain : (s : Scope) → IsValid s → IsPlain (Scope.to_string s)
unfolding Scope.to_string all
scope-IsPlain (agent id) h = all-IsPlain id (valid_id-chars id h)
scope-IsPlain (project id) h = all-IsPlain id (valid_id-chars id h)
scope-IsPlain user h = refl
scope-IsPlain org h = refl

-- What the readers of optional fields give back.
module _ (fl : Floats) (ch : Chrono) where
  read_text : (key : Text) (o : Option Text) → opt_str fl key (Option.map str o) ≡ ok o
  unfolding opt_str req_str
  read_text key none = refl
  read_text key (some s) = refl

  read_time :
      (key : Text) (o : Option ch.DateTime)
      → opt_str fl key (Option.map (λ t. str (fmt_ts ch t)) o) ≡ ok (Option.map (fmt_ts ch) o)
  unfolding opt_str req_str
  read_time key none = refl
  read_time key (some t) = refl

  parse-fmt_ts : (t : ch.DateTime) → IsWhole ch t → parse_ts ch (fmt_ts ch t) ≡ ok t
  unfolding parse_ts fmt_ts
  parse-fmt_ts t h = rw h.read_back

  opt-fmt_ts :
      (o : Option ch.DateTime) → Each (IsWhole ch) o → opt_ts ch (Option.map (fmt_ts ch) o) ≡ ok o
  unfolding opt_ts
  opt-fmt_ts none h = refl
  opt-fmt_ts (some t) h = rw (parse-fmt_ts t h)

  read_version : (o : Option ℤ) → version_field fl (Option.map int o) ≡ ok o
  unfolding version_field
  read_version none = refl
  read_version (some i) = refl

module _ {fl : Floats} {ch : Chrono} (r : Record fl ch) (w : IsStorable r) where
  rows-Kept : KeptOpts (rows r)
  unfolding valid_key is_key_char is_ascii_alphanumeric all norm_value fmt_ts
  rows-Kept = (
    refl,
    refl,
    (tt, norm_str fl _ w.id_plain),
    (
      refl,
      refl,
      (tt, norm_str fl _ (type-IsPlain r.kind)),
      (
        refl,
        refl,
        (tt, norm_str fl _ (scope-IsPlain r.scope w.scope_valid)),
        (
          refl,
          refl,
          (tt, norm_str fl _ w.author_plain),
          (
            refl,
            refl,
            (tt, norm_str fl _ w.created_whole.no_return),
            (
              refl,
              refl,
              (tt, norm_str fl _ w.valid_whole.no_return),
              (
                refl,
                refl,
                kept_time fl ch r.invalid_at w.invalid_whole,
                (
                  refl,
                  refl,
                  kept_text fl r.supersedes w.supersedes_plain,
                  (
                    refl,
                    refl,
                    (tt, norm_list fl _ w.entities_plain),
                    (
                      refl,
                      refl,
                      (tt, norm_list fl _ w.tags_plain),
                      (
                        refl,
                        refl,
                        (w.trust_prints, refl),
                        (
                          refl,
                          refl,
                          (w.uses_i64, refl),
                          (
                            refl,
                            refl,
                            (w.successes_prints, refl),
                            (
                              refl,
                              refl,
                              kept_time fl ch r.last_used w.last_used_whole,
                              (
                                refl,
                                refl,
                                kept_int fl r.version w.version_i64,
                                (refl, refl, kept_text fl r.trigger w.trigger_plain, tt),
                              ),
                            ),
                          ),
                        ),
                      ),
                    ),
                  ),
                ),
              ),
            ),
          ),
        ),
      ),
    ),
  )

  at_row : (j : Text) → field fl j (to_fields fl ch r) ≡ row j (rows r)
  at_row j = ap (field fl j) (to_fields-rows r) ∙ field-rows j (rows r) rows-Kept

  from-to_fields : from_fields fl ch (to_fields fl ch r) r.body ≡ ok r
  unfolding from_fields req_str list_field num int_field
  from-to_fields = rw (
    at_row (codes "id"),
    at_row (codes "type"),
    parse_type-type_to_string r.kind,
    at_row (codes "scope"),
    parse-to_string r.scope w.scope_valid,
    at_row (codes "author"),
    at_row (codes "created_at"),
    parse-fmt_ts fl ch r.created_at w.created_whole,
    at_row (codes "valid_at"),
    parse-fmt_ts fl ch r.valid_at w.valid_whole,
    at_row (codes "invalid_at"),
    read_time fl ch (codes "invalid_at") r.invalid_at,
    opt-fmt_ts fl ch r.invalid_at w.invalid_whole,
    at_row (codes "supersedes"),
    read_text fl ch (codes "supersedes") r.supersedes,
    at_row (codes "entities"),
    at_row (codes "tags"),
    at_row (codes "trust"),
    at_row (codes "uses"),
    at_row (codes "successes"),
    at_row (codes "last_used"),
    read_time fl ch (codes "last_used") r.last_used,
    opt-fmt_ts fl ch r.last_used w.last_used_whole,
    at_row (codes "version"),
    read_version fl ch r.version,
    at_row (codes "trigger"),
    read_text fl ch (codes "trigger") r.trigger,
  )

  to_fields-Kept : Kept (to_fields fl ch r)
  to_fields-Kept = rw (to_fields-rows r) (Kept-push_all (rows r) rows-Kept)

-- A record with a valid scope, whole times, i64 counters and no carriage return outside its body is
-- read back from its file exactly.
pub from-to_markdown :
    {fl : Floats} {ch : Chrono} (r : Record fl ch)
    → IsStorable r
    → from_markdown fl ch (to_markdown fl ch r) ≡ ok r
unfolding from_markdown to_markdown
from-to_markdown {fl} {ch} r w =
    rw
      (
        parse-serialize fl (to_fields fl ch r) r.body (Kept-AreFields _ (to_fields-Kept r w)),
        norm_fields_id _ (to_fields-Kept r w),
      )
      (from-to_fields r w)
