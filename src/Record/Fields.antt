-- ===== src/Record/Fields.antt =====
-- record.rs: the record, and the fields of its file.
use tuskd.Prelude.{Option, none, some, List, [], ◌∷◌, ◌==◌, if◌then◌else◌}
use tuskd.Text.{Text, codes, Text_eq}
use tuskd.Text.Number.{ℤ, show_i64}
use tuskd.Errors.{
  Result, ok, err, frontmatter, must_be_scalar, missing_field, must_be_list, must_be_numeric,
  must_be_integer, ◌>>=◌,
}
use tuskd.Floats.{Floats}
use tuskd.Time.{Chrono, parse_ts}
use tuskd.Scope.{Scope}
use tuskd.Record.Kind.{RecordType}
use tuskd.Frontmatter.Parser.{FmValue, str, int, float, list, Fields}

pub record Record (fl : Floats) (ch : Chrono) : Type 0 where
  pub id : Text
  pub kind : RecordType
  pub scope : Scope
  pub author : Text
  pub created_at : ch.DateTime
  pub valid_at : ch.DateTime
  pub invalid_at : Option ch.DateTime
  pub supersedes : Option Text
  pub entities : List Text
  pub tags : List Text
  pub trust : fl.F64
  pub uses : ℤ
  pub successes : fl.F64
  pub last_used : Option ch.DateTime
  pub version : Option ℤ
  pub trigger : Option Text
  pub body : Text

module _ (fl : Floats) where
  -- `if let Some(v) = .. { push(key, v) }`, with the pushes that follow.
  unfoldable pub push_opt : Text → Option (FmValue fl) → Fields fl → Fields fl
  push_opt key none rest = rest
  push_opt key (some v) rest = (key, v) ∷ rest

  -- `get`: the first field with the key.
  unfoldable pub field : Text → Fields fl → Option (FmValue fl)
  field key [] = none
  field key ((k, v) ∷ fields) = if k == key then some v else field key fields

  unfoldable pub req_str : Text → Option (FmValue fl) → Result Text
  req_str key none = err (frontmatter (missing_field key))
  req_str key (some (str s)) = ok s
  req_str key (some (int i)) = ok (show_i64 i)
  req_str key (some (float f)) = ok (fl.display f)
  req_str key (some (list l)) = err (frontmatter (must_be_scalar key))

  unfoldable pub opt_str : Text → Option (FmValue fl) → Result (Option Text)
  unfolding req_str
  opt_str key none = ok none
  opt_str key (some v) = do s ← req_str key (some v); ok (some s)

  unfoldable pub list_field : Text → Option (FmValue fl) → Result (List Text)
  list_field key none = ok []
  list_field key (some (list l)) = ok l
  list_field key (some _) = err (frontmatter (must_be_list key))

  unfoldable pub num : Text → fl.F64 → Option (FmValue fl) → Result fl.F64
  num key default none = ok default
  num key default (some (float f)) = ok f
  num key default (some (int i)) = ok (fl.of_i64 i)
  num key default (some _) = err (frontmatter (must_be_numeric key))

  unfoldable pub int_field : Text → ℤ → Option (FmValue fl) → Result ℤ
  int_field key default none = ok default
  int_field key default (some (int i)) = ok i
  int_field key default (some _) = err (frontmatter (must_be_integer key))

  unfoldable pub version_field : Option (FmValue fl) → Result (Option ℤ)
  version_field none = ok none
  version_field (some (int i)) = ok (some i)
  version_field (some _) = err (frontmatter (must_be_integer (codes "version")))

-- `opt.map(|s| parse_ts(&s)).transpose()`
unfoldable pub opt_ts : (ch : Chrono) → Option Text → Result (Option ch.DateTime)
unfolding parse_ts
opt_ts ch none = ok none
opt_ts ch (some s) = do t ← parse_ts ch s; ok (some t)
