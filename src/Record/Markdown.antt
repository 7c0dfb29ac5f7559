-- ===== src/Record/Markdown.antt =====
-- record.rs: the operations on a record, and its file.
use tuskd.Prelude.{Bool, true, false, Option, none, some, [], ◌∷◌, ◌&&◌, if◌then◌else◌, ltb}
use mathlib.Core.Option
use tuskd.Text.{Text, codes, Text_eq, trim}
use tuskd.Text.Number.{ℤ, pos, negsuc}
use tuskd.Errors.{Result, ok, ◌>>=◌}
use tuskd.Floats.{Floats}
use tuskd.Time.{Chrono, fmt_ts, parse_ts}
use tuskd.Scope
use tuskd.Scope.{Scope}
use tuskd.Record.Kind.{RecordType, parse_type, type_to_string}
use tuskd.Frontmatter.Parser.{FmValue, str, int, float, list, Fields}
use tuskd.Frontmatter.Parser
use tuskd.Frontmatter.Printer.{serialize}
use tuskd.Record.Fields.{
  Record, push_opt, field, req_str, opt_str, list_field, num, int_field, version_field, opt_ts,
}

module _ (fl : Floats) (ch : Chrono) where
  unfoldable pub new_at : Text → RecordType → Scope → Text → ch.DateTime → Text → Record fl ch
  new_at id kind scope author at body = record {
    id = id;
    kind = kind;
    scope = scope;
    author = author;
    created_at = at;
    valid_at = at;
    invalid_at = none;
    supersedes = none;
    entities = [];
    tags = [];
    trust = fl.half;
    uses = pos 0;
    successes = fl.zero_f64;
    last_used = none;
    version = none;
    trigger = none;
    body = body;
  }

  -- `invalid_at.map(|inv| t < inv).unwrap_or(true)`
  unfoldable pub before_end : ch.DateTime → Option ch.DateTime → Bool
  before_end t none = true
  before_end t (some inv) = ch.lt t inv

  unfoldable pub is_valid_at : Record fl ch → ch.DateTime → Bool
  unfolding before_end
  is_valid_at r t = ch.le r.valid_at t && before_end t r.invalid_at

  unfoldable pub is_valid_now : Record fl ch → Bool
  is_valid_now r = elim r.invalid_at [ none ↦ true | some _ ↦ false ]

  abbrev is_positive : ℤ → Bool
  is_positive (pos n) = ltb 0 n
  is_positive (negsuc n) = false

  unfoldable pub success_rate : Record fl ch → fl.F64
  success_rate r =
      if is_positive r.uses then fl.div_f64 r.successes (fl.of_i64 r.uses) else fl.zero_f64

  abbrev ts : ch.DateTime → FmValue fl
  ts t = str (fmt_ts ch t)

  -- What `to_markdown` pushes, in order.
  unfoldable pub to_fields : Record fl ch → Fields fl
  to_fields r =
      (codes "id", str r.id)
      ∷ (codes "type", str (type_to_string r.kind))
      ∷ (codes "scope", str (Scope.to_string r.scope))
      ∷ (codes "author", str r.author)
      ∷ (codes "created_at", ts r.created_at)
      ∷ (codes "valid_at", ts r.valid_at)
      ∷ push_opt fl (codes "invalid_at") (Option.map ts r.invalid_at) (
          push_opt fl (codes "supersedes") (Option.map str r.supersedes) (
            (codes "entities", list r.entities)
            ∷ (codes "tags", list r.tags)
            ∷ (codes "trust", float r.trust)
            ∷ (codes "uses", int r.uses)
            ∷ (codes "successes", float r.successes)
            ∷ push_opt fl (codes "last_used") (Option.map ts r.last_used) (
                push_opt fl (codes "version") (Option.map int r.version)
                  (push_opt fl (codes "trigger") (Option.map str r.trigger) []))))

  unfoldable pub to_markdown : Record fl ch → Text
  to_markdown r = serialize fl (to_fields r) r.body

  -- The record literal of `from_markdown`, field by field.
  unfoldable pub from_fields : Fields fl → Text → Result (Record fl ch)
  from_fields fields body = do
    id ← req_str fl (codes "id") (field fl (codes "id") fields)
    kind_text ← req_str fl (codes "type") (field fl (codes "type") fields)
    kind ← parse_type kind_text
    scope_text ← req_str fl (codes "scope") (field fl (codes "scope") fields)
    scope ← Scope.parse scope_text
    author ← req_str fl (codes "author") (field fl (codes "author") fields)
    created_text ← req_str fl (codes "created_at") (field fl (codes "created_at") fields)
    created_at ← parse_ts ch created_text
    valid_text ← req_str fl (codes "valid_at") (field fl (codes "valid_at") fields)
    valid_at ← parse_ts ch valid_text
    invalid_text ← opt_str fl (codes "invalid_at") (field fl (codes "invalid_at") fields)
    invalid_at ← opt_ts ch invalid_text
    supersedes ← opt_str fl (codes "supersedes") (field fl (codes "supersedes") fields)
    entities ← list_field fl (codes "entities") (field fl (codes "entities") fields)
    tags ← list_field fl (codes "tags") (field fl (codes "tags") fields)
    trust ← num fl (codes "trust") fl.half (field fl (codes "trust") fields)
    uses ← int_field fl (codes "uses") (pos 0) (field fl (codes "uses") fields)
    successes ← num fl (codes "successes") fl.zero_f64 (field fl (codes "successes") fields)
    used_text ← opt_str fl (codes "last_used") (field fl (codes "last_used") fields)
    last_used ← opt_ts ch used_text
    version ← version_field fl (field fl (codes "version") fields)
    trigger ← opt_str fl (codes "trigger") (field fl (codes "trigger") fields)
    ok (record {
      id = id;
      kind = kind;
      scope = scope;
      author = author;
      created_at = created_at;
      valid_at = valid_at;
      invalid_at = invalid_at;
      supersedes = supersedes;
      entities = entities;
      tags = tags;
      trust = trust;
      uses = uses;
      successes = successes;
      last_used = last_used;
      version = version;
      trigger = trigger;
      body = body;
    })

  unfoldable pub from_markdown : Text → Result (Record fl ch)
  from_markdown text = do (fields, body) ← Parser.parse fl text; from_fields fields body

-- sha256 hex of the trimmed body, the key of the exact duplicates.
unfoldable pub body_hash : (Text → Text) → Text → Text
body_hash sha256_hex body = sha256_hex (trim body)
