-- ===== src/Time.antt =====
-- The crate chrono as the program uses it, and `trunc_ms` of crates/tusk-core/src/vault.rs.
use tuskd.Prelude.{Bool, true, Option, none, some, ◌≡◌, ◌==◌, ℕ_eq, all, not}
use tuskd.Text.{Text}
use tuskd.Text.Number.{ℤ}
use tuskd.Errors.{Result, frontmatter, bad_timestamp, ok_or}
use tuskd.Frontmatter.Quoting.{carriage_return}

-- `DateTime<Utc>` with its order, its milliseconds, and RFC 3339 texts with three decimals.
pub record Chrono : Type 1 where
  pub DateTime : Type 0
  pub le : DateTime → DateTime → Bool
  pub lt : DateTime → DateTime → Bool
  pub timestamp_millis : DateTime → ℤ
  pub timestamp_millis_opt : ℤ → Option DateTime
  pub to_rfc3339 : DateTime → Text
  pub parse_from_rfc3339 : Text → Option DateTime

-- What chrono documents of a time of whole milliseconds: it is read back from its text, which is in
-- the characters of RFC 3339.
pub record IsWhole (ch : Chrono) (t : ch.DateTime) : Type 0 where
  pub read_back : ch.parse_from_rfc3339 (ch.to_rfc3339 t) ≡ some t
  pub no_return : all (λ c. not (c == carriage_return)) (ch.to_rfc3339 t) ≡ true

module _ (ch : Chrono) where
  -- To the resolution of the files: milliseconds.
  unfoldable pub trunc_ms : ch.DateTime → ch.DateTime
  trunc_ms t = elim (ch.timestamp_millis_opt (ch.timestamp_millis t)) [ none ↦ t | some u ↦ u ]

  unfoldable pub fmt_ts : ch.DateTime → Text
  fmt_ts t = ch.to_rfc3339 t

  unfoldable pub parse_ts : Text → Result ch.DateTime
  parse_ts s = ok_or (ch.parse_from_rfc3339 s) (frontmatter (bad_timestamp s))
