-- ===== src/Tests/Vaults.antt =====
-- vault.rs at fixed inputs.
use tuskd.Prelude.{ℕ, ◌+◌, ◌-◌, ◌≡◌, ◌≢◌, refl, none, some, [], all, arith, ap, ℕ_eq}
use tuskd.Text.{codes, Text_eq, text_eq_iff}
use mathlib.Core.Bool.{false≢true}
use tuskd.Errors.{ok, err, not_found, no_record}
use tuskd.Exec.{Ends}
use tuskd.Time.{IsWhole, trunc_ms}
use tuskd.Record.Fields.{Record}
use tuskd.Record.Roundtrip.{IsStorable}
use tuskd.Vault.Paths.{path_for, file_name}
use tuskd.Vault.Store.{put_file, VaultStore, get, write, forget, supersede}
use tuskd.Vault.Files.{Alone}
use tuskd.Vault.Reads.{IsCalm, filed, get-write, get-forget}
use tuskd.Vault.Supersede.{
  Stored, Stored-filed, get-Stored, ended, correction, written, get-supersede,
}
use tuskd.Tests.Values.{tenths, ticks}
use tuskd.Tests.Json.{toy_services}
use tuskd.Tests.Records.{sample, sample-IsStorable}

abbrev newer : Record tenths ticks
newer = record sample { id = codes "01B"; body = codes "Better" }

newer-IsStorable : IsStorable (correction toy_services newer (codes "01A"))
unfolding all
newer-IsStorable = record {
  id_plain = refl;
  supersedes_plain = refl;
  scope_valid = sample-IsStorable.scope_valid;
  author_plain = sample-IsStorable.author_plain;
  created_whole = sample-IsStorable.created_whole;
  valid_whole = sample-IsStorable.valid_whole;
  invalid_whole = sample-IsStorable.invalid_whole;
  entities_plain = sample-IsStorable.entities_plain;
  tags_plain = sample-IsStorable.tags_plain;
  trust_prints = sample-IsStorable.trust_prints;
  uses_i64 = sample-IsStorable.uses_i64;
  successes_prints = sample-IsStorable.successes_prints;
  last_used_whole = sample-IsStorable.last_used_whole;
  version_i64 = sample-IsStorable.version_i64;
  trigger_plain = sample-IsStorable.trigger_plain;
}

abbrev pub store : VaultStore
store = record { files = filed toy_services sample []; journal = none; writes = []; calls = 2 }

abbrev empty : VaultStore
empty = record { files = []; journal = none; writes = []; calls = 2 }

pub store-Stored : Stored toy_services sample store.files
store-Stored = Stored-filed toy_services sample [] sample-IsStorable tt

store-IsCalm : IsCalm store
store-IsCalm = record { no_failure = refl; no_fault = tt }

get-write_example :
    Ends
      (λ p w. get toy_services tenths (codes "01A") w ≡ (ok (p, sample), w))
      (write toy_services tenths sample empty)
get-write_example =
    get-write toy_services sample empty sample-IsStorable tt
      (record { no_failure = refl; no_fault = tt })

get-forget_example :
    Ends
      (λ u w.
        get toy_services tenths (codes "01A") w ≡ (err (not_found (no_record (codes "01A"))), w))
      (forget toy_services tenths (codes "01A") store)
get-forget_example =
    get-forget toy_services (codes "01A") (path_for tenths ticks sample) sample store
      (get-Stored toy_services sample store.files store store-Stored refl) store-Stored.alone
      store-IsCalm

digit_back : (n : ℕ) → b'0' + n - b'0' ≡ n
digit_back n = omega arith

pub tick-IsWhole : (n : ℕ) → IsWhole ticks n
unfolding all
tick-IsWhole n = record { read_back = ap some (digit_back n); no_return = ground arith }

pub trunc-IsWhole : (n : ℕ) → IsWhole ticks (trunc_ms ticks n)
unfolding trunc_ms
trunc-IsWhole n = tick-IsWhole n

other_name : file_name (codes "01B") ≢ file_name (codes "01A")
unfolding file_name
other_name e = false≢true ((text_eq_iff (file_name (codes "01B")) (file_name (codes "01A"))).1 e)

newer-Alone : Alone (file_name newer.id) (path_for tenths ticks newer) store.files
unfolding put_file file_name path_for
newer-Alone = ((λ e. cc), tt)

get-supersede_example :
    Ends
      (λ r w.
        (get toy_services tenths (codes "01A") w ≡ (
          ok (
            path_for tenths ticks sample,
            ended toy_services sample (written toy_services newer (codes "01A") store).calls,
          ),
          w,
        ))
        × (get toy_services tenths (codes "01B") w
            ≡ (ok (path_for tenths ticks newer, correction toy_services newer (codes "01A")), w)))
      (supersede toy_services tenths newer (codes "01A") store)
get-supersede_example =
    get-supersede toy_services newer sample store store-Stored newer-IsStorable newer-Alone
      other_name trunc-IsWhole store-IsCalm
