-- ===== src/Journal.antt =====
-- crates/tusk-core/src/sync.rs: the append-only journal of changes, chained by hashes.
pub mod Lines
pub mod Chain
pub mod Crash
pub mod Torn
pub mod Tamper
pub mod Entries
pub mod Live
pub mod Reconcile
pub mod CatchUp
pub mod InSync
use tuskd.Prelude.{
  ℕ, suc, ◌+◌, Bool, true, false, not, Option, none, some, List, [], ◌∷◌, ◌++◌, ◌≡◌, refl, ◌==◌,
  if◌then◌else◌, ℕ_eq, all, length, take,
}
use tuskd.Text.{Text, codes, Text_eq}
use tuskd.Errors.{
  CoreError, Result, ok, err, io, other, journal, write_failed, unparseable_line, chain_broken,
  ok_or, ensure,
}
use tuskd.Errors.{◌>>=◌ as then_with, ◌>>◌ as and_then}
use tuskd.Exec.{Exec, pure, raise, lift, gets, modify, ◌>>=◌, ◌>>◌}
use tuskd.Keyring.{Crypto}
use tuskd.Time.{Chrono, trunc_ms, fmt_ts}
use tuskd.Frontmatter.Quoting.{newline}
use Lines.{split_tail, good_end}

pub data OpKind : Type 0 where
  put patch tombstone : OpKind

pub record JournalEntry : Type 0 where
  pub op_id : Text
  pub kind : OpKind
  pub path : Text
  pub content_hash : Option Text
  pub ts : Text
  pub prev : Text

-- What the crates sha2, hex, serde_json, ulid and the clock provide; the clock and the random part
-- of a ULID depend on how often they were asked.
pub record Services : Type 1 where
  pub crypto : Crypto
  pub chrono : Chrono
  pub to_json : JournalEntry → Text
  pub from_slice : Text → Option JournalEntry
  pub now : ℕ → chrono.DateTime
  pub ulid : ℕ → chrono.DateTime → Text

-- What becomes of a write: it is carried out, the file cannot be opened, or `write_all` stops after
-- some bytes.
pub data Fault : Type 0 where
  fine refused : Fault
  short : ℕ → Fault

-- `file` is the journal's file (`none`: no file), `last_hash` the state behind the mutex. `faults`
-- says what becomes of the coming writes, and `calls` counts the questions to the clock.
pub record Journal : Type 0 where
  pub file : Option Text
  pub last_hash : Text
  pub calls : ℕ
  pub faults : List Fault

abbrev pub bytes_of : Option Text → Text
bytes_of none = []
bytes_of (some raw) = raw

abbrev pub next_fault : List Fault → Fault
next_fault [] = fine
next_fault (f ∷ fs) = f

abbrev pub later_faults : List Fault → List Fault
later_faults [] = []
later_faults (f ∷ fs) = fs

abbrev pub outcome : Fault → Result (Unit {0})
outcome fine = ok tt
outcome _ = err (io write_failed)

abbrev pub written : Fault → Text → Option Text → Option Text
written fine bytes file = some (bytes_of file ++ bytes)
written refused bytes file = file
written (short n) bytes file = some (bytes_of file ++ take n bytes)

unfoldable pub write_all : Text → Exec Journal (Unit {0})
write_all bytes j = (
  outcome (next_fault j.faults),
  record j { file = written (next_fault j.faults) bytes j.file; faults = later_faults j.faults },
)

module _ (sv : Services) where
  unfoldable pub content_hash : Text → Text
  content_hash bytes = sv.crypto.hex_encode (sv.crypto.sha256 bytes)

  unfoldable pub genesis_hash : Text → Text
  genesis_hash vault_id =
      sv.crypto.hex_encode (sv.crypto.sha256 (codes "tuskd-journal:" ++ vault_id))

  -- The loop of `open` over the complete lines, from a line number and the running hash.
  unfoldable pub verify : ℕ → Text → List Text → Result Text
  unfolding content_hash
  verify n running [] = ok running
  verify n running (line ∷ lines) =
      then_with (ok_or (sv.from_slice line) (journal (unparseable_line (suc n)))) λ entry.
        and_then (ensure (entry.prev == running) (journal (chain_broken (suc n))))
          (verify (suc n) (content_hash line) lines)

  -- What `open` makes of the complete lines, a torn last line and the running hash.
  unfoldable pub heal : Bool → Option Text → List Text → Text → Text → Result Journal
  heal truncated file lines [] running =
      ok (record { file = file; last_hash = running; calls = 0; faults = [] })
  heal true file lines torn running = ok (record {
    file = some (take (good_end lines) (bytes_of file));
    last_hash = running;
    calls = 0;
    faults = [];
  })
  heal false file lines torn running = err (io write_failed)

  unfoldable pub open_raw : Text → Bool → Option Text → Result Journal
  unfolding verify genesis_hash heal
  open_raw vault_id truncated file =
      let (lines, torn) = split_tail (bytes_of file) in
      then_with (verify 0 (genesis_hash vault_id) lines)
        λ running. heal truncated file lines torn running

  -- `open`, from what reading the file gives and whether a needed truncation is carried out.
  unfoldable pub open_journal : Text → Bool → Result (Option Text) → Result Journal
  unfolding open_raw
  open_journal vault_id truncated read = then_with read (open_raw vault_id truncated)

  abbrev pub new_entry : OpKind → Text → Option Text → ℕ → Text → JournalEntry
  new_entry kind path hash call prev =
      let now = trunc_ms sv.chrono (sv.now call) in
      record {
        op_id = sv.ulid call now;
        kind = kind;
        path = path;
        content_hash = hash;
        ts = fmt_ts sv.chrono now;
        prev = prev;
      }

  unfoldable pub append : OpKind → Text → Option Text → Exec Journal JournalEntry
  unfolding content_hash write_all trunc_ms fmt_ts
  append kind rel_path hash = do
    call ← gets (λ j. j.calls)
    modify (λ j. record j { calls = suc call })
    prev ← gets (λ j. j.last_hash)
    let entry = new_entry kind rel_path hash call prev
    let line = sv.to_json entry
    write_all (line ++ newline ∷ [])
    modify (λ j. record j { last_hash = content_hash line })
    pure entry
