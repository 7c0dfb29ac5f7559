-- ===== src/Worker/Cycle.antt =====
-- sync_worker.rs: a cycle, the first cycle of a device, and the manual push and pull.
pub mod Latest
use tuskd.Prelude.{ℕ, zero, suc, Option, none, some, List, [], ◌∷◌}
use tuskd.Text.{Text}
use tuskd.Text.Number.{ℤ, pos}
use tuskd.BTreeMap.{lookup}
use tuskd.SyncErrors.{SyncResult, ok, err}
use tuskd.Errors.{Result, other, nothing_pushed, out_of_rounds, ok_or}
use tuskd.Exec.{Exec, pure, lift, raise, gets, ◌>>=◌, ◌>>◌}
use tuskd.Journal.{Services, content_hash}
use tuskd.Cloud.Crypto.{ObjectEntry, KeyTable, dek_of, decrypt_object}
use tuskd.Cloud.Service.{Cloud, CloudOp}
use package.tuskd.Worker.State.{
  SyncState, CycleReport, Session, Device, nothing_done, outside, record_file, write_atomic, save,
  count, set_generation, one_pulled, sync_err,
}
use package.tuskd.Worker.Pull.{fetch_table, pull_phase}
use package.tuskd.Worker.Push.{push_phase}

abbrev pub last_seq : List CloudOp → Option ℤ
last_seq [] = none
last_seq (op ∷ []) = some op.seq
last_seq (op ∷ ops) = last_seq ops

abbrev pub fresh : ℤ → ℤ → SyncState
fresh cursor generation = record { cursor = cursor; generation = generation; files = [] }

module _ (cl : Cloud) where
  abbrev after_last :
      (ℤ → cl.World → Option (SyncResult ℤ × cl.World))
      → ℤ
      → cl.World
      → Option ℤ
      → Option (SyncResult ℤ × cl.World)
  after_last loop seq w none = some (ok seq, w)
  after_last loop seq w (some last) = loop last w

  abbrev after_page :
      (ℤ → cl.World → Option (SyncResult ℤ × cl.World))
      → ℤ
      → SyncResult (List CloudOp) × cl.World
      → Option (SyncResult ℤ × cl.World)
  after_page loop seq (err e, w) = some (err e, w)
  after_page loop seq (ok ops, w) = after_last loop seq w (last_seq ops)

  -- The loop of `latest_seq`. `none`: the rounds ran out.
  unfoldable pub latest_from : ℕ → ℤ → cl.World → Option (SyncResult ℤ × cl.World)
  latest_from zero seq w = none
  latest_from (suc fuel) seq w = after_page (latest_from fuel) seq (cl.ops_since seq (some 500) w)

  abbrev after_rounds : Device cl → Option (SyncResult ℤ × cl.World) → Result ℤ × Device cl
  after_rounds d none = raise (other out_of_rounds) d
  after_rounds d (some r) = outside (λ _. r) d

  unfoldable pub latest_seq : ℕ → Exec (Device cl) ℤ
  unfolding latest_from
  latest_seq rounds d = after_rounds d (latest_from rounds (pos 0) d.world)

  abbrev set_state : SyncState → Exec (Device cl) (Unit {0})
  set_state state d = (Result.ok tt, record d { state = state })

  abbrev set_report : CycleReport → Exec (Device cl) (Unit {0})
  set_report report d = (Result.ok tt, record d { report = report })

  module _ (sv : Services) (s : Session) where
    -- The text of a file in the cloud.
    unfoldable pub fetch_file : Text → ObjectEntry → Exec (Device cl) Text
    unfolding dek_of decrypt_object
    fetch_file rel e = do
      blob ← outside (cl.storage.get e.blob)
      dek ← lift (sync_err (dek_of cl.ciphers e))
      lift (sync_err (decrypt_object cl.ciphers dek s.config.repo_id rel blob))

    abbrev write_missing : Text → Text → Option Text → Exec (Device cl) (Unit {0})
    write_missing rel plaintext (some bytes) = pure tt
    write_missing rel plaintext none = do write_atomic rel plaintext; count one_pulled

    -- A file that is here already is recorded at the remote hash, so that a difference is uploaded.
    unfoldable pub adopt : Text → ObjectEntry → Exec (Device cl) (Unit {0})
    unfolding fetch_file write_atomic record_file content_hash lookup
    adopt rel e = do
      plaintext ← fetch_file rel e
      local ← gets (λ d. lookup rel d.files)
      write_missing rel plaintext local
      record_file rel (record { hash = content_hash sv plaintext; blob = e.blob })

    unfoldable pub adopt_all : KeyTable → Exec (Device cl) (Unit {0})
    unfolding adopt
    adopt_all [] = pure tt
    adopt_all ((rel, e) ∷ table) = do adopt rel e; adopt_all table

    abbrev adopt_table : Option KeyTable → Exec (Device cl) (Unit {0})
    adopt_table none = pure tt
    adopt_table (some table) = adopt_all table

    unfoldable pub initial_sync : ℕ → Exec (Device cl) (Unit {0})
    unfolding latest_seq fetch_table adopt_all save
    initial_sync rounds = do
      cursor ← latest_seq rounds
      set_state (fresh cursor s.generation)
      table ← fetch_table cl s
      adopt_table table
      save

    abbrev load_or_init : ℕ → Option SyncState → Exec (Device cl) (Unit {0})
    load_or_init rounds (some state) = set_state state
    load_or_init rounds none = initial_sync rounds

    -- A session is open; the report starts empty.
    unfoldable pub cycle : ℕ → Exec (Device cl) CycleReport
    unfolding initial_sync pull_phase push_phase save
    cycle rounds = do
      set_report nothing_done
      saved ← gets (λ d. d.saved)
      load_or_init rounds saved
      table ← pull_phase cl sv s
      push_phase cl sv s table
      set_generation s.generation
      save
      gets (λ d. d.report)

    abbrev state_or_fresh : Option SyncState → SyncState
    state_or_fresh none = fresh (pos 0) s.generation
    state_or_fresh (some state) = state

    -- `tuskd sync push`
    unfoldable pub push_only : Exec (Device cl) CycleReport
    unfolding push_phase save
    push_only = do
      saved ← gets (λ d. d.saved)
      set_state (state_or_fresh saved)
      set_report nothing_done
      push_phase cl sv s none
      set_generation s.generation
      save
      gets (λ d. d.report)

    -- A file of the manifest, over the local copy.
    unfoldable pub materialize : Text → ObjectEntry → Exec (Device cl) (Unit {0})
    unfolding fetch_file write_atomic record_file content_hash
    materialize rel e = do
      plaintext ← fetch_file rel e
      write_atomic rel plaintext
      record_file rel (record { hash = content_hash sv plaintext; blob = e.blob })

    unfoldable pub materialize_all : KeyTable → ℕ → Exec (Device cl) ℕ
    unfolding materialize
    materialize_all [] written = pure written
    materialize_all ((rel, e) ∷ table) written = do
      materialize rel e
      materialize_all table (suc written)

    -- `tuskd sync pull`
    unfoldable pub pull_all : Exec (Device cl) ℕ
    unfolding fetch_table materialize_all save
    pull_all = do
      fetched ← fetch_table cl s
      table ← lift (ok_or fetched (other nothing_pushed))
      saved ← gets (λ d. d.saved)
      set_state (state_or_fresh saved)
      written ← materialize_all table 0
      save
      pure written
