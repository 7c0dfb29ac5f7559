-- ===== src/Worker/State.antt =====
-- sync_state.rs, and the device as a cycle sees it: its files, its state and the world outside.
use tuskd.Prelude.{
  ℕ, suc, ap, ◌≡◌, Bool, true, Option, none, some, List, [], ◌∷◌, ◌==◌, if◌then◌else◌,
}
use tuskd.Text.{Text, Text_eq, codes}
use tuskd.Text.Number.{ℤ}
use tuskd.BTreeMap.{BTreeMap, lookup, insert, remove}
use tuskd.SyncErrors
use tuskd.SyncErrors.{SyncResult, SyncError}
use tuskd.Errors.{Result, ok, err, io, other, sync, write_failed}
use tuskd.Exec.{Exec}
use tuskd.Cloud.Crypto.{SyncExec}
use tuskd.Cloud.Service.{Cloud}

pub record FileState : Type 0 where
  pub hash : Text
  pub blob : Text

pub record SyncState : Type 0 where
  pub cursor : ℤ
  pub generation : ℤ
  pub files : BTreeMap FileState

find_blob : Text → BTreeMap FileState → Option Text
find_blob blob [] = none
find_blob blob ((rel, f) ∷ files) = if f.blob == blob then some rel else find_blob blob files

unfoldable pub rel_for_blob : Text → SyncState → Option Text
unfolding find_blob
rel_for_blob blob s = find_blob blob s.files

pub record CycleReport : Type 0 where
  pub pulled : ℕ
  pub pushed : ℕ
  pub deleted_local : ℕ
  pub deleted_remote : ℕ

abbrev pub nothing_done : CycleReport
nothing_done = record { pulled = 0; pushed = 0; deleted_local = 0; deleted_remote = 0 }

pub record CloudConfig : Type 0 where
  pub repo_id : Text
  pub device_id : Text

pub record Session : Type 0 where
  pub config : CloudConfig
  pub rmk : Text
  pub generation : ℤ

abbrev pub manifest_name : Text
manifest_name = codes "manifest"

-- `files`: the regular files of the vault by their relative paths. `writes` says which of the coming
-- changes of files the file system carries out. `saved` is state.json; `state` and `report` are the
-- values that a cycle hands from phase to phase.
pub record Device (cl : Cloud) : Type 0 where
  pub world : cl.World
  pub files : BTreeMap Text
  pub writes : List Bool
  pub saved : Option SyncState
  pub state : SyncState
  pub report : CycleReport

abbrev pub allowed : List Bool → Bool
allowed [] = true
allowed (b ∷ bs) = b

abbrev pub later : List Bool → List Bool
later [] = []
later (b ∷ bs) = bs

-- `map_err(err)`
abbrev pub sync_err : {A : Type 0} → SyncResult A → Result A
sync_err (SyncErrors.ok a) = ok a
sync_err (SyncErrors.err e) = err (other (sync e))

module _ {cl : Cloud} where
  abbrev pub outside : {A : Type 0} → SyncExec cl.World A → Exec (Device cl) A
  outside step d = (sync_err (step d.world).0, record d { world = (step d.world).1 })

  abbrev pub known : Text → Device cl → Option FileState
  known rel d = lookup rel d.state.files

  unfoldable pub record_file : Text → FileState → Exec (Device cl) (Unit {0})
  unfolding insert
  record_file rel f d =
      (ok tt, record d { state = record (d.state) { files = insert rel f d.state.files } })

  unfoldable pub forget_file : Text → Exec (Device cl) (Unit {0})
  unfolding remove
  forget_file rel d =
      (ok tt, record d { state = record (d.state) { files = remove rel d.state.files } })

  unfoldable pub change_files : (BTreeMap Text → BTreeMap Text) → Exec (Device cl) (Unit {0})
  change_files f d =
      if allowed d.writes
      then (ok tt, record d { files = f d.files; writes = later d.writes })
      else (err (io write_failed), record d { writes = later d.writes })

  -- A temporary file is written beside the file and renamed over it.
  unfoldable pub write_atomic : Text → Text → Exec (Device cl) (Unit {0})
  unfolding change_files insert
  write_atomic rel bytes = change_files (insert rel bytes)

  unfoldable pub remove_file : Text → Exec (Device cl) (Unit {0})
  unfolding change_files remove
  remove_file rel = change_files (remove rel)

  -- `sync_state::save`
  unfoldable pub save : Exec (Device cl) (Unit {0})
  save d =
      if allowed d.writes
      then (ok tt, record d { saved = some (d.state); writes = later d.writes })
      else (err (io write_failed), record d { writes = later d.writes })

  -- `report.pulled += 1` and the like.
  abbrev pub count : (CycleReport → CycleReport) → Exec (Device cl) (Unit {0})
  count f d = (ok tt, record d { report = f d.report })

  abbrev pub set_cursor : ℤ → Exec (Device cl) (Unit {0})
  set_cursor seq d = (ok tt, record d { state = record (d.state) { cursor = seq } })

  abbrev pub set_generation : ℤ → Exec (Device cl) (Unit {0})
  set_generation g d = (ok tt, record d { state = record (d.state) { generation = g } })

abbrev pub one_pulled : CycleReport → CycleReport
one_pulled r = record r { pulled = suc r.pulled }

abbrev pub one_pushed : CycleReport → CycleReport
one_pushed r = record r { pushed = suc r.pushed }

abbrev pub one_deleted_local : CycleReport → CycleReport
one_deleted_local r = record r { deleted_local = suc r.deleted_local }

abbrev pub one_deleted_remote : CycleReport → CycleReport
one_deleted_remote r = record r { deleted_remote = suc r.deleted_remote }

pub sync_err-eq-ok :
    {A : Type 0} (r : SyncResult A) (a : A) → sync_err r ≡ ok a → r ≡ SyncErrors.ok a
sync_err-eq-ok (SyncErrors.ok b) a h = (let e : b ≡ a = cc in ap SyncErrors.ok e)
sync_err-eq-ok (SyncErrors.err e) a h = cc
