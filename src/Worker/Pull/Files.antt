-- ===== src/Worker/Pull/Files.antt =====
-- sync_worker.rs: collecting the operations and fetching the table leave the files and what is known of
-- them alone.
use tuskd.Prelude.{List, [], ◌∷◌}
use tuskd.Text.{Text}
use tuskd.Text.Number.{ℤ}
use tuskd.BTreeMap.{BTreeMap}
use tuskd.SyncErrors
use tuskd.SyncErrors.{SyncResult, SyncError}
use tuskd.Exec.Keeps.{Keeps, >>=-Keeps, pure-Keeps, lift-Keeps, keeps_rules}
use tuskd.Cloud.Crypto.{SyncExec}
use tuskd.Cloud.Service.{Cloud, CloudOp}
use package.tuskd.Worker.State.{FileState, Session, Device, outside, manifest_name, set_cursor}
use package.tuskd.Worker.Pull.{
  Effects, DeviceKeys, refresh, get_key, read_table, fetch_table, apply_foreign, apply_op, collect,
}

module _ (cl : Cloud) (Q : BTreeMap Text → BTreeMap FileState → Type 0) where
  abbrev OfFiles : Device cl → Type 0
  OfFiles d = Q d.files d.state.files

  pub outside-Keeps : {A : Type 0} (step : SyncExec cl.World A) → Keeps OfFiles (outside step)
  outside-Keeps step = record { at = λ d h. h }

  refresh-Keeps : (k : DeviceKeys cl) → Keeps OfFiles (refresh cl k)
  unfolding refresh
  refresh-Keeps k =
      >>=-Keeps (outside-Keeps cl.list_devices)
        λ devices. >>=-Keeps (lift-Keeps _) λ keys. pure-Keeps _

  pub get_key-Keeps : (id : Text) (k : DeviceKeys cl) → Keeps OfFiles (get_key cl id k)
  unfolding get_key
  get_key-Keeps id k = search (keeps_rules, refresh-Keeps)

  apply_foreign-Keeps :
      (s : Session) (op : CloudOp) (k : DeviceKeys cl) (e : Effects)
      → Keeps OfFiles (apply_foreign cl s op k e)
  unfolding apply_foreign
  apply_foreign-Keeps s op k e = search (keeps_rules, get_key-Keeps)

  pub cursor-Keeps : (seq : ℤ) → Keeps OfFiles (set_cursor {cl = cl} seq)
  cursor-Keeps seq = record { at = λ d h. h }

  apply_op-Keeps :
      (s : Session) (op : CloudOp) (k : DeviceKeys cl) (e : Effects)
      → Keeps OfFiles (apply_op cl s op k e)
  unfolding apply_op
  apply_op-Keeps s op k e = search (keeps_rules, cursor-Keeps, apply_foreign-Keeps)

  pub collect-Keeps :
      (s : Session) (ops : List CloudOp) (k : DeviceKeys cl) (e : Effects)
      → Keeps OfFiles (collect cl s ops k e)
  unfolding collect
  collect-Keeps s [] k e = pure-Keeps e
  collect-Keeps s (op ∷ ops) k e =
      >>=-Keeps (apply_op-Keeps s op k e) λ next. collect-Keeps s ops next.0 next.1

  read_table-Keeps :
      (s : Session) (d : Device cl) (r : SyncResult Text × cl.World)
      → OfFiles d
      → OfFiles (read_table cl s d r).1
  read_table-Keeps s d (SyncErrors.ok sealed, w) h = h
  read_table-Keeps s d (SyncErrors.err (SyncError.not_found n), w) h = h
  read_table-Keeps s d (SyncErrors.err e, w) h = h

  pub fetch_table-Keeps : (s : Session) → Keeps OfFiles (fetch_table cl s)
  unfolding fetch_table
  fetch_table-Keeps s = record {
    at = λ d h. read_table-Keeps s d (cl.storage.get manifest_name d.world) h;
  }
