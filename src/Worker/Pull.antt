-- ===== src/Worker/Pull.antt =====
-- sync_worker.rs: `pull_phase` and the keys of the devices.
pub mod Names
pub mod Files
pub mod LocalWins
pub mod Kept
pub mod Collected
pub mod Registry
pub mod Authors
use tuskd.Prelude.{
  ℕ, Bool, true, false, not, Option, none, some, List, [], ◌∷◌, ◌==◌, ℕ_eq, ◌&&◌, ◌||◌,
  if◌then◌else◌, length,
}
use tuskd.Text.{Text, Text_eq, codes}
use tuskd.Text.Number.{ℤ}
use tuskd.BTreeMap.{BTreeMap, lookup, insert, remove, into_keys}
use tuskd.SyncErrors
use tuskd.SyncErrors.{SyncResult, SyncError}
use tuskd.Errors.{
  Result, ok, err, other, sync, ok_or, map_err, unverified_op, bad_payload, payload_version,
  unknown_device, bad_pubkey, short_pubkey, invalid_pubkey, ensure,
}
use tuskd.Errors.{◌>>=◌ as then_with}
use tuskd.Exec.{Exec, pure, lift, raise, gets, ◌>>=◌, ◌>>◌}
use tuskd.Journal.{Services, content_hash}
use tuskd.Cloud.Crypto.{ObjectEntry, KeyTable, SyncExec, open_table, dek_of, decrypt_object}
use tuskd.Cloud.Service.{Cloud, CloudOp, CloudDevice, OpPayload, verify_op}
use package.tuskd.Worker.State.{
  FileState, Session, Device, manifest_name, outside, known, rel_for_blob, record_file, forget_file,
  write_atomic, remove_file, count, set_cursor, one_pulled, one_deleted_local, sync_err,
}

abbrev pub BTreeSet : Type 0
BTreeSet = BTreeMap (Unit {0})

abbrev pub is_some : {A : Type 0} → Option A → Bool
is_some none = false
is_some (some a) = true

-- The net effects of a batch of operations.
pub record Effects : Type 0 where
  pub puts : BTreeSet
  pub dels : BTreeSet
  pub manifest_changed : Bool

unfoldable pub add_puts : List Text → Effects → Effects
unfolding insert remove
add_puts [] e = e
add_puts (blob ∷ blobs) e =
    add_puts blobs (record e { dels = remove blob e.dels; puts = insert blob tt e.puts })

unfoldable pub add_dels : List Text → Effects → Effects
unfolding insert remove
add_dels [] e = e
add_dels (blob ∷ blobs) e =
    add_dels blobs (record e { puts = remove blob e.puts; dels = insert blob tt e.dels })

unfoldable pub is_clean : (Text → Text) → Option Text → Option FileState → Bool
is_clean hash none f = true
is_clean hash (some bytes) (some f) = hash bytes == f.hash
is_clean hash (some bytes) none = false

abbrev pub has_hash : (Text → Text) → Option Text → Text → Bool
has_hash hash none h = false
has_hash hash (some bytes) h = hash bytes == h

-- The paths by the names of their blobs.
unfoldable pub by_blob : KeyTable → BTreeMap Text → BTreeMap Text
unfolding insert
by_blob [] m = m
by_blob ((rel, e) ∷ table) m = by_blob table (insert e.blob rel m)

abbrev pub is_empty : BTreeSet → Bool
is_empty [] = true
is_empty (p ∷ s) = false

abbrev pub table_or_empty : Option KeyTable → KeyTable
table_or_empty none = []
table_or_empty (some table) = table

-- `DeviceKeys`
pub record DeviceKeys (cl : Cloud) : Type 0 where
  pub keys : BTreeMap cl.VerifyingKey
  pub fetched : Bool

module _ (cl : Cloud) where
  unfoldable pub key_of : CloudDevice → Result cl.VerifyingKey
  key_of d = then_with (ok_or (cl.decode_base64 d.ed25519_pubkey) (other bad_pubkey)) λ raw.
      then_with (ensure (length raw == 32) (other short_pubkey))
        λ _. ok_or (cl.key_from_bytes raw) (other invalid_pubkey)

  unfoldable pub add_devices :
      List CloudDevice → BTreeMap cl.VerifyingKey → Result (BTreeMap cl.VerifyingKey)
  unfolding key_of insert
  add_devices [] keys = ok keys
  add_devices (d ∷ ds) keys =
      then_with (key_of d) λ key. add_devices ds (insert d.device_id key keys)

  unfoldable pub refresh : DeviceKeys cl → Exec (Device cl) (DeviceKeys cl)
  unfolding add_devices
  refresh k = do
    devices ← outside cl.list_devices
    keys ← lift (add_devices devices k.keys)
    pure (record { keys = keys; fetched = true })

  unfoldable pub get_key : Text → DeviceKeys cl → Exec (Device cl) (cl.VerifyingKey × DeviceKeys cl)
  unfolding refresh lookup
  get_key id k = do
    k ← if not (is_some (lookup id k.keys)) && not k.fetched then refresh k else pure k
    k ← if not (is_some (lookup id k.keys)) then refresh k else pure k
    key ← lift (ok_or (lookup id k.keys) (other (unknown_device id)))
    pure (key, k)

  abbrev pub read_table :
      Session → Device cl → SyncResult Text × cl.World → Result (Option KeyTable) × Device cl
  read_table s d (SyncErrors.ok sealed, w) = (
    then_with (sync_err (open_table cl.ciphers sealed s.rmk s.config.repo_id)) (λ t. ok (some t)),
    record d { world = w },
  )
  read_table s d (SyncErrors.err (SyncError.not_found n), w) = (ok none, record d { world = w })
  read_table s d (SyncErrors.err e, w) = (err (other (sync e)), record d { world = w })

  unfoldable pub fetch_table : Session → Exec (Device cl) (Option KeyTable)
  unfolding open_table
  fetch_table s d = read_table s d (cl.storage.get manifest_name d.world)

  -- One operation of another device: who wrote it, and what it names.
  unfoldable pub apply_foreign :
      Session → CloudOp → DeviceKeys cl → Effects → Exec (Device cl) (DeviceKeys cl × Effects)
  unfolding get_key verify_op add_puts add_dels
  apply_foreign s op k e = do
    (key, k) ← get_key op.device_id k
    lift (
        map_err (other (unverified_op op.seq op.device_id))
          (sync_err (verify_op cl key s.config.repo_id op.payload op.signature)))
    payload ← lift (ok_or (cl.payload_from_slice op.payload) (other (bad_payload op.seq)))
    lift (ensure (payload.v == 1) (other (payload_version op.seq payload.v)))
    let e = record e { manifest_changed = e.manifest_changed || payload.manifest }
    pure (k, add_dels payload.del (add_puts payload.put e))

  -- The device's own operations are in its state already.
  unfoldable pub apply_op :
      Session → CloudOp → DeviceKeys cl → Effects → Exec (Device cl) (DeviceKeys cl × Effects)
  unfolding apply_foreign
  apply_op s op k e = do
    set_cursor op.seq
    if op.device_id == s.config.device_id then pure (k, e) else apply_foreign s op k e

  unfoldable pub collect :
      Session → List CloudOp → DeviceKeys cl → Effects → Exec (Device cl) Effects
  unfolding apply_op
  collect s [] k e = pure e
  collect s (op ∷ ops) k e = do (k, e) ← apply_op s op k e; collect s ops k e

  module _ (sv : Services) where
    unfoldable pub take_remote : Text → FileState → Text → Exec (Device cl) (Unit {0})
    unfolding write_atomic record_file
    take_remote rel f plaintext = do write_atomic rel plaintext; record_file rel f; count one_pulled

    abbrev pub choose : Bool → Bool → Text → FileState → Text → Exec (Device cl) (Unit {0})
    choose true clean rel f plaintext = record_file rel f
    choose false true rel f plaintext = take_remote rel f plaintext
    choose false false rel f plaintext = pure tt

    -- A file whose blob was fetched: recorded where both sides agree, written where the local copy is
    -- as it was last synced, and kept otherwise.
    unfoldable pub settle : Text → Text → Text → Exec (Device cl) (Unit {0})
    unfolding content_hash is_clean lookup record_file take_remote
    settle rel blob plaintext = do
      let hash = content_hash sv plaintext
      local ← gets (λ d. lookup rel d.files)
      f ← gets (known rel)
      choose (has_hash (content_hash sv) local hash) (is_clean (content_hash sv) local f) rel
          (record { hash = hash; blob = blob }) plaintext

    abbrev pub fetch_entry :
        Session → Text → Text → Option ObjectEntry → Exec (Device cl) (Unit {0})
    fetch_entry s blob rel none = pure tt
    fetch_entry s blob rel (some entry) = do
      bytes ← outside (cl.storage.get blob)
      dek ← lift (sync_err (dek_of cl.ciphers entry))
      plaintext ← lift (sync_err (decrypt_object cl.ciphers dek s.config.repo_id rel bytes))
      settle rel blob plaintext

    abbrev pub put_rel : Session → KeyTable → Text → Option Text → Exec (Device cl) (Unit {0})
    put_rel s table blob none = pure tt
    put_rel s table blob (some rel) = fetch_entry s blob rel (lookup rel table)

    unfoldable pub apply_puts : Session → KeyTable → List Text → Exec (Device cl) (Unit {0})
    unfolding by_blob dek_of decrypt_object settle lookup
    apply_puts s table [] = pure tt
    apply_puts s table (blob ∷ blobs) = do
      put_rel s table blob (lookup blob (by_blob table []))
      apply_puts s table blobs

    abbrev pub drop_clean : Bool → Text → Exec (Device cl) (Unit {0})
    drop_clean true rel = do remove_file rel; count one_deleted_local
    drop_clean false rel = pure tt

    -- A file that another device deleted: kept, and forgotten, where the local copy has changed.
    unfoldable pub drop_local : Text → Exec (Device cl) (Unit {0})
    unfolding is_clean lookup remove_file forget_file content_hash
    drop_local rel = do
      local ← gets (λ d. lookup rel d.files)
      f ← gets (known rel)
      drop_clean (is_clean (content_hash sv) local f && is_some local) rel
      forget_file rel

    abbrev pub del_rel : KeyTable → Option Text → Exec (Device cl) (Unit {0})
    del_rel table none = pure tt
    del_rel table (some rel) = if is_some (lookup rel table) then pure tt else drop_local rel

    unfoldable pub apply_dels : KeyTable → List Text → Exec (Device cl) (Unit {0})
    unfolding lookup drop_local rel_for_blob
    apply_dels table [] = pure tt
    apply_dels table (blob ∷ blobs) = do
      rel ← gets (λ d. rel_for_blob blob d.state)
      del_rel table rel
      apply_dels table blobs

    -- Files on the disk that a foreign manifest dropped without a deletion.
    unfoldable pub clobbered : KeyTable → BTreeSet → BTreeMap Text → BTreeMap FileState → List Text
    unfolding lookup
    clobbered table dels disk [] = []
    clobbered table dels disk ((rel, f) ∷ files) =
        let rest = clobbered table dels disk files in
        if not (is_some (lookup rel table))
          && not (is_some (lookup f.blob dels))
          && is_some (lookup rel disk)
        then rel ∷ rest
        else rest

    unfoldable pub forget_all : List Text → Exec (Device cl) (Unit {0})
    unfolding forget_file
    forget_all [] = pure tt
    forget_all (rel ∷ rels) = do forget_file rel; forget_all rels

    unfoldable pub apply_effects : Session → Effects → Exec (Device cl) (Option KeyTable)
    unfolding fetch_table apply_puts apply_dels clobbered forget_all
    apply_effects s e = do
      fetched ← fetch_table s
      let table = table_or_empty fetched
      apply_puts s table (into_keys e.puts)
      apply_dels table (into_keys e.dels)
      lost ← gets (λ d. clobbered table e.dels d.files d.state.files)
      if e.manifest_changed then forget_all lost else pure tt
      pure (some table)

    abbrev pub is_nothing : Effects → Bool
    is_nothing e = is_empty e.puts && is_empty e.dels && not e.manifest_changed

    abbrev pub pull_ops : Session → List CloudOp → Exec (Device cl) (Option KeyTable)
    pull_ops s [] = pure none
    pull_ops s (op ∷ ops) = do
      e ←
          collect s (op ∷ ops) (record { keys = []; fetched = false })
            (record { puts = []; dels = []; manifest_changed = false })
      if is_nothing e then pure none else apply_effects s e

    unfoldable pub pull_phase : Session → Exec (Device cl) (Option KeyTable)
    unfolding collect apply_effects
    pull_phase s = do
      cursor ← gets (λ d. d.state.cursor)
      ops ← outside (cl.ops_since cursor none)
      pull_ops s ops
