-- ===== src/Worker/Push.antt =====
-- sync_worker.rs: `push_phase`.
pub mod Hashes
pub mod Diff
pub mod InSync
pub mod Again
use tuskd.Prelude.{
  ℕ, Bool, true, false, not, Option, none, some, List, [], ◌∷◌, ◌++◌, ◌==◌, ◌&&◌, ◌||◌,
  if◌then◌else◌,
}
use tuskd.Text.{Text, Text_eq}
use tuskd.Text.Number.{ℤ, pos, ℤ_eq}
use tuskd.BTreeMap.{BTreeMap, lookup, insert, remove}
use tuskd.SyncErrors
use tuskd.SyncErrors.{SyncResult}
use tuskd.Errors.{Result, ok, err, other, ok_or, json, lost_entry}
use tuskd.Exec.{Exec, pure, lift, gets, ◌>>=◌, ◌>>◌}
use tuskd.Journal.{Services, content_hash}
use tuskd.Cloud.Crypto.{
  ObjectEntry, KeyTable, entry, dek_of, encrypt_object, decrypt_object, seal, blob_name,
}
use tuskd.Cloud.Service.{Cloud}
use package.tuskd.Worker.State.{
  FileState, Session, Device, manifest_name, outside, known, record_file, forget_file, count,
  one_pushed, one_deleted_remote, sync_err,
}
use package.tuskd.Worker.Scan.{vault_files}
use package.tuskd.Worker.Pull.{is_some, table_or_empty, fetch_table}

-- The table of keys, whether its set of files changed, and the names that the operation will announce.
pub record Batch : Type 0 where
  pub table : KeyTable
  pub manifest_dirty : Bool
  pub put_names : List Text
  pub del_names : List Text

abbrev pub no_batch : KeyTable → Batch
no_batch table = record { table = table; manifest_dirty = false; put_names = []; del_names = [] }

abbrev pub is_nil : {A : Type 0} → List A → Bool
is_nil [] = true
is_nil (a ∷ l) = false

abbrev pub has_changed : (Text → Text) → Text → Option FileState → Bool
has_changed hash bytes none = true
has_changed hash bytes (some f) = not (hash bytes == f.hash)

unfoldable pub changed : (Text → Text) → BTreeMap FileState → BTreeMap Text → List (Text × Text)
unfolding lookup
changed hash files [] = []
changed hash files ((rel, bytes) ∷ disk) =
    let rest = changed hash files disk in
    if has_changed hash bytes (lookup rel files) then (rel, bytes) ∷ rest else rest

unfoldable pub deleted : BTreeMap Text → BTreeMap FileState → List Text
unfolding lookup
deleted disk [] = []
deleted disk ((rel, f) ∷ files) =
    let rest = deleted disk files in if is_some (lookup rel disk) then rest else rel ∷ rest

abbrev pub is_stale : SyncResult Text → ObjectEntry → Bool
is_stale (SyncErrors.ok expected) e = not (expected == e.blob)
is_stale (SyncErrors.err _) e = false

abbrev pub moved : Text → FileState → FileState
moved blob f = record f { blob = blob }

module _ (cl : Cloud) (sv : Services) (s : Session) where
  -- Into the blob of the file, which is a new one where the table has none.
  unfoldable pub upload : Text → Text → Batch → Exec (Device cl) Batch
  unfolding entry dek_of encrypt_object record_file content_hash lookup
  upload rel bytes b = do
    let dirty = b.manifest_dirty || not (is_some (lookup rel b.table))
    (e, table) ← outside (entry cl.ciphers s.rmk rel b.table)
    dek ← lift (sync_err (dek_of cl.ciphers e))
    blob ← outside (encrypt_object cl.ciphers dek s.config.repo_id rel bytes)
    outside (cl.storage.put e.blob blob)
    record_file rel (record { hash = content_hash sv bytes; blob = e.blob })
    count one_pushed
    pure
        (record b { table = table; manifest_dirty = dirty; put_names = b.put_names ++ e.blob ∷ [] })

  unfoldable pub upload_all : List (Text × Text) → Batch → Exec (Device cl) Batch
  unfolding upload
  upload_all [] b = pure b
  upload_all ((rel, bytes) ∷ files) b = do b ← upload rel bytes b; upload_all files b

  abbrev pub delete_entry : Text → Option ObjectEntry → Batch → Exec (Device cl) Batch
  delete_entry rel none b = pure b
  delete_entry rel (some e) b = do
    outside (cl.storage.delete e.blob)
    count one_deleted_remote
    pure (record b {
      table = remove rel b.table;
      manifest_dirty = true;
      del_names = b.del_names ++ e.blob ∷ [];
    })

  unfoldable pub tombstone : Text → Batch → Exec (Device cl) Batch
  unfolding lookup remove forget_file
  tombstone rel b = do b ← delete_entry rel (lookup rel b.table) b; forget_file rel; pure b

  unfoldable pub tombstone_all : List Text → Batch → Exec (Device cl) Batch
  unfolding tombstone
  tombstone_all [] b = pure b
  tombstone_all (rel ∷ rels) b = do b ← tombstone rel b; tombstone_all rels b

  -- The entries whose name is not the one that the current master key gives.
  unfoldable pub stale : KeyTable → List (Text × Text)
  unfolding blob_name
  stale [] = []
  stale ((rel, e) ∷ table) =
      let rest = stale table in
      if is_stale (blob_name cl.ciphers s.rmk rel) e then (rel, e.blob) ∷ rest else rest

  abbrev pub rename_known : Text → Text → Option FileState → Exec (Device cl) (Unit {0})
  rename_known rel blob none = pure tt
  rename_known rel blob (some f) = record_file rel (moved blob f)

  -- Encrypted again under a new key at its new name, from the old blob.
  unfoldable pub rekey : Text → Text → Batch → Exec (Device cl) Batch
  unfolding lookup remove entry dek_of encrypt_object decrypt_object record_file
  rekey rel old_name b = do
    old_entry ← lift (ok_or (lookup rel b.table) (other (lost_entry rel)))
    blob ← outside (cl.storage.get old_name)
    old_dek ← lift (sync_err (dek_of cl.ciphers old_entry))
    plaintext ← lift (sync_err (decrypt_object cl.ciphers old_dek s.config.repo_id rel blob))
    (e, table) ← outside (entry cl.ciphers s.rmk rel (remove rel b.table))
    dek ← lift (sync_err (dek_of cl.ciphers e))
    sealed ← outside (encrypt_object cl.ciphers dek s.config.repo_id rel plaintext)
    outside (cl.storage.put e.blob sealed)
    outside (cl.storage.delete old_name)
    f ← gets (known rel)
    rename_known rel e.blob f
    count one_pushed
    pure (record {
      table = table;
      manifest_dirty = true;
      put_names = b.put_names ++ e.blob ∷ [];
      del_names = b.del_names ++ old_name ∷ [];
    })

  unfoldable pub rekey_all : List (Text × Text) → Batch → Exec (Device cl) Batch
  unfolding rekey
  rekey_all [] b = pure b
  rekey_all ((rel, old_name) ∷ rels) b = do b ← rekey rel old_name b; rekey_all rels b

  unfoldable pub put_manifest : KeyTable → Exec (Device cl) (Unit {0})
  unfolding seal
  put_manifest table = do
    sealed ← outside (seal cl.ciphers table s.rmk s.config.repo_id)
    outside (cl.storage.put manifest_name sealed)

  unfoldable pub announce : Batch → Exec (Device cl) (Unit {0})
  announce b = do
    payload ← lift (
        ok_or
          (cl.payload_to_vec
            (record { v = 1; put = b.put_names; del = b.del_names; manifest = b.manifest_dirty }))
          json)
    outside (cl.append_op payload)
    pure tt

  abbrev pub table_for : Option KeyTable → Exec (Device cl) KeyTable
  table_for (some table) = pure table
  table_for none = do t ← fetch_table cl s; pure (table_or_empty t)

  abbrev pub rekey_needed : ℤ → Bool
  rekey_needed g = not (g == s.generation) && not (g == pos 0)

  -- The uploads, the deletions, the re-keys, the manifest and the operation.
  unfoldable pub push_changes :
      List (Text × Text) → List Text → Bool → Option KeyTable → Exec (Device cl) (Option KeyTable)
  unfolding fetch_table upload_all tombstone_all stale rekey_all put_manifest announce
  push_changes files gone rekeyed cache = do
    table ← table_for cache
    b ← upload_all files (no_batch table)
    b ← tombstone_all gone b
    b ← if rekeyed then rekey_all (stale b.table) b else pure b
    if b.manifest_dirty then put_manifest b.table else pure tt
    if not (is_nil b.put_names) || not (is_nil b.del_names) then announce b else pure tt
    pure (some b.table)

  unfoldable pub push_phase : Option KeyTable → Exec (Device cl) (Option KeyTable)
  unfolding vault_files changed deleted push_changes content_hash
  push_phase cache = do
    disk ← gets (λ d. vault_files d.files)
    files ← gets (λ d. changed (content_hash sv) d.state.files disk)
    gone ← gets (λ d. deleted disk d.state.files)
    g ← gets (λ d. d.state.generation)
    if is_nil files && is_nil gone && not (rekey_needed g)
        then pure cache
        else push_changes files gone (rekey_needed g) cache
