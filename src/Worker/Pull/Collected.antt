-- ===== src/Worker/Pull/Collected.antt =====
-- sync_worker.rs: what `pull_phase` collects, and that no local change is lost to it.
use tuskd.Prelude.{
  ℕ_eq, Bool, true, false, Option, none, some, List, [], ◌∷◌, ◌≡◌, refl, inl, ◌==◌, if◌then◌else◌,
}
use tuskd.Text.{Text, Text_eq}
use tuskd.BTreeMap.{BTreeMap, lookup}
use tuskd.BTreeMap.Order.{IsSorted}
use tuskd.SyncErrors
use tuskd.SyncErrors.{SyncResult, SyncError, >>=-eq-ok, ok_or-eq-ok}
use tuskd.Errors.{
  Result, ok, err, and_then, map_err, ok_or, ensure, other, unverified_op, bad_payload,
  payload_version,
}
use tuskd.Exec.{lift, pure}
use tuskd.Exec.Keeps.{lift-Keeps, gets-Keeps}
use tuskd.Exec.Triples.{After, Triple, >>=-Triple, >>-Triple, Keeps-Triple, pure-Triple}
use tuskd.Journal.{Services, content_hash}
use tuskd.Cloud.Crypto.{KeyTable, open_table}
use tuskd.Cloud.Crypto.Opened.{TableLaws, open_table-IsSorted}
use tuskd.Cloud.Service.{Cloud, CloudOp, verify_op}
use package.tuskd.Worker.State.{FileState, Session, Device, known, manifest_name, sync_err}
use package.tuskd.Worker.Pull.{
  Effects, DeviceKeys, is_clean, table_or_empty, read_table, fetch_table, apply_foreign, apply_op,
  collect, apply_effects, pull_ops, pull_phase, is_nothing,
}
use package.tuskd.Worker.Pull.Names.{AreSorted, add_puts-AreSorted, add_dels-AreSorted}
use package.tuskd.Worker.Pull.Files.{get_key-Keeps, cursor-Keeps, outside-Keeps}
use package.tuskd.Worker.Pull.Kept.{effects_with-There}

module _ (cl : Cloud) (Q : BTreeMap Text → BTreeMap FileState → Type 0) (R : Device cl → Type 0)
    (weaken : (d : Device cl) → Q d.files d.state.files → R d) where
  abbrev OfFiles : Device cl → Type 0
  OfFiles d = Q d.files d.state.files

  abbrev WithSorted : DeviceKeys cl × Effects → Device cl → Type 0
  WithSorted next d = OfFiles d × AreSorted next.1

  steady : {A : Type 0} (r : Result A) → Triple OfFiles (lift r) (λ _. OfFiles) R
  steady r = Keeps-Triple (lift-Keeps r) weaken

  apply_foreign-Sorted :
      (s : Session) (op : CloudOp) (k : DeviceKeys cl) (e : Effects)
      → AreSorted e
      → Triple OfFiles (apply_foreign cl s op k e) WithSorted R
  unfolding apply_foreign
  apply_foreign-Sorted s op k e o =
      >>=-Triple (Keeps-Triple (get_key-Keeps cl Q op.device_id k) weaken) λ next.
        >>-Triple
          (steady (
            map_err (other (unverified_op op.seq op.device_id))
              (sync_err (verify_op cl next.0 s.config.repo_id op.payload op.signature))))
          (>>=-Triple
            (steady (ok_or (cl.payload_from_slice op.payload) (other (bad_payload op.seq))))
            λ payload.
              >>-Triple
                (steady (ensure (payload.v == 1) (other (payload_version op.seq payload.v))))
                (pure-Triple _ (λ d h.
                  (h, add_dels-AreSorted payload.del _ (add_puts-AreSorted payload.put _ o)))))

  apply_op-Sorted :
      (s : Session) (op : CloudOp) (k : DeviceKeys cl) (e : Effects)
      → AreSorted e
      → Triple OfFiles (apply_op cl s op k e) WithSorted R
  unfolding apply_op
  apply_op-Sorted s op k e o =
      >>-Triple (Keeps-Triple (cursor-Keeps cl Q op.seq) weaken)
        (go (op.device_id == s.config.device_id))
    where
      go :
          (own : Bool)
          → Triple OfFiles (if own then pure (k, e) else apply_foreign cl s op k e) WithSorted R
      go true = pure-Triple (k, e) (λ d h. (h, o))
      go false = apply_foreign-Sorted s op k e o

  collect-Sorted :
      (s : Session) (ops : List CloudOp) (k : DeviceKeys cl) (e : Effects)
      → AreSorted e
      → Triple OfFiles (collect cl s ops k e) (λ e d. OfFiles d × AreSorted e) R
  unfolding collect
  collect-Sorted s [] k e o = pure-Triple e (λ d h. (h, o))
  collect-Sorted s (op ∷ ops) k e o =
      >>=-Triple (apply_op-Sorted s op k e o)
        λ next. record { at = λ d h. (collect-Sorted s ops next.0 next.1 h.1).at d h.0 }

module _ (cl : Cloud) (laws : TableLaws cl.ciphers) (sv : Services) (s : Session)
    (rel bytes : Text) where
  abbrev Changed : Device cl → Type 0
  Changed d =
      (lookup rel d.files ≡ some bytes)
      × (is_clean (content_hash sv) (some bytes) (known rel d) ≡ false)

  abbrev There : Device cl → Type 0
  There d = lookup rel d.files ≡ some bytes

  abbrev FilesChanged : BTreeMap Text → BTreeMap FileState → Type 0
  FilesChanged disk files =
      (lookup rel disk ≡ some bytes)
      × (is_clean (content_hash sv) (some bytes) (lookup rel files) ≡ false)

  opened :
      (d : Device cl) (w : cl.World) (r : SyncResult KeyTable)
      → Changed d
      → ((table : KeyTable) → r ≡ SyncErrors.ok table → IsSorted table)
      → After
          (λ o d. Changed d × IsSorted (table_or_empty o))
          There
          (and_then (λ t. ok (some t)) (sync_err r), record d { world = w })
  opened d w (SyncErrors.ok table) h k = (h, k table refl)
  opened d w (SyncErrors.err e) h k = h.0

  read_table-Sorted :
      (d : Device cl) (r : SyncResult Text × cl.World)
      → Changed d
      → After (λ o d. Changed d × IsSorted (table_or_empty o)) There (read_table cl s d r)
  read_table-Sorted d (SyncErrors.ok sealed, w) h =
      opened d w (open_table cl.ciphers sealed s.rmk s.config.repo_id) h
        (open_table-IsSorted cl.ciphers laws sealed s.rmk s.config.repo_id)
  read_table-Sorted d (SyncErrors.err (SyncError.not_found n), w) h = (h, tt)
  read_table-Sorted d (SyncErrors.err e, w) h = h.0

  fetch_table-Sorted :
      Triple Changed (fetch_table cl s) (λ o d. Changed d × IsSorted (table_or_empty o)) There
  unfolding fetch_table
  fetch_table-Sorted = record {
    at = λ d h. read_table-Sorted d (cl.storage.get manifest_name d.world) h;
  }

  apply_effects-There :
      (e : Effects) → AreSorted e → Triple Changed (apply_effects cl sv s e) (λ _. There) There
  unfolding apply_effects
  apply_effects-There e o = >>=-Triple fetch_table-Sorted λ t. record {
    at = λ d h.
        (effects_with-There cl sv s (table_or_empty t) h.1 rel bytes e o.0).at d (h.0.0, inl h.0.1);
  }

  pull_ops-There : (ops : List CloudOp) → Triple Changed (pull_ops cl sv s ops) (λ _. There) There
  pull_ops-There [] = pure-Triple none (λ d h. h.0)
  pull_ops-There (op ∷ ops) =
      >>=-Triple (collect-Sorted cl FilesChanged There (λ d h. h.0) s (op ∷ ops) _ _ (tt, tt))
        λ e. record { at = λ d h. (branch e (is_nothing cl sv e) h.1).at d h.0 }
    where
      branch :
          (e : Effects) (none_left : Bool)
          → AreSorted e
          → Triple Changed
              (if none_left then pure none else apply_effects cl sv s e)
              (λ _. There)
              There
      branch e true o = pure-Triple none (λ d h. h.0)
      branch e false o = apply_effects-There e o

  pull-There : Triple Changed (pull_phase cl sv s) (λ _. There) There
  unfolding pull_phase
  pull-There = >>=-Triple (Keeps-Triple (gets-Keeps (λ d. d.state.cursor)) (λ d h. h.0)) λ cursor.
      >>=-Triple
        (Keeps-Triple (outside-Keeps cl FilesChanged (cl.ops_since cursor none)) (λ d h. h.0))
        λ ops. pull_ops-There ops

  -- A file that has changed since it was last synced is still there, with its content, after a pull,
  -- whether the pull returns or fails and whatever the service answers.
  pub pull_phase-There :
      (d : Device cl)
      → lookup rel d.files ≡ some bytes
      → is_clean (content_hash sv) (some bytes) (known rel d) ≡ false
      → lookup rel (pull_phase cl sv s d).1.files ≡ some bytes
  pull_phase-There d k c = both (pull_phase cl sv s d) ((pull-There).at d (k, c))
    where
      both : (r : Result (Option KeyTable) × Device cl) → After (λ _. There) There r → There r.1
      both (ok o, d) h = h
      both (err e, d) h = h
