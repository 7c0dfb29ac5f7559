-- ===== src/RepoKey.antt =====
-- sync_cloud.rs: the master key of a repository on one machine, and who else is given it.
pub mod Local
pub mod Calls
pub mod Current
pub mod Size
pub mod Steady
pub mod Revoke
pub mod Approve
use tuskd.Prelude.{
  ℕ, Bool, true, false, not, Option, none, some, List, [], ◌∷◌, ◌==◌, ◌&&◌, ◌||◌, ℕ_eq, length,
  find, ltb, leb, if◌then◌else◌,
}
use tuskd.Text.{Text, Text_eq, codes, trim}
use tuskd.Text.Number.{ℤ, pos, negsuc, parse_i64, show_i64}
use tuskd.Keyring.{Crypto}
use tuskd.SyncErrors
use tuskd.SyncErrors.{SyncResult, SyncError}
use tuskd.Errors.{
  Message, Result, ok, err, io, other, json, sync, ok_or, ensure, write_failed, not_approved,
  bad_wrap, stale_wrap, already_revoked, pem_encode, no_device_key, no_such_device,
  fingerprint_mismatch, not_pending, bad_pubkey, short_pubkey, invalid_pubkey,
}
use tuskd.Errors.{◌>>=◌ as then_with}
use tuskd.Exec.{Exec, pure, lift, gets, ◌>>=◌, ◌>>◌}
use tuskd.Cloud.Crypto.{SyncExec, KeyTable, open_table, seal}
use tuskd.Cloud.Service.{Cloud}
use tuskd.Cloud.SecretKey.{to_otsk, from_otsk}
use tuskd.Cloud.Wrap.{DeviceWrap, Curve, wrap_rmk_for_device, unwrap_rmk_for_device}
use tuskd.Worker.State.{CloudConfig, manifest_name, sync_err, allowed, later}

-- `WireDevice` of cloud.rs
pub record WireDevice : Type 0 where
  pub device_id : Text
  pub name : Text
  pub status : Text
  pub ed25519_pubkey : Text
  pub x25519_pubkey : Text
  pub fingerprint : Text

-- What key management asks of the service, and the crates' keys.
pub record Plane (cl : Cloud) : Type 1 where
  pub curve : Curve cl.World
  pub list_wire : SyncExec cl.World (List WireDevice)
  pub fetch_wrap : SyncExec cl.World (Text × ℤ)
  pub revoke_device : Text → SyncExec cl.World ℤ
  pub approve_device : Text → Text → ℤ → SyncExec cl.World (Unit {0})
  pub push_wrap : Text → Text → ℤ → SyncExec cl.World (Unit {0})
  pub to_public_key_pem : cl.VerifyingKey → Option Text
  pub wrap_to_vec : DeviceWrap → Option Text
  pub wrap_from_slice : Text → Option DeviceWrap

-- The files below `.tusk/sync` that hold keys; `writes` says which writes the file system carries out.
pub record Machine (cl : Cloud) : Type 0 where
  pub world : cl.World
  pub rmk_file : Option Text
  pub gen_file : Option Text
  pub device_pem : Option Text
  pub writes : List Bool

abbrev pub RmkAndGen : Type 0
RmkAndGen = List ℕ × ℤ

-- `parse::<i32>()`
abbrev pub is_i32 : ℤ → Bool
is_i32 (pos n) = ltb n 2147483648
is_i32 (negsuc n) = ltb n 2147483648

abbrev pub if_i32 : Option ℤ → Option ℤ
if_i32 none = none
if_i32 (some z) = if is_i32 z then some z else none

abbrev pub or_one : Option ℤ → ℤ
or_one none = pos 1
or_one (some g) = g

unfoldable pub gen_of : Option Text → ℤ
unfolding parse_i64 trim
gen_of none = pos 1
gen_of (some text) = or_one (if_i32 (parse_i64 (trim text)))

abbrev pub is_ok : {A : Type 0} → SyncResult A → Bool
is_ok (SyncErrors.ok a) = true
is_ok (SyncErrors.err e) = false

abbrev pub with_gen : Option Text → SyncResult (List ℕ) → Option RmkAndGen
with_gen gen (SyncErrors.ok rmk) = some (rmk, gen_of gen)
with_gen gen (SyncErrors.err e) = none

abbrev pub local_of : Crypto → Option Text → Option Text → Option RmkAndGen
local_of c none gen = none
local_of c (some raw) gen = with_gen gen (from_otsk c (trim raw))

abbrev pub sealed_or_none : SyncResult Text → Result (Option Text)
sealed_or_none (SyncErrors.ok sealed) = ok (some sealed)
sealed_or_none (SyncErrors.err (SyncError.not_found n)) = ok none
sealed_or_none (SyncErrors.err e) = err (other (sync e))

-- An HTTP status that has a message of its own.
abbrev pub status_as : {A : Type 0} → ℕ → Message → SyncResult A → Result A
status_as code message (SyncErrors.ok a) = ok a
status_as code message (SyncErrors.err (SyncError.http status url)) =
    if status == code then err (other message) else err (other (sync (SyncError.http status url)))
status_as code message (SyncErrors.err e) = err (other (sync e))

module _ {cl : Cloud} where
  abbrev pub outside : {A : Type 0} → SyncExec cl.World A → Exec (Machine cl) A
  outside step m = (sync_err (step m.world).0, record m { world = (step m.world).1 })

  unfoldable pub load_local_rmk : Machine cl → Option RmkAndGen
  unfolding from_otsk trim gen_of
  load_local_rmk m = local_of cl.ciphers.hex m.rmk_file m.gen_file

  -- `write_private`; setting the permissions of the file, which follows, does not fail here.
  unfoldable pub write_private : (Machine cl → Machine cl) → Exec (Machine cl) (Unit {0})
  write_private f m =
      if allowed m.writes
      then (ok tt, record (f m) { writes = later m.writes })
      else (err (io write_failed), record m { writes = later m.writes })

  unfoldable pub store_rmk : List ℕ → ℤ → Exec (Machine cl) (Unit {0})
  unfolding write_private to_otsk show_i64
  store_rmk rmk generation = do
    write_private (λ m. record m { rmk_file = some (to_otsk cl.ciphers.hex rmk) })
    write_private (λ m. record m { gen_file = some (show_i64 generation) })

  unfoldable pub get_manifest : Exec (Machine cl) (Option Text)
  get_manifest m = (
    sealed_or_none (cl.storage.get manifest_name m.world).0,
    record m { world = (cl.storage.get manifest_name m.world).1 },
  )

  module _ (pl : Plane cl) (config : CloudConfig) where
    unfoldable pub rmk_from_own_wrap : Exec (Machine cl) RmkAndGen
    unfolding unwrap_rmk_for_device
    rmk_from_own_wrap = do
      answer ← (λ m. (
        status_as 403 not_approved (pl.fetch_wrap m.world).0,
        record m { world = (pl.fetch_wrap m.world).1 },
      ))
      wrap ← lift (ok_or (pl.wrap_from_slice answer.0) (other bad_wrap))
      key ← gets (λ m. m.device_pem)
      private_pem ← lift (ok_or key (io no_device_key))
      rmk ←
          lift
            (sync_err (unwrap_rmk_for_device cl.ciphers pl.curve wrap config.repo_id private_pem))
      pure (rmk, answer.1)

    unfoldable pub opens : Text → List ℕ → Bool
    unfolding open_table
    opens sealed rmk = is_ok (open_table cl.ciphers sealed rmk config.repo_id)

    -- The local key, where it opens the manifest or there is none.
    unfoldable pub usable : Option Text → Option RmkAndGen → Option RmkAndGen
    unfolding opens
    usable sealed none = none
    usable none (some k) = some k
    usable (some sealed) (some k) = if opens sealed k.0 then some k else none

    unfoldable pub checked : Option Text → List ℕ → Result (Unit {0})
    unfolding opens
    checked none rmk = ok tt
    checked (some sealed) rmk = ensure (opens sealed rmk) (other stale_wrap)

    abbrev pub or_refreshed : Option RmkAndGen → Option Text → Exec (Machine cl) RmkAndGen
    or_refreshed (some k) sealed = pure k
    or_refreshed none sealed = do
      k ← rmk_from_own_wrap
      lift (checked sealed k.0)
      store_rmk k.0 k.1
      pure k

    unfoldable pub current_rmk : Exec (Machine cl) RmkAndGen
    unfolding get_manifest load_local_rmk usable rmk_from_own_wrap checked store_rmk
    current_rmk = do
      sealed ← get_manifest
      held ← gets load_local_rmk
      or_refreshed (usable sealed held) sealed

    -- The listed key of a device as a PEM text.
    unfoldable pub listed_pem : WireDevice → Result Text
    listed_pem d = then_with (ok_or (cl.decode_base64 d.ed25519_pubkey) (other bad_pubkey)) λ raw.
        then_with (ensure (length raw == 32) (other short_pubkey)) λ _.
          then_with (ok_or (cl.key_from_bytes raw) (other invalid_pubkey))
            λ key. ok_or (pl.to_public_key_pem key) (other pem_encode)

    -- The key wrapped to a device, as the service is given it.
    unfoldable pub wrap_for : WireDevice → List ℕ → Exec (Machine cl) Text
    unfolding listed_pem wrap_rmk_for_device
    wrap_for d rmk = do
      pem ← lift (listed_pem d)
      wrap ← outside (wrap_rmk_for_device cl.ciphers pl.curve rmk config.repo_id pem)
      lift (ok_or (pl.wrap_to_vec wrap) json)

    -- Found under the id, with the fingerprint that was typed, and pending.
    unfoldable pub target_of : Text → Text → List WireDevice → Result WireDevice
    unfolding find
    target_of device_id fingerprint devices =
        then_with
          (ok_or (find (λ d. d.device_id == device_id) devices) (other (no_such_device device_id)))
          λ d.
            then_with
              (ensure (d.fingerprint == fingerprint) (other (fingerprint_mismatch d.fingerprint)))
              λ _.
                then_with (ensure (d.status == codes "pending") (other (not_pending d.status)))
                  λ _. ok d

    unfoldable pub approve : Text → Text → Exec (Machine cl) (Unit {0})
    unfolding current_rmk target_of wrap_for
    approve device_id fingerprint = do
      k ← current_rmk
      devices ← outside pl.list_wire
      target ← lift (target_of device_id fingerprint devices)
      wrap ← wrap_for target k.0
      outside (pl.approve_device device_id wrap k.1)

    abbrev pub opened : List ℕ → Option Text → Result (Option KeyTable)
    opened rmk none = ok none
    opened rmk (some sealed) =
        then_with (sync_err (open_table cl.ciphers sealed rmk config.repo_id)) λ t. ok (some t)

    unfoldable pub open_manifest : List ℕ → Exec (Machine cl) (Option KeyTable)
    unfolding get_manifest open_table
    open_manifest rmk = do sealed ← get_manifest; lift (opened rmk sealed)

    abbrev pub ask_revoke : Text → Exec (Machine cl) ℤ
    ask_revoke device_id m = (
      status_as 409 already_revoked (pl.revoke_device device_id m.world).0,
      record m { world = (pl.revoke_device device_id m.world).1 },
    )

    abbrev pub generate : Exec (Machine cl) (List ℕ)
    generate m = (
      ok (cl.ciphers.fill_bytes 32 m.world).0,
      record m { world = (cl.ciphers.fill_bytes 32 m.world).1 },
    )

    unfoldable pub replace_manifest : KeyTable → List ℕ → Exec (Machine cl) (Unit {0})
    unfolding seal
    replace_manifest table rmk = do
      sealed ← outside (seal cl.ciphers table rmk config.repo_id)
      outside (cl.storage.put manifest_name sealed)

    unfoldable pub announce : Exec (Machine cl) (Unit {0})
    announce = do
      payload ←
          lift
            (ok_or (cl.payload_to_vec (record { v = 1; put = []; del = []; manifest = true })) json)
      outside (cl.append_op payload)
      pure tt

    unfoldable pub reseal : Option KeyTable → List ℕ → Exec (Machine cl) (Unit {0})
    unfolding replace_manifest announce
    reseal none rmk = pure tt
    reseal (some table) rmk = do replace_manifest table rmk; announce

    abbrev pub is_survivor : WireDevice → Bool
    is_survivor d = d.status == codes "approved" && not (d.device_id == config.device_id)

    unfoldable pub rewrap : WireDevice → List ℕ → ℤ → Exec (Machine cl) (Unit {0})
    unfolding wrap_for
    rewrap d rmk generation = do
      wrap ← wrap_for d rmk
      outside (pl.push_wrap d.device_id wrap generation)

    unfoldable pub rewrap_all : List WireDevice → List ℕ → ℤ → Exec (Machine cl) (Unit {0})
    unfolding rewrap
    rewrap_all [] rmk generation = pure tt
    rewrap_all (d ∷ devices) rmk generation = do
      if is_survivor d then rewrap d rmk generation else pure tt
      rewrap_all devices rmk generation

    -- The new key is the phrase that is shown.
    unfoldable pub revoke : Text → Exec (Machine cl) (List ℕ)
    unfolding current_rmk open_manifest reseal store_rmk rewrap_all
    revoke device_id = do
      held ← current_rmk
      table ← open_manifest held.0
      generation ← ask_revoke device_id
      rmk ← generate
      reseal table rmk
      store_rmk rmk generation
      devices ← outside pl.list_wire
      rewrap_all devices rmk generation
      pure rmk
