-- ===== src/Cloud/Service.antt =====
-- cloud.rs: what a device asks of the cloud, its operations log and its registry of devices.
use tuskd.Prelude.{ℕ, Bool, Option, List, ◌∷◌, ◌++◌, ◌==◌, ℕ_eq, length, not, if◌then◌else◌}
use tuskd.Text.{Text, codes}
use tuskd.Text.Number.{ℤ}
use tuskd.SyncErrors.{SyncResult, ok, err, crypto, signature_length, signature_wrong}
use package.tuskd.Cloud.Crypto.{Ciphers, SyncExec}
use package.tuskd.Cloud.Provider.{StorageProvider}

pub record CloudOp : Type 0 where
  pub seq : ℤ
  pub device_id : Text
  pub payload : Text
  pub signature : Text

-- `CloudDevice`, as far as the worker reads it.
pub record CloudDevice : Type 0 where
  pub device_id : Text
  pub ed25519_pubkey : Text

-- `OpPayload` of sync_worker.rs
pub record OpPayload : Type 0 where
  pub v : ℕ
  pub put : List Text
  pub del : List Text
  pub manifest : Bool

-- The service and the random source are the world; base64, ed25519 and serde are the crates'.
pub record Cloud : Type 1 where
  pub World : Type 0
  pub ciphers : Ciphers World
  pub storage : StorageProvider World
  pub ops_since : ℤ → Option ℕ → SyncExec World (List CloudOp)
  pub append_op : Text → SyncExec World ℤ
  pub list_devices : SyncExec World (List CloudDevice)
  pub VerifyingKey : Type 0
  pub decode_base64 : Text → Option (List ℕ)
  pub key_from_bytes : List ℕ → Option VerifyingKey
  pub verify : VerifyingKey → Text → Text → Bool
  pub payload_to_vec : OpPayload → Option Text
  pub payload_from_slice : Text → Option OpPayload

module _ (cl : Cloud) where
  unfoldable pub op_message : Text → Text → Text
  op_message repo_id payload = cl.ciphers.as_bytes (
      codes "tusk-cloud.op.v1"
      ++ 10 ∷ repo_id
      ++ 10 ∷ cl.ciphers.hex.hex_encode (cl.ciphers.hex.sha256 payload))

  unfoldable pub verify_op : cl.VerifyingKey → Text → Text → Text → SyncResult (Unit {0})
  unfolding op_message
  verify_op key repo_id payload signature =
      if not (length signature == 64)
      then err (crypto signature_length)
      else if cl.verify key (op_message repo_id payload) signature
      then ok tt
      else err (crypto signature_wrong)
