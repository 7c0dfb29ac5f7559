-- ===== src/Cloud/Wrap.antt =====
-- wrap.rs: the master key sealed to a device, and opened there. ed25519 and X25519 are the crates'.
pub mod Roundtrip
use tuskd.Prelude.{ℕ, Bool, not, Option, none, some, ◌++◌, length, ◌==◌, ℕ_eq, if◌then◌else◌}
use tuskd.Text.{Text, codes}
use tuskd.Keyring.{Crypto}
use tuskd.SyncErrors.{
  SyncResult, ok, err, ok_or, ◌>>=◌, crypto, bad_public_key, bad_private_key, bad_ephemeral_hex,
  ephemeral_length, bad_sealed_hex, low_order_device, low_order_ephemeral, unwrapped_length,
  wrap_version,
}
use package.tuskd.Cloud.Crypto.{Ciphers, SyncExec, aead_seal, aead_open, derive_key}

pub record DeviceWrap : Type 0 where
  pub v : ℕ
  pub ephemeral_pub : Text
  pub sealed : Text

-- The keys of a device, and Diffie-Hellman on the bytes of keys.
pub record Curve (World : Type 0) : Type 1 where
  pub SigningKey : Type 0
  pub from_pkcs8_pem : Text → Option SigningKey
  -- `from_public_key_pem`, then `to_montgomery`
  pub montgomery_from_pem : Text → Option Text
  pub to_scalar_bytes : SigningKey → Text
  pub to_montgomery : SigningKey → Text
  pub random_secret : World → Text × World
  pub public_key : Text → Text
  pub diffie_hellman : Text → Text → Text
  pub was_contributory : Text → Bool

abbrev pub info_device_wrap : Text
info_device_wrap = codes "opentusk-sync v1: device-wrap"

abbrev pub wrap_info : Text → Text → Text
wrap_info ephemeral_pub device_pub = info_device_wrap ++ ephemeral_pub ++ device_pub

module _ {World : Type 0} (c : Ciphers World) (x : Curve World) where
  unfoldable pub device_x25519_public : Text → SyncResult Text
  device_x25519_public pem = ok_or (x.montgomery_from_pem pem) (crypto bad_public_key)

  abbrev pub sealed_as : Text → SyncResult Text → SyncResult DeviceWrap
  sealed_as ephemeral_pub r = r >>= λ sealed. ok (record {
    v = 1;
    ephemeral_pub = c.hex.hex_encode ephemeral_pub;
    sealed = c.hex.hex_encode sealed;
  })

  abbrev pub seal_under : Text → Text → Text → SyncResult Text → SyncExec World DeviceWrap
  seal_under rmk repo_id ephemeral_pub (err e) w = (err e, w)
  seal_under rmk repo_id ephemeral_pub (ok key) w =
      let (r, w') = aead_seal c key (c.as_bytes repo_id) rmk w in (sealed_as ephemeral_pub r, w')

  -- With the ephemeral secret.
  unfoldable pub wrap_with : Text → Text → Text → Text → SyncExec World DeviceWrap
  unfolding derive_key aead_seal
  wrap_with rmk repo_id device_pub ephemeral w =
      if not (x.was_contributory (x.diffie_hellman ephemeral device_pub))
      then (err (crypto low_order_device), w)
      else seal_under rmk repo_id (x.public_key ephemeral)
          (derive_key c (x.diffie_hellman ephemeral device_pub)
            (wrap_info (x.public_key ephemeral) device_pub))
          w

  abbrev pub wrap_to : Text → Text → SyncResult Text → SyncExec World DeviceWrap
  wrap_to rmk repo_id (err e) w = (err e, w)
  wrap_to rmk repo_id (ok device_pub) w =
      let (ephemeral, w') = x.random_secret w in wrap_with rmk repo_id device_pub ephemeral w'

  unfoldable pub wrap_rmk_for_device : Text → Text → Text → SyncExec World DeviceWrap
  unfolding device_x25519_public wrap_with
  wrap_rmk_for_device rmk repo_id device_public_pem =
      wrap_to rmk repo_id (device_x25519_public device_public_pem)

  -- With the device's key and the bytes of the ephemeral one.
  unfoldable pub unwrap_with : Text → Text → x.SigningKey → Text → SyncResult Text
  unfolding derive_key aead_open
  unwrap_with sealed_hex repo_id signing eph_bytes =
      let shared = x.diffie_hellman (x.to_scalar_bytes signing) eph_bytes in
      if not (x.was_contributory shared)
      then err (crypto low_order_ephemeral)
      else derive_key c shared (wrap_info eph_bytes (x.to_montgomery signing)) >>= λ key.
          ok_or (c.hex.hex_decode sealed_hex) (crypto bad_sealed_hex) >>= λ sealed.
          aead_open c key (c.as_bytes repo_id) sealed >>= λ plaintext.
          if length plaintext == 32 then ok plaintext else err (crypto unwrapped_length)

  unfoldable pub unwrap_rmk_for_device : DeviceWrap → Text → Text → SyncResult Text
  unfolding unwrap_with
  unwrap_rmk_for_device wrap repo_id device_private_pem =
      if not (wrap.v == 1)
      then err (crypto (wrap_version wrap.v))
      else ok_or (x.from_pkcs8_pem device_private_pem) (crypto bad_private_key) >>= λ signing.
          ok_or (c.hex.hex_decode wrap.ephemeral_pub) (crypto bad_ephemeral_hex) >>= λ eph_raw.
          if length eph_raw == 32
          then unwrap_with wrap.sealed repo_id signing eph_raw
          else err (crypto ephemeral_length)
