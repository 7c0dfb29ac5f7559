-- ===== src/Cloud/SecretKey.antt =====
-- crypto.rs: the compact form of the Repo Secret Key, the master key with a checksum.
pub mod Roundtrip
use tuskd.Prelude.{ℕ, Bool, not, Option, List, ◌++◌, length, take, drop, ◌==◌, ℕ_eq, if◌then◌else◌}
use tuskd.Text.{Text, Text_eq, codes, trim, strip_prefix}
use tuskd.Keyring.{Crypto}
use tuskd.SyncErrors.{
  SyncResult, ok, err, ok_or, ◌>>=◌, secret_key, missing_prefix, bad_hex, wrong_length,
  checksum_mismatch,
}

abbrev pub otsk_prefix : Text
otsk_prefix = codes "otsk_"

module _ (c : Crypto) where
  unfoldable pub to_otsk : List ℕ → Text
  to_otsk rmk = otsk_prefix ++ c.hex_encode rmk ++ c.hex_encode (take 4 (c.sha256 rmk))

  -- The bytes that were decoded.
  abbrev pub key_of_raw : List ℕ → SyncResult (List ℕ)
  key_of_raw raw =
      if not (length raw == 36)
      then err (secret_key wrong_length)
      else if not (drop 32 raw == take 4 (c.sha256 (take 32 raw)))
      then err (secret_key checksum_mismatch)
      else ok (take 32 raw)

  abbrev pub key_of_body : Option Text → SyncResult (List ℕ)
  key_of_body stripped = ok_or stripped (secret_key missing_prefix) >>= λ body.
      ok_or (c.hex_decode body) (secret_key bad_hex) >>= λ raw. key_of_raw raw

  unfoldable pub from_otsk : Text → SyncResult (List ℕ)
  unfolding trim strip_prefix
  from_otsk s = key_of_body (strip_prefix otsk_prefix (trim s))
