-- ===== src/Cloud/Crypto.antt =====
-- crypto.rs: sealing under a key, the keys of objects, and the table of keys. The ciphers, the random
-- source and serde are parameters; `hex` is that of the keyring's `Crypto`.
pub mod Opened
use tuskd.Prelude.{
  ℕ, ◌+◌, Option, none, some, List, ◌∷◌, ◌++◌, length, take, drop, ltb, ◌==◌, ℕ_eq, if◌then◌else◌,
}
use tuskd.Text.{Text, codes}
use tuskd.Keyring.{Crypto}
use tuskd.BTreeMap.{BTreeMap, lookup, insert}
use tuskd.SyncErrors.{
  SyncResult, ok, err, ok_or, ◌>>=◌, encrypt_failed, decrypt_failed, too_short, hkdf_failed,
  hmac_key, bad_dek_hex, bad_dek_length, crypto, serde,
}

pub record ObjectEntry : Type 0 where
  pub blob : Text
  pub dek : Text

abbrev pub KeyTable : Type 0
KeyTable = BTreeMap ObjectEntry

-- What the crates compute, and the bytes that the random source gives.
pub record Ciphers (World : Type 0) : Type 0 where
  pub hex : Crypto
  -- key, nonce, additional data, message
  pub encrypt : Text → Text → Text → Text → Option Text
  pub decrypt : Text → Text → Text → Text → Option Text
  pub hkdf : Text → Text → Option Text
  pub hmac : Text → Text → Option (List ℕ)
  pub as_bytes : Text → Text
  pub fill_bytes : ℕ → World → List ℕ × World
  pub to_vec : KeyTable → Option Text
  pub from_slice : Text → Option KeyTable

abbrev pub nonce_len : ℕ
nonce_len = 24

abbrev pub tag_len : ℕ
tag_len = 16

abbrev pub info_key_table : Text
info_key_table = codes "opentusk-sync v1: key-table wrap"

abbrev pub info_blob_name : Text
info_blob_name = codes "opentusk-sync v1: blob-name hmac"

-- An action on the world that may fail.
abbrev pub SyncExec : Type 0 → Type 0 → Type 0
SyncExec World A = World → SyncResult A × World

module _ {World : Type 0} (c : Ciphers World) where
  unfoldable pub aead_seal : Text → Text → Text → SyncExec World Text
  aead_seal key aad plaintext w =
      let (nonce, w') = c.fill_bytes nonce_len w in
      (
        ok_or (c.encrypt key nonce aad plaintext) (crypto encrypt_failed) >>= λ ct.
            ok (nonce ++ ct),
        w',
      )

  unfoldable pub aead_open : Text → Text → Text → SyncResult Text
  aead_open key aad blob =
      if ltb (length blob) (nonce_len + tag_len)
      then err (crypto too_short)
      else ok_or (c.decrypt key (take nonce_len blob) aad (drop nonce_len blob))
          (crypto decrypt_failed)

  unfoldable pub derive_key : Text → Text → SyncResult Text
  derive_key ikm info = ok_or (c.hkdf ikm info) (crypto hkdf_failed)

  unfoldable pub object_aad : Text → Text → Text
  object_aad repo_id rel_path = c.as_bytes repo_id ++ 0 ∷ c.as_bytes rel_path

  -- The name of a blob: HMAC over the path under a key derived from the master key.
  unfoldable pub blob_name : Text → Text → SyncResult Text
  unfolding derive_key
  blob_name rmk rel_path = derive_key rmk info_blob_name >>= λ key.
      ok_or (c.hmac key (c.as_bytes rel_path)) (crypto hmac_key) >>= λ mac.
      ok (c.hex.hex_encode mac)

  unfoldable pub generate_dek : World → List ℕ × World
  generate_dek w = c.fill_bytes 32 w

  unfoldable pub dek_of : ObjectEntry → SyncResult (List ℕ)
  dek_of e = ok_or (c.hex.hex_decode e.dek) (crypto bad_dek_hex) >>= λ raw.
      if length raw == 32 then ok raw else err (crypto bad_dek_length)

  unfoldable pub encrypt_object : List ℕ → Text → Text → Text → SyncExec World Text
  unfolding aead_seal object_aad
  encrypt_object dek repo_id rel_path plaintext =
      aead_seal dek (object_aad repo_id rel_path) plaintext

  unfoldable pub decrypt_object : List ℕ → Text → Text → Text → SyncResult Text
  unfolding aead_open object_aad
  decrypt_object dek repo_id rel_path blob = aead_open dek (object_aad repo_id rel_path) blob

  -- `KeyTable::entry`: the entry of the path and the table, with a new entry where it had none.
  abbrev pub mint :
      Text → Text → KeyTable → SyncResult Text → SyncExec World (ObjectEntry × KeyTable)
  mint rmk rel table (err e) w = (err e, w)
  mint rmk rel table (ok blob) w =
      let (dek, w') = generate_dek w in
      let entry : ObjectEntry = record { blob = blob; dek = c.hex.hex_encode dek } in
      (ok (entry, insert rel entry table), w')

  abbrev pub entry_or_mint :
      Text → Text → KeyTable → Option ObjectEntry → SyncExec World (ObjectEntry × KeyTable)
  entry_or_mint rmk rel table (some existing) w = (ok (existing, table), w)
  entry_or_mint rmk rel table none w = mint rmk rel table (blob_name rmk rel) w

  unfoldable pub entry : Text → Text → KeyTable → SyncExec World (ObjectEntry × KeyTable)
  unfolding lookup insert blob_name generate_dek
  entry rmk rel table = entry_or_mint rmk rel table (lookup rel table)

  abbrev pub seal_text : Text → Text → Option Text → SyncExec World Text
  seal_text key repo_id none w = (err serde, w)
  seal_text key repo_id (some plaintext) w =
      aead_seal key (object_aad repo_id (codes "key-table")) plaintext w

  abbrev pub seal_with : KeyTable → Text → SyncResult Text → SyncExec World Text
  seal_with table repo_id (err e) w = (err e, w)
  seal_with table repo_id (ok key) w = seal_text key repo_id (c.to_vec table) w

  unfoldable pub seal : KeyTable → Text → Text → SyncExec World Text
  unfolding derive_key aead_seal object_aad
  seal table rmk repo_id = seal_with table repo_id (derive_key rmk info_key_table)

  unfoldable pub open_table : Text → Text → Text → SyncResult KeyTable
  unfolding derive_key aead_open object_aad
  open_table sealed rmk repo_id = derive_key rmk info_key_table >>= λ key.
      aead_open key (object_aad repo_id (codes "key-table")) sealed >>= λ plaintext.
      ok_or (c.from_slice plaintext) serde
