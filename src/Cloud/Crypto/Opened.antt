-- ===== src/Cloud/Crypto/Opened.antt =====
-- crypto.rs: what was sealed is opened again.
use tuskd.Prelude.{
  ℕ, ◌+◌, ◌≤◌, Option, none, some, List, ◌++◌, ◌≡◌, refl, subst, length, take, drop, ltb,
  take-append, drop-append, length-append, arith, false,
}
use tuskd.Text.{Text, codes}
use tuskd.BTreeMap.Order.{IsSorted}
use tuskd.SyncErrors.{
  SyncResult, err, serde, ◌>>=◌, ok, ok_or, >>=-eq-ok, ok_or-eq-ok, crypto, encrypt_failed,
}
use package.tuskd.Cloud.Crypto.{
  Ciphers, KeyTable, seal_text, seal_with, seal, open_table, derive_key, info_key_table, object_aad,
  aead_seal, aead_open, nonce_len,
}

-- What the crates document: what was encrypted is decrypted under the same key, nonce and additional
-- data; the tag has sixteen bytes; the random source fills the length asked for; hex is read back.
pub record CipherLaws {World : Type 0} (c : Ciphers World) : Type 0 where
  pub opens :
      (key nonce aad message sealed : Text)
      → c.encrypt key nonce aad message ≡ some sealed
      → c.decrypt key nonce aad sealed ≡ some message
  pub tagged :
      (key nonce aad message sealed : Text)
      → c.encrypt key nonce aad message ≡ some sealed
      → length message + 16 ≤ length sealed
  pub filled : (n : ℕ) (w : World) → length (c.fill_bytes n w).0 ≡ n
  pub hex_round : (b : List ℕ) → c.hex.hex_decode (c.hex.hex_encode b) ≡ some b

module _ {World : Type 0} (c : Ciphers World) (laws : CipherLaws c) where
  pub aead_open-seal :
      (key aad message : Text) (w : World) (blob : Text)
      → (aead_seal c key aad message w).0 ≡ ok blob
      → aead_open c key aad blob ≡ ok message
  unfolding aead_seal aead_open
  aead_open-seal key aad message w blob h =
      let nonce = (c.fill_bytes nonce_len w).0 in
      let (ct, e, f) =
        >>=-eq-ok (ok_or (c.encrypt key nonce aad message) (crypto encrypt_failed)) _ h in
      let g : c.encrypt key nonce aad message ≡ some ct = ok_or-eq-ok _ _ e in
      let b : nonce ++ ct ≡ blob = cc in
      let n : length nonce ≡ 24 = laws.filled 24 w in
      let t : length message + 16 ≤ length ct = laws.tagged key nonce aad message ct g in
      let l : length (nonce ++ ct) ≡ length nonce + length ct = length-append nonce ct in
      let s : ltb (length (nonce ++ ct)) 40 ≡ false = grind arith in
      let p : take 24 (nonce ++ ct) ≡ nonce =
        subst (λ k. take k (nonce ++ ct) ≡ nonce) n (take-append nonce ct) in
      let q : drop 24 (nonce ++ ct) ≡ ct =
        subst (λ k. drop k (nonce ++ ct) ≡ ct) n (drop-append nonce ct) in
      subst (λ blob. aead_open c key aad blob ≡ ok message) b
        (rw (s, p, q, laws.opens key nonce aad message ct g) refl)

-- serde reads the objects of a table into a `BTreeMap`.
pub record TableLaws {World : Type 0} (c : Ciphers World) : Type 0 where
  pub sorted : (text : Text) (table : KeyTable) → c.from_slice text ≡ some table → IsSorted table

module _ {World : Type 0} (c : Ciphers World) (laws : TableLaws c) where
  pub open_table-IsSorted :
      (sealed rmk repo_id : Text) (table : KeyTable)
      → open_table c sealed rmk repo_id ≡ ok table
      → IsSorted table
  unfolding open_table
  open_table-IsSorted sealed rmk repo_id table h =
      let (key, k, rest) = >>=-eq-ok (derive_key c rmk info_key_table) unsealed h in
      let (text, t, last) =
        >>=-eq-ok (aead_open c key (object_aad c repo_id (codes "key-table")) sealed) read_text
          rest in
      laws.sorted text table (ok_or-eq-ok (c.from_slice text) serde last)
    where
      read_text : Text → SyncResult KeyTable
      read_text text = ok_or (c.from_slice text) serde

      unsealed : Text → SyncResult KeyTable
      unsealed key = aead_open c key (object_aad c repo_id (codes "key-table")) sealed >>= λ text.
          ok_or (c.from_slice text) serde

-- serde reads back the objects of a table that it wrote, which stand in the order of a `BTreeMap`.
pub record SerdeLaws {World : Type 0} (c : Ciphers World) : Type 0 where
  pub read_back :
      (table : KeyTable) (bytes : Text)
      → IsSorted table
      → c.to_vec table ≡ some bytes
      → c.from_slice bytes ≡ some table

module _ {World : Type 0} (c : Ciphers World) (laws : CipherLaws c) (serde_laws : SerdeLaws c) where
  open-seal_text :
      (key repo_id : Text) (table : KeyTable) (o : Option Text) (w : World) (sealed : Text)
      → IsSorted table
      → c.to_vec table ≡ o
      → (seal_text c key repo_id o w).0 ≡ ok sealed
      → (aead_open c key (object_aad c repo_id (codes "key-table")) sealed >>= λ plaintext.
          ok_or (c.from_slice plaintext) serde)
        ≡ ok table
  open-seal_text key repo_id table none w sealed s v h = cc
  open-seal_text key repo_id table (some text) w sealed s v h =
      rw
        (
          aead_open-seal c laws key (object_aad c repo_id (codes "key-table")) text w sealed h,
          serde_laws.read_back table text s v,
        )
        refl

  open-seal_with :
      (key : SyncResult Text) (repo_id : Text) (table : KeyTable) (w : World) (sealed : Text)
      → IsSorted table
      → (seal_with c table repo_id key w).0 ≡ ok sealed
      → (key >>= λ key.
          aead_open c key (object_aad c repo_id (codes "key-table")) sealed >>= λ plaintext.
          ok_or (c.from_slice plaintext) serde)
        ≡ ok table
  open-seal_with (err e) repo_id table w sealed s h = cc
  open-seal_with (ok key) repo_id table w sealed s h =
      open-seal_text key repo_id table (c.to_vec table) w sealed s refl h

  pub open_table-seal :
      (table : KeyTable) (rmk repo_id : Text) (w : World) (sealed : Text)
      → IsSorted table
      → (seal c table rmk repo_id w).0 ≡ ok sealed
      → open_table c sealed rmk repo_id ≡ ok table
  unfolding seal open_table
  open_table-seal table rmk repo_id w sealed s h =
      open-seal_with (derive_key c rmk info_key_table) repo_id table w sealed s h
