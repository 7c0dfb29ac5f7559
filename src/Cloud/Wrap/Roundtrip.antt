-- ===== src/Cloud/Wrap/Roundtrip.antt =====
-- wrap.rs: a device opens what was wrapped for it.
use tuskd.Prelude.{
  Bool, true, false, not, some, ◌≡◌, refl, sym, subst, ap, ◌∙◌, length, if◌then◌else◌, ℕ_eq,
}
use tuskd.Text.{Text}
use tuskd.SyncErrors.{SyncResult, SyncError, ok, err, ok_or, crypto, bad_public_key, >>=-eq-ok}
use package.tuskd.Cloud.Crypto.{Ciphers, aead_seal, derive_key}
use package.tuskd.Cloud.Crypto.Opened.{CipherLaws, aead_open-seal}
use package.tuskd.Cloud.Wrap.{
  DeviceWrap, Curve, wrap_info, seal_under, device_x25519_public, wrap_with, wrap_to,
  wrap_rmk_for_device, unwrap_with, unwrap_rmk_for_device,
}

-- Both sides of an exchange compute the same secret, the public key of a device is that of its scalar,
-- and a public key has 32 bytes.
pub record CurveLaws {World : Type 0} (x : Curve World) : Type 0 where
  pub shared :
      (a b : Text) → x.diffie_hellman a (x.public_key b) ≡ x.diffie_hellman b (x.public_key a)
  pub montgomery : (k : x.SigningKey) → x.to_montgomery k ≡ x.public_key (x.to_scalar_bytes k)
  pub length_public : (a : Text) → length (x.public_key a) ≡ 32

passed_lem :
    {A World : Type 0} (test : Bool) (e : SyncError) (w : World) (rest : SyncResult A × World)
    {a : A}
    → (if not test then (err e, w) else rest).0 ≡ ok a
    → (test ≡ true) × (rest.0 ≡ ok a)
passed_lem true e w rest h = (refl, h)
passed_lem false e w rest h = cc

module _ {World : Type 0} (c : Ciphers World) (x : Curve World) (cipher : CipherLaws c)
    (curve : CurveLaws x) where
  unwrap-seal_under :
      (rmk repo_id ephemeral pem : Text) (k : x.SigningKey) (w : World) (b : DeviceWrap)
      (r : SyncResult Text)
      → r
        ≡ derive_key c
            (x.diffie_hellman ephemeral (x.to_montgomery k))
            (wrap_info (x.public_key ephemeral) (x.to_montgomery k))
      → x.was_contributory (x.diffie_hellman ephemeral (x.to_montgomery k)) ≡ true
      → x.from_pkcs8_pem pem ≡ some k
      → length rmk ≡ 32
      → (seal_under c x rmk repo_id (x.public_key ephemeral) r w).0 ≡ ok b
      → unwrap_rmk_for_device c x b repo_id pem ≡ ok rmk
  unfolding unwrap_rmk_for_device unwrap_with
  unwrap-seal_under rmk repo_id ephemeral pem k w b (err e) d s f l h = cc
  unwrap-seal_under rmk repo_id ephemeral pem k w b (ok key) d s f l h =
      let (sealed, e, g) = >>=-eq-ok (aead_seal c key (c.as_bytes repo_id) rmk w).0 _ h in
      let b' : DeviceWrap = record {
        v = 1;
        ephemeral_pub = c.hex.hex_encode (x.public_key ephemeral);
        sealed = c.hex.hex_encode sealed;
      } in
      let same : b' ≡ b = cc in
      let secret : x.diffie_hellman (x.to_scalar_bytes k) (x.public_key ephemeral)
          ≡ x.diffie_hellman ephemeral (x.to_montgomery k) =
        curve.shared (x.to_scalar_bytes k) ephemeral
        ∙ ap (x.diffie_hellman ephemeral) (sym (curve.montgomery k)) in
      subst (λ b. unwrap_rmk_for_device c x b repo_id pem ≡ ok rmk) same
        (rw
          (
            f,
            cipher.hex_round (x.public_key ephemeral),
            curve.length_public ephemeral,
            secret,
            s,
            sym d,
            cipher.hex_round sealed,
            aead_open-seal c cipher key (c.as_bytes repo_id) rmk w sealed e,
            l,
          )
          refl)

  unwrap-wrap_with :
      (rmk repo_id ephemeral pem : Text) (k : x.SigningKey) (w : World) (b : DeviceWrap)
      → x.from_pkcs8_pem pem ≡ some k
      → length rmk ≡ 32
      → (wrap_with c x rmk repo_id (x.to_montgomery k) ephemeral w).0 ≡ ok b
      → unwrap_rmk_for_device c x b repo_id pem ≡ ok rmk
  unfolding wrap_with
  unwrap-wrap_with rmk repo_id ephemeral pem k w b f l h =
      let (s, g) =
        passed_lem (x.was_contributory (x.diffie_hellman ephemeral (x.to_montgomery k))) _ w _ h in
      unwrap-seal_under rmk repo_id ephemeral pem k w b _ refl s f l g

  -- What wrap_rmk_for_device makes for the public key of a device, unwrap_rmk_for_device opens with the
  -- private one: the master key of 32 bytes is given back, where the repository is the same.
  pub unwrap-wrap_rmk_for_device :
      (rmk repo_id public_pem private_pem : Text) (k : x.SigningKey) (w : World) (b : DeviceWrap)
      → x.montgomery_from_pem public_pem ≡ some (x.to_montgomery k)
      → x.from_pkcs8_pem private_pem ≡ some k
      → length rmk ≡ 32
      → (wrap_rmk_for_device c x rmk repo_id public_pem w).0 ≡ ok b
      → unwrap_rmk_for_device c x b repo_id private_pem ≡ ok rmk
  unfolding wrap_rmk_for_device device_x25519_public
  unwrap-wrap_rmk_for_device rmk repo_id public_pem private_pem k w b p f l h =
      unwrap-wrap_with rmk repo_id (x.random_secret w).0 private_pem k (x.random_secret w).1 b f l
        (subst (λ o. (wrap_to c x rmk repo_id (ok_or o (crypto bad_public_key)) w).0 ≡ ok b) p h)
