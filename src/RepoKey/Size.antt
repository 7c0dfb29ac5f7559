-- ===== src/RepoKey/Size.antt =====
-- sync_cloud.rs: the size of a master key that is loaded or unwrapped.
use tuskd.Prelude.{
  ℕ, zero, suc, ◌≤◌, Bool, true, false, not, Option, none, some, List, [], ◌∷◌, ◌≡◌, refl, subst,
  ap, length, take, drop, ◌==◌, ℕ_eq, if◌then◌else◌, arith, Bool-cases, inl, inr,
}
use tuskd.Text.{Text, Text_eq, trim, strip_prefix}
use tuskd.Keyring.{Crypto}
use tuskd.SyncErrors
use tuskd.SyncErrors.{
  SyncResult, SyncError, ok_or, >>=-eq-ok, secret_key, missing_prefix, bad_hex, crypto,
  bad_private_key, bad_ephemeral_hex, bad_sealed_hex,
}
use tuskd.Errors.{ok, io, other, bad_wrap, no_device_key, ok_or as or_fail}
use tuskd.Exec.{lift, gets}
use tuskd.Exec.Triples.{
  Anything, trivially, carry, Triple, >>=-Triple, >>-Triple, pure-Triple, returns-Triple, After-ok,
}
use tuskd.Cloud.Crypto.{derive_key, aead_open}
use tuskd.Cloud.Service.{Cloud}
use tuskd.Cloud.SecretKey.{from_otsk, otsk_prefix, key_of_raw}
use tuskd.Cloud.Wrap.{DeviceWrap, unwrap_rmk_for_device, unwrap_with}
use tuskd.Worker.State.{CloudConfig, sync_err, sync_err-eq-ok}
use package.tuskd.RepoKey.{
  Plane, Machine, RmkAndGen, with_gen, local_of, usable, checked, or_refreshed, current_rmk,
  rmk_from_own_wrap, store_rmk, load_local_rmk, get_manifest, opens,
}

length-take : {A : Type 0} (n : ℕ) (l : List A) → n ≤ length l → length (take n l) ≡ n
length-take zero l h = refl
length-take (suc n) [] h = omega arith
length-take (suc n) (x ∷ l) h = ap suc (length-take n l (omega arith))

passed :
    {A : Type 0} (b : Bool) (e : SyncError) (r : SyncResult A) {a : A}
    → (if not b then SyncErrors.err e else r) ≡ SyncErrors.ok a
    → (b ≡ true) × (r ≡ SyncErrors.ok a)
passed true e r h = (refl, h)
passed false e r h = cc

key_of_raw-length :
    (c : Crypto) (raw rmk : List ℕ) → key_of_raw c raw ≡ SyncErrors.ok rmk → length rmk ≡ 32
key_of_raw-length c raw rmk h =
    let (l, k) = passed (length raw == 36) _ _ h in
    let (s, o) = passed (drop 32 raw == take 4 (c.sha256 (take 32 raw))) _ _ k in
    let e : take 32 raw ≡ rmk = cc in
    let n : 32 ≤ length raw = grind arith in subst (λ r. length r ≡ 32) e (length-take 32 raw n)

from_otsk-length :
    (c : Crypto) (s : Text) (rmk : List ℕ) → from_otsk c s ≡ SyncErrors.ok rmk → length rmk ≡ 32
unfolding from_otsk
from_otsk-length c s rmk h =
    let (body, b, h1) =
      >>=-eq-ok (ok_or (strip_prefix otsk_prefix (trim s)) (secret_key missing_prefix)) _ h in
    let (raw, r, h2) =
      >>=-eq-ok (ok_or (c.hex_decode body) (secret_key bad_hex)) (key_of_raw c) h1 in
    key_of_raw-length c raw rmk h2

local_of-length :
    (c : Crypto) (f g : Option Text) (k : RmkAndGen) → local_of c f g ≡ some k → length k.0 ≡ 32
local_of-length c none g k h = cc
local_of-length c (some raw) g k h = loaded (from_otsk c (trim raw)) refl h
  where
    loaded :
        (r : SyncResult (List ℕ))
        → from_otsk c (trim raw) ≡ r
        → with_gen g r ≡ some k
        → length k.0 ≡ 32
    loaded (SyncErrors.ok rmk) e w =
        let i : rmk ≡ k.0 = cc in subst (λ r. length r ≡ 32) i (from_otsk-length c (trim raw) rmk e)
    loaded (SyncErrors.err x) e w = cc

module _ {cl : Cloud} (pl : Plane cl) (config : CloudConfig) where
  plaintext_lem :
      (p : List ℕ) (e : SyncError) {rmk : List ℕ}
      → (if length p == 32 then SyncErrors.ok p else SyncErrors.err e) ≡ SyncErrors.ok rmk
      → length rmk ≡ 32
  plaintext_lem p e {rmk} h = elim (Bool-cases (length p == 32)) [
    | inl t ↦
        (let i : p ≡ rmk = cc (rw t at h) in
          let n : length p ≡ 32 = ground arith in subst (λ r. length r ≡ 32) i n)
    | inr t ↦ (let no : SyncErrors.err e ≡ SyncErrors.ok rmk = rw t at h in cc)
  ]

  unwrap_with-length :
      (sealed_hex repo_id eph : Text) (k : pl.curve.SigningKey) (rmk : List ℕ)
      → unwrap_with cl.ciphers pl.curve sealed_hex repo_id k eph ≡ SyncErrors.ok rmk
      → length rmk ≡ 32
  unfolding unwrap_with
  unwrap_with-length sealed_hex repo_id eph k rmk h =
      let (c, h1) =
        passed
          (pl.curve.was_contributory (pl.curve.diffie_hellman (pl.curve.to_scalar_bytes k) eph)) _ _
          h in
      let (key, d, h2) = >>=-eq-ok (derive_key cl.ciphers _ _) _ h1 in
      let (sealed, s, h3) =
        >>=-eq-ok (ok_or (cl.ciphers.hex.hex_decode sealed_hex) (crypto bad_sealed_hex)) _ h2 in
      let (plaintext, p, h4) =
        >>=-eq-ok (aead_open cl.ciphers key (cl.ciphers.as_bytes repo_id) sealed) _ h3 in
      plaintext_lem plaintext _ h4

  eph_lem :
      (b : Bool) (e : SyncError) (r : SyncResult (List ℕ)) {rmk : List ℕ}
      → (if b then r else SyncErrors.err e) ≡ SyncErrors.ok rmk
      → r ≡ SyncErrors.ok rmk
  eph_lem true e r h = h
  eph_lem false e r h = cc

  unwrap-length :
      (b : DeviceWrap) (pem : Text) (rmk : List ℕ)
      → unwrap_rmk_for_device cl.ciphers pl.curve b config.repo_id pem ≡ SyncErrors.ok rmk
      → length rmk ≡ 32
  unfolding unwrap_rmk_for_device
  unwrap-length b pem rmk h =
      let (v, h1) = passed (b.v == 1) _ _ h in
      let (k, s, h2) =
        >>=-eq-ok (ok_or (pl.curve.from_pkcs8_pem pem) (crypto bad_private_key)) _ h1 in
      let (eph, e, h3) =
        >>=-eq-ok (ok_or (cl.ciphers.hex.hex_decode b.ephemeral_pub) (crypto bad_ephemeral_hex)) _
          h2 in
      unwrap_with-length b.sealed config.repo_id eph k rmk (eph_lem (length eph == 32) _ _ h3)

  usable-length :
      (sealed : Option Text) (held : Option RmkAndGen) (k : RmkAndGen)
      → ((h : RmkAndGen) → held ≡ some h → length h.0 ≡ 32)
      → usable pl config sealed held ≡ some k
      → length k.0 ≡ 32
  unfolding usable
  usable-length sealed none k l h = cc
  usable-length none (some j) k l h = l k h
  usable-length (some sealed) (some j) k l h = elim (Bool-cases (opens pl config sealed j.0)) [
    | inl e ↦ l k (rw e at h)
    | inr e ↦ (let no : none ≡ some k = rw e at h in cc)
  ]

  own_wrap-length : Triple Anything (rmk_from_own_wrap pl config) (λ k m. length k.0 ≡ 32) Anything
  unfolding rmk_from_own_wrap
  own_wrap-length = >>=-Triple (trivially _) λ answer.
      >>=-Triple (trivially (lift (or_fail (pl.wrap_from_slice answer.0) (other bad_wrap)))) λ wrap.
        >>=-Triple (trivially (gets (λ m. m.device_pem))) λ key.
          >>=-Triple (trivially (lift (or_fail key (io no_device_key)))) λ pem.
            >>=-Triple
              (returns-Triple {P = Anything} {Q = λ rmk m. length rmk ≡ 32}
                (lift
                  (sync_err (unwrap_rmk_for_device cl.ciphers pl.curve wrap config.repo_id pem)))
                (λ m h rmk e. unwrap-length wrap pem rmk (sync_err-eq-ok _ rmk e)))
              λ rmk. pure-Triple (rmk, answer.1) (λ m h. h)

  chosen-length :
      (sealed : Option Text) (o : Option RmkAndGen)
      → ((k : RmkAndGen) → o ≡ some k → length k.0 ≡ 32)
      → Triple Anything (or_refreshed pl config o sealed) (λ k m. length k.0 ≡ 32) Anything
  chosen-length sealed (some k) l = pure-Triple k (λ m h. l k refl)
  chosen-length sealed none l = >>=-Triple own_wrap-length λ k.
      >>-Triple (carry (lift (checked pl config sealed k.0)))
        (>>-Triple (carry (store_rmk k.0 k.1)) (pure-Triple k (λ m h. h)))

  pub current_rmk-length :
      (m : Machine cl) (k : RmkAndGen) → (current_rmk pl config m).0 ≡ ok k → length k.0 ≡ 32
  unfolding current_rmk load_local_rmk
  current_rmk-length m k h =
      After-ok (λ k m. length k.0 ≡ 32) Anything _
        ((>>=-Triple (trivially get_manifest) λ sealed.
            >>=-Triple
              (returns-Triple {P = Anything}
                {Q = λ held m. (j : RmkAndGen) → held ≡ some j → length j.0 ≡ 32}
                (gets load_local_rmk)
                (λ m h held e j i.
                  local_of-length cl.ciphers.hex m.rmk_file m.gen_file j (loaded_lem m held j e i)))
              λ held. record {
                at = λ m l.
                    (chosen-length sealed (usable pl config sealed held)
                        (λ k u. usable-length sealed held k l u)).at
                      m tt;
              }).at
          m tt)
        h
    where
      loaded_lem :
          (m : Machine cl) (held : Option RmkAndGen) (j : RmkAndGen)
          → ok (load_local_rmk m) ≡ ok held
          → held ≡ some j
          → local_of cl.ciphers.hex m.rmk_file m.gen_file ≡ some j
      loaded_lem m held j e i = cc
