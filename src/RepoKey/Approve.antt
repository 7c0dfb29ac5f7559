-- ===== src/RepoKey/Approve.antt =====
-- sync_cloud.rs: what `approve` hands over, and to whom.
use tuskd.Prelude.{
  ℕ, Bool, true, false, some, List, [], ◌∷◌, ◌≡◌, refl, sym, subst, length, ◌==◌, ℕ_eq, inl, inr,
  Bool-cases, find, In,
}
use tuskd.Text.{Text, Text_eq, text_eq_iff, codes}
use tuskd.SyncErrors
use tuskd.Errors.{>>=-eq-ok, ok_or-eq-ok, CoreError, ok, ensure, json}
use tuskd.Errors.{◌>>=◌ as then_with}
use tuskd.Exec.{Exec, lift}
use tuskd.Exec.Triples.{Anything, Triple, >>=-Triple, returns-Triple, After-ok}
use tuskd.Cloud.Crypto.Opened.{CipherLaws}
use tuskd.Cloud.Service.{Cloud}
use tuskd.Cloud.Wrap.{DeviceWrap, wrap_rmk_for_device, unwrap_rmk_for_device}
use tuskd.Cloud.Wrap.Roundtrip.{CurveLaws, unwrap-wrap_rmk_for_device}
use tuskd.Worker.State.{CloudConfig, manifest_name}
use package.tuskd.RepoKey.{
  Plane, Machine, RmkAndGen, WireDevice, current_rmk, listed_pem, wrap_for, target_of, approve,
}
use package.tuskd.RepoKey.Calls.{outside-Triple}
use package.tuskd.RepoKey.Current.{Opens, current_rmk-Opens}
use package.tuskd.RepoKey.Size.{current_rmk-length}

passed_lem :
    {A : Type 0} (b c : Bool) (e f : CoreError) (a : A) {d : A}
    → then_with (ensure b e) (λ _. then_with (ensure c f) (λ _. ok a)) ≡ ok d
    → (b ≡ true) × (c ≡ true) × (a ≡ d)
passed_lem true true e f a h = (refl, refl, cc)
passed_lem true false e f a h = cc
passed_lem false c e f a h = cc

found_lem :
    {A : Type 0} (p : A → Bool) (l : List A) (a : A) → find p l ≡ some a → (p a ≡ true) × In a l
unfolding find
found_lem p [] a h = cc
found_lem p (b ∷ l) a h = elim (Bool-cases (p b)) [
  | inl e ↦ (let i : b ≡ a = cc (rw e at h) in (subst (λ a. p a ≡ true) i e, inl (sym i)))
  | inr e ↦ (let r = found_lem p l a (rw e at h) in (r.0, inr r.1))
]

fact-Triple :
    {S A F : Type 0} {m : Exec S A} {Q : A → S → Type 0}
    → (F → Triple Anything m Q Anything)
    → Triple (λ s. F) m Q Anything
fact-Triple t = record { at = λ s f. (t f).at s tt }

module _ {cl : Cloud} (pl : Plane cl) (config : CloudConfig) where
  -- A device of the list that is pending, under the id and the fingerprint that were typed.
  abbrev pub Confirmed : Text → Text → List WireDevice → WireDevice → Type 0
  Confirmed id fingerprint devices d =
      In d devices
      × (d.device_id ≡ id)
      × (d.fingerprint ≡ fingerprint)
      × (d.status ≡ codes "pending")

  target_of-Confirmed :
      (id fingerprint : Text) (devices : List WireDevice) (d : WireDevice)
      → target_of pl config id fingerprint devices ≡ ok d
      → Confirmed id fingerprint devices d
  unfolding target_of
  target_of-Confirmed id fingerprint devices d h =
      let (a, f, h1) = >>=-eq-ok _ _ h in
      let (p, s, e) =
        passed_lem (a.fingerprint == fingerprint) (a.status == codes "pending") _ _ a h1 in
      let (i, m) = found_lem _ devices a (ok_or-eq-ok _ _ f) in
      subst (Confirmed id fingerprint devices) e (
        m,
        (text_eq_iff a.device_id id).0 i,
        (text_eq_iff a.fingerprint fingerprint).0 p,
        (text_eq_iff a.status (codes "pending")).0 s,
      )

  module _ (cipher : CipherLaws cl.ciphers) (curve : CurveLaws pl.curve)
      (read_back : (b : DeviceWrap) (t : Text)
        → pl.wrap_to_vec b ≡ some t
        → pl.wrap_from_slice t ≡ some b)
      (private_pem : Text) (sk : pl.curve.SigningKey)
      (key : pl.curve.from_pkcs8_pem private_pem ≡ some sk) where
    -- The key that is listed for a device is the one of the private key.
    abbrev pub Owns : WireDevice → Type 0
    Owns d =
        (pem : Text)
        → listed_pem pl config d ≡ ok pem
        → pl.curve.montgomery_from_pem pem ≡ some (pl.curve.to_montgomery sk)

    -- A text that the owner of the private key unwraps to the master key.
    abbrev pub Unwraps : Text → List ℕ → Type 0
    Unwraps t rmk =
        (b : DeviceWrap) × (pl.wrap_from_slice t ≡ some b)
        × (unwrap_rmk_for_device cl.ciphers pl.curve b config.repo_id private_pem
            ≡ SyncErrors.ok rmk)

    wrap_for-Triple :
        (d : WireDevice) (rmk : List ℕ)
        → Owns d
        → length rmk ≡ 32
        → Triple Anything (wrap_for pl config d rmk) (λ t m. Unwraps t rmk) Anything
    unfolding wrap_for
    wrap_for-Triple d rmk o l =
        >>=-Triple
          (returns-Triple {P = Anything} {Q = λ pem m. listed_pem pl config d ≡ ok pem}
            (lift (listed_pem pl config d)) (λ m h pem e. e))
          λ pem.
            >>=-Triple
              (outside-Triple
                {Q = λ b m.
                  unwrap_rmk_for_device cl.ciphers pl.curve b config.repo_id private_pem
                  ≡ SyncErrors.ok rmk}
                (wrap_rmk_for_device cl.ciphers pl.curve rmk config.repo_id pem)
                (λ m e b f.
                  unwrap-wrap_rmk_for_device cl.ciphers pl.curve cipher curve rmk config.repo_id pem
                    private_pem sk m.world b (o pem e) key l f))
              λ b.
                returns-Triple _
                  λ m u t f. (b, read_back b t (ok_or-eq-ok (pl.wrap_to_vec b) json f), u)

    -- What `approve` told the service: a text for a device that the list has as `Confirmed`, with the
    -- generation of the current key, and the text unwraps to that key, which opens the manifest that the
    -- service had, if it had one.
    abbrev pub HandedOver : Text → Text → Machine cl → Machine cl → Type 0
    HandedOver id fingerprint m after =
        (k : RmkAndGen) × (devices : List WireDevice) × (d : WireDevice) × (t : Text)
        × (w : cl.World) × (v : cl.World) × ((current_rmk pl config m).0 ≡ ok k)
        × Opens pl config (cl.storage.get manifest_name m.world).0 k.0
        × ((pl.list_wire w).0 ≡ SyncErrors.ok devices)
        × Confirmed id fingerprint devices d
        × Unwraps t k.0
        × ((pl.approve_device id t k.1 v).0 ≡ SyncErrors.ok tt)
        × (after.world ≡ (pl.approve_device id t k.1 v).1)

    approve-Triple :
        (id fingerprint : Text) (m : Machine cl)
        → ((w : cl.World) (devices : List WireDevice) (d : WireDevice)
            → (pl.list_wire w).0 ≡ SyncErrors.ok devices
            → Confirmed id fingerprint devices d
            → Owns d)
        → Triple
            (λ n. n ≡ m)
            (approve pl config id fingerprint)
            (λ u after. HandedOver id fingerprint m after)
            Anything
    unfolding approve
    approve-Triple id fingerprint m owned =
        >>=-Triple
          (returns-Triple {P = λ n. n ≡ m} {Q = λ k n. (current_rmk pl config m).0 ≡ ok k}
            (current_rmk pl config)
            (λ n e k h. subst (λ n. (current_rmk pl config n).0 ≡ ok k) e h))
          λ k. fact-Triple λ now.
            >>=-Triple
              (outside-Triple {P = Anything}
                {Q = λ devices n. (w : cl.World) × ((pl.list_wire w).0 ≡ SyncErrors.ok devices)}
                pl.list_wire (λ n h devices e. (n.world, e)))
              λ devices. fact-Triple λ got.
                >>=-Triple
                  (returns-Triple {P = Anything} {Q = λ d n. Confirmed id fingerprint devices d}
                    (lift (target_of pl config id fingerprint devices))
                    (λ n h d e. target_of-Confirmed id fingerprint devices d e))
                  λ d. fact-Triple λ confirmed.
                    >>=-Triple
                      (wrap_for-Triple d k.0 (owned got.0 devices d got.1 confirmed)
                        (current_rmk-length pl config m k now))
                      λ t. fact-Triple λ opened.
                        outside-Triple (pl.approve_device id t k.1) (λ n h u e. (
                          k,
                          devices,
                          d,
                          t,
                          got.0,
                          n.world,
                          now,
                          current_rmk-Opens pl config m k now,
                          got.1,
                          confirmed,
                          opened,
                          e,
                          refl,
                        ))

    -- Where `approve` returns, the last thing that it did was to give the service a text for a device that
    -- the list has as pending, under the id and with the fingerprint that were typed; and the holder of
    -- the private key unwraps the text to the key that `current_rmk` gives on this machine, which opens
    -- the manifest that the service has before, if there is one; provided that the list
    -- shows the public half of that key for such a device. The fingerprint is the one that the list
    -- states: it is not computed from the key.
    pub approve-Unwraps :
        (id fingerprint : Text) (m : Machine cl) (u : Unit {0})
        → ((w : cl.World) (devices : List WireDevice) (d : WireDevice)
            → (pl.list_wire w).0 ≡ SyncErrors.ok devices
            → Confirmed id fingerprint devices d
            → Owns d)
        → (approve pl config id fingerprint m).0 ≡ ok u
        → HandedOver id fingerprint m (approve pl config id fingerprint m).1
    approve-Unwraps id fingerprint m u owned h =
        After-ok (λ u after. HandedOver id fingerprint m after) Anything
          (approve pl config id fingerprint m) ((approve-Triple id fingerprint m owned).at m refl) h
