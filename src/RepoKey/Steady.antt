-- ===== src/RepoKey/Steady.antt =====
-- sync_cloud.rs: the calls of the service that leave the manifest alone.
use tuskd.Prelude.{ℕ, true, Option, List, [], ◌∷◌, ◌≡◌, refl, sym, subst, ◌∙◌, inl, inr, Bool-cases}
use tuskd.Text.{Text}
use tuskd.Text.Number.{ℤ}
use tuskd.SyncErrors
use tuskd.SyncErrors.{SyncResult, SyncError}
use tuskd.Errors.{ok_or, json}
use tuskd.Exec.Keeps.{Keeps, >>=-Keeps, >>-Keeps, pure-Keeps, lift-Keeps, if-Keeps}
use tuskd.Cloud.Crypto.{SyncExec, aead_seal}
use tuskd.Cloud.Service.{Cloud}
use tuskd.Cloud.Wrap.{wrap_rmk_for_device, wrap_to, wrap_with, seal_under, device_x25519_public}
use tuskd.Worker.State.{CloudConfig, manifest_name}
use package.tuskd.RepoKey.{
  Plane, Machine, WireDevice, is_i32, outside, is_survivor, rewrap, rewrap_all, wrap_for,
  listed_pem,
}

module _ (cl : Cloud) where
  -- What the service has for the manifest.
  abbrev pub manifest_at : cl.World → SyncResult Text
  manifest_at w = (cl.storage.get manifest_name w).0

  -- The call leaves the manifest alone.
  abbrev pub IsSteady : {A : Type 0} → SyncExec cl.World A → Type 0
  IsSteady step = (w : cl.World) → manifest_at (step w).1 ≡ manifest_at w

-- A blob that was put is got again; the other calls do not touch the manifest, nor does the random
-- source; and the service counts generations as `i32`.
pub record PlaneLaws {cl : Cloud} (pl : Plane cl) : Type 0 where
  pub put_get :
      (bytes : Text) (w : cl.World)
      → (cl.storage.put manifest_name bytes w).0 ≡ SyncErrors.ok tt
      → manifest_at cl (cl.storage.put manifest_name bytes w).1 ≡ SyncErrors.ok bytes
  pub steady_get : IsSteady cl (cl.storage.get manifest_name)
  pub steady_append : (payload : Text) → IsSteady cl (cl.append_op payload)
  pub steady_list : IsSteady cl pl.list_wire
  pub steady_push : (id wrap : Text) (g : ℤ) → IsSteady cl (pl.push_wrap id wrap g)
  pub steady_revoke : (id : Text) → IsSteady cl (pl.revoke_device id)
  pub steady_random :
      (n : ℕ) (w : cl.World) → manifest_at cl (cl.ciphers.fill_bytes n w).1 ≡ manifest_at cl w
  pub steady_secret :
      (w : cl.World) → manifest_at cl (pl.curve.random_secret w).1 ≡ manifest_at cl w
  pub counts_i32 :
      (id : Text) (w : cl.World) (g : ℤ)
      → (pl.revoke_device id w).0 ≡ SyncErrors.ok g
      → is_i32 g ≡ true

module _ {cl : Cloud} (pl : Plane cl) (config : CloudConfig) (plane : PlaneLaws pl) where
  seal_under-IsSteady :
      (rmk repo_id ephemeral_pub : Text) (key : SyncResult Text)
      → IsSteady cl (seal_under cl.ciphers pl.curve rmk repo_id ephemeral_pub key)
  unfolding aead_seal
  seal_under-IsSteady rmk repo_id ephemeral_pub (SyncErrors.err e) w = refl
  seal_under-IsSteady rmk repo_id ephemeral_pub (SyncErrors.ok key) w = plane.steady_random 24 w

  wrap_with-IsSteady :
      (rmk repo_id device_pub ephemeral : Text)
      → IsSteady cl (wrap_with cl.ciphers pl.curve rmk repo_id device_pub ephemeral)
  unfolding wrap_with
  wrap_with-IsSteady rmk repo_id device_pub ephemeral w =
      elim (Bool-cases (pl.curve.was_contributory (pl.curve.diffie_hellman ephemeral device_pub))) [
        | inl e ↦ rw e (seal_under-IsSteady rmk repo_id (pl.curve.public_key ephemeral) _ w)
        | inr e ↦ rw e refl
      ]

  wrap_to-IsSteady :
      (rmk repo_id : Text) (key : SyncResult Text)
      → IsSteady cl (wrap_to cl.ciphers pl.curve rmk repo_id key)
  wrap_to-IsSteady rmk repo_id (SyncErrors.err e) w = refl
  wrap_to-IsSteady rmk repo_id (SyncErrors.ok device_pub) w =
      wrap_with-IsSteady rmk repo_id device_pub (pl.curve.random_secret w).0
        (pl.curve.random_secret w).1
      ∙ plane.steady_secret w

  wrap-IsSteady :
      (rmk repo_id pem : Text)
      → IsSteady cl (wrap_rmk_for_device cl.ciphers pl.curve rmk repo_id pem)
  unfolding wrap_rmk_for_device
  wrap-IsSteady rmk repo_id pem =
      wrap_to-IsSteady rmk repo_id (device_x25519_public cl.ciphers pl.curve pem)

  module _ (P : SyncResult Text → Option Text → Option Text → Type 0) where
    -- A property of the manifest and of the two files.
    abbrev pub Seen : Machine cl → Type 0
    Seen m = P (manifest_at cl m.world) m.rmk_file m.gen_file

    pub outside-Keeps :
        {A : Type 0} (step : SyncExec cl.World A) → IsSteady cl step → Keeps Seen (outside step)
    outside-Keeps step steady = record {
      at = λ m h. subst (λ r. P r m.rmk_file m.gen_file) (sym (steady m.world)) h;
    }

    wrap_for-Keeps : (d : WireDevice) (rmk : List ℕ) → Keeps Seen (wrap_for pl config d rmk)
    unfolding wrap_for
    wrap_for-Keeps d rmk = >>=-Keeps (lift-Keeps (listed_pem pl config d)) λ pem.
        >>=-Keeps
          (outside-Keeps (wrap_rmk_for_device cl.ciphers pl.curve rmk config.repo_id pem)
            (wrap-IsSteady rmk config.repo_id pem))
          λ wrap. lift-Keeps (ok_or (pl.wrap_to_vec wrap) json)

    rewrap-Keeps : (d : WireDevice) (rmk : List ℕ) (g : ℤ) → Keeps Seen (rewrap pl config d rmk g)
    unfolding rewrap
    rewrap-Keeps d rmk g = >>=-Keeps (wrap_for-Keeps d rmk) λ wrap.
        outside-Keeps (pl.push_wrap d.device_id wrap g) (plane.steady_push d.device_id wrap g)

    pub rewrap_all-Keeps :
        (devices : List WireDevice) (rmk : List ℕ) (g : ℤ)
        → Keeps Seen (rewrap_all pl config devices rmk g)
    unfolding rewrap_all
    rewrap_all-Keeps [] rmk g = pure-Keeps tt
    rewrap_all-Keeps (d ∷ devices) rmk g =
        >>-Keeps (if-Keeps (is_survivor pl config d) (rewrap-Keeps d rmk g) (pure-Keeps tt))
          (rewrap_all-Keeps devices rmk g)
