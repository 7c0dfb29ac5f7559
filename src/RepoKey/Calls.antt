-- ===== src/RepoKey/Calls.antt =====
-- sync_cloud.rs: what is known of a call of the service, or of a write, that returned.
use tuskd.Prelude.{ℕ, Bool-cases, inl, inr, ◌≡◌, ap, ℕ_eq, ◌==◌}
use tuskd.SyncErrors
use tuskd.SyncErrors.{SyncResult, SyncError}
use tuskd.Errors.{Message, ok, err, other, sync}
use tuskd.Exec.Triples.{Anything, Triple, returns-Triple}
use tuskd.Cloud.Crypto.{SyncExec}
use tuskd.Cloud.Service.{Cloud}
use tuskd.Worker.State.{allowed, later, sync_err-eq-ok}
use package.tuskd.RepoKey.{Machine, outside, status_as, write_private}

pub status_as-eq-ok :
    {A : Type 0} (code : ℕ) (message : Message) (r : SyncResult A) (a : A)
    → status_as code message r ≡ ok a
    → r ≡ SyncErrors.ok a
status_as-eq-ok code message (SyncErrors.ok b) a h = (let e : b ≡ a = cc in ap SyncErrors.ok e)
status_as-eq-ok code message (SyncErrors.err (SyncError.http status url)) a h =
    elim (Bool-cases (status == code)) [
      | inl e ↦ (let no : err (other message) ≡ ok a = rw e at h in cc)
      | inr e ↦ (let no : err (other (sync (SyncError.http status url))) ≡ ok a = rw e at h in cc)
    ]
status_as-eq-ok code message (SyncErrors.err (SyncError.not_found n)) a h = cc
status_as-eq-ok code message (SyncErrors.err (SyncError.io t)) a h = cc
status_as-eq-ok code message (SyncErrors.err (SyncError.invalid_name t)) a h = cc
status_as-eq-ok code message (SyncErrors.err (SyncError.storage t)) a h = cc
status_as-eq-ok code message (SyncErrors.err (SyncError.crypto t)) a h = cc
status_as-eq-ok code message (SyncErrors.err (SyncError.secret_key t)) a h = cc
status_as-eq-ok code message (SyncErrors.err (SyncError.rate_limited n t)) a h = cc
status_as-eq-ok code message (SyncErrors.err (SyncError.serde)) a h = cc

module _ {cl : Cloud} where
  -- A call of the service that returned.
  pub outside-Triple :
      {A : Type 0} {P : Machine cl → Type 0} {Q : A → Machine cl → Type 0}
      (step : SyncExec cl.World A)
      → ((m : Machine cl)
          → P m
          → (a : A) → (step m.world).0 ≡ SyncErrors.ok a
          → Q a (record m { world = (step m.world).1 }))
      → Triple P (outside step) Q Anything
  outside-Triple step k =
      returns-Triple (outside step) λ m h a e. k m h a (sync_err-eq-ok (step m.world).0 a e)

  pub write_private-Triple :
      {P Q : Machine cl → Type 0} (f : Machine cl → Machine cl)
      → ((m : Machine cl) → P m → Q (record (f m) { writes = later m.writes }))
      → Triple P (write_private f) (λ _. Q) Anything
  unfolding write_private
  write_private-Triple {Q} f k = record {
    at = λ m h. elim (Bool-cases (allowed m.writes)) [ inl e ↦ rw e (k m h) | inr e ↦ rw e tt ];
  }
