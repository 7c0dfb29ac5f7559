-- ===== src/RepoKey/Current.antt =====
-- sync_cloud.rs: the key that `current_rmk` gives, and the manifest.
use tuskd.Prelude.{true, Option, none, some, ◌≡◌, refl, sym, subst, Bool-cases, inl, inr, List, ℕ}
use tuskd.Text.{Text}
use tuskd.SyncErrors
use tuskd.SyncErrors.{SyncResult, SyncError}
use tuskd.Errors.{Result, ok, err, ensure-eq-ok, other, stale_wrap}
use tuskd.Exec.{gets}
use tuskd.Exec.Triples.{
  After, After-ok, Anything, trivially, carry, Triple, >>=-Triple, >>-Triple, pure-Triple,
  check-Triple,
}
use tuskd.Cloud.Crypto.{KeyTable, open_table}
use tuskd.Cloud.Service.{Cloud}
use tuskd.Worker.State.{CloudConfig, manifest_name}
use package.tuskd.RepoKey.{
  Plane, Machine, RmkAndGen, is_ok, sealed_or_none, get_manifest, opens, usable, checked,
  or_refreshed, current_rmk, rmk_from_own_wrap, store_rmk, load_local_rmk,
}

module _ {cl : Cloud} (pl : Plane cl) (config : CloudConfig) where
  -- What the service answered for the manifest, and the key: it opens what is there.
  abbrev pub Opens : SyncResult Text → List ℕ → Type 0
  Opens (SyncErrors.ok sealed) rmk =
      (table : KeyTable) × (open_table cl.ciphers sealed rmk config.repo_id ≡ SyncErrors.ok table)
  Opens (SyncErrors.err (SyncError.not_found n)) rmk = Unit {0}
  Opens (SyncErrors.err e) rmk = ⊥

  opened_lem :
      (r : SyncResult KeyTable) → is_ok r ≡ true → (table : KeyTable) × (r ≡ SyncErrors.ok table)
  opened_lem (SyncErrors.ok t) h = (t, refl)
  opened_lem (SyncErrors.err e) h = cc

  -- The manifest that was fetched, and a key that opens it where there is one.
  abbrev pub Fits : Option Text → List ℕ → Type 0
  Fits none rmk = Unit {0}
  Fits (some sealed) rmk = opens pl config sealed rmk ≡ true

  pub Fits-Opens :
      (r : SyncResult Text) (sealed : Option Text) (rmk : List ℕ)
      → sealed_or_none r ≡ ok sealed
      → Fits sealed rmk
      → Opens r rmk
  unfolding opens
  Fits-Opens (SyncErrors.ok s) none rmk h f = cc
  Fits-Opens (SyncErrors.ok s) (some sealed) rmk h f =
      let e : sealed ≡ s = cc in
      opened_lem (open_table cl.ciphers s rmk config.repo_id)
        (subst (λ s. opens pl config s rmk ≡ true) e f)
  Fits-Opens (SyncErrors.err (SyncError.not_found n)) sealed rmk h f = tt
  Fits-Opens (SyncErrors.err (SyncError.io t)) sealed rmk h f = cc
  Fits-Opens (SyncErrors.err (SyncError.invalid_name t)) sealed rmk h f = cc
  Fits-Opens (SyncErrors.err (SyncError.storage t)) sealed rmk h f = cc
  Fits-Opens (SyncErrors.err (SyncError.crypto t)) sealed rmk h f = cc
  Fits-Opens (SyncErrors.err (SyncError.secret_key t)) sealed rmk h f = cc
  Fits-Opens (SyncErrors.err (SyncError.http n t)) sealed rmk h f = cc
  Fits-Opens (SyncErrors.err (SyncError.rate_limited n t)) sealed rmk h f = cc
  Fits-Opens (SyncErrors.err (SyncError.serde)) sealed rmk h f = cc

  usable-Fits :
      (sealed : Option Text) (held : Option RmkAndGen) (k : RmkAndGen)
      → usable pl config sealed held ≡ some k
      → Fits sealed k.0
  unfolding usable
  usable-Fits sealed none k h = cc
  usable-Fits none (some j) k h = tt
  usable-Fits (some sealed) (some j) k h = elim (Bool-cases (opens pl config sealed j.0)) [
    | inl e ↦ let i : j ≡ k = cc (rw e at h) in subst (λ k. opens pl config sealed k.0 ≡ true) i e
    | inr e ↦ (let no : none ≡ some k = rw e at h in cc)
  ]

  checked-Fits :
      (sealed : Option Text) (rmk : List ℕ) (u : Unit {0})
      → checked pl config sealed rmk ≡ ok u
      → Fits sealed rmk
  unfolding checked
  checked-Fits none rmk u h = tt
  checked-Fits (some sealed) rmk u h =
      ensure-eq-ok (opens pl config sealed rmk) (other stale_wrap) h

  module _ (m : Machine cl) where
    abbrev Answer : SyncResult Text
    Answer = (cl.storage.get manifest_name m.world).0

    abbrev Fetched : Option Text → Type 0
    Fetched sealed = sealed_or_none Answer ≡ ok sealed

    manifest-Triple : Triple (λ n. n ≡ m) get_manifest (λ sealed n. Fetched sealed) Anything
    unfolding get_manifest
    manifest-Triple = record {
      at = λ n h.
          subst (λ n. After (λ sealed k. Fetched sealed) Anything (get_manifest n)) (sym h)
            (fetched _ _ refl);
    }
      where
        fetched :
            (r : Result (Option Text)) (n : Machine cl)
            → r ≡ sealed_or_none Answer
            → After (λ sealed k. Fetched sealed) Anything (r, n)
        fetched (ok sealed) n e = sym e
        fetched (err f) n e = tt

    refreshed-Triple :
        (sealed : Option Text) (held held' : Option RmkAndGen)
        → Fetched sealed
        → usable pl config sealed held ≡ held'
        → Triple Anything (or_refreshed pl config held' sealed) (λ k n. Opens Answer k.0) Anything
    refreshed-Triple sealed held (some k) f u =
        pure-Triple k (λ n h. Fits-Opens Answer sealed k.0 f (usable-Fits sealed held k u))
    refreshed-Triple sealed held none f u =
        >>=-Triple (trivially (rmk_from_own_wrap pl config)) λ k.
          check-Triple (checked pl config sealed k.0) (λ n h. tt)
            λ c. >>-Triple (carry (store_rmk k.0 k.1)) (
              pure-Triple k (λ n h. Fits-Opens Answer sealed k.0 f (checked-Fits sealed k.0 c h.1)))

    -- The key that current_rmk returns opens the manifest that the service had, if there is one: a local
    -- key that another device has replaced is never used, and neither is a wrap of an older one.
    pub current_rmk-Opens : (k : RmkAndGen) → (current_rmk pl config m).0 ≡ ok k → Opens Answer k.0
    unfolding current_rmk
    current_rmk-Opens k h =
        After-ok (λ k n. Opens Answer k.0) Anything _
          ((>>=-Triple manifest-Triple
              λ sealed. >>=-Triple (carry (gets load_local_rmk)) λ held. lifted sealed held).at
            m refl)
          h
      where
        lifted :
            (sealed : Option Text) (held : Option RmkAndGen)
            → Triple
                (λ n. Fetched sealed)
                (or_refreshed pl config (usable pl config sealed held) sealed)
                (λ k n. Opens Answer k.0)
                Anything
        lifted sealed held = record { at = λ n f. (refreshed-Triple sealed held _ f refl).at n tt }
