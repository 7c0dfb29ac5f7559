-- ===== src/RepoKey/Revoke.antt =====
-- sync_cloud.rs: the steps of `revoke`, and the key of this machine after it.
use tuskd.Prelude.{ℕ, true, Option, none, some, List, ◌≡◌, refl, sym, subst, ap, ◌∙◌, length, ℕ_eq}
use tuskd.Text.{Text}
use tuskd.Text.Number.{ℤ, show_i64}
use tuskd.BTreeMap.Order.{IsSorted}
use tuskd.SyncErrors
use tuskd.SyncErrors.{SyncResult, SyncError}
use tuskd.Errors.{Result, ok, err, already_revoked}
use tuskd.Errors.{◌>>=◌ as then_with}
use tuskd.Exec.{pure, lift, ◌>>=◌, ◌>>◌}
use tuskd.Exec.Keeps.{Keeps, >>=-Keeps, >>-Keeps, pure-Keeps, lift-Keeps}
use tuskd.Exec.Triples.{
  After, After-ok, Anything, trivially, Triple, >>=-Triple, >>-Triple, pure-Triple, Keeps-Triple,
  returns-Triple, with-Triple,
}
use tuskd.Cloud.Crypto.{KeyTable, open_table, seal}
use tuskd.Cloud.Crypto.Opened.{
  CipherLaws, TableLaws, SerdeLaws, open_table-seal, open_table-IsSorted,
}
use tuskd.Cloud.Service.{Cloud}
use tuskd.Cloud.SecretKey.{to_otsk}
use tuskd.Cloud.SecretKey.Roundtrip.{HexLaws}
use tuskd.Worker.State.{CloudConfig, manifest_name, sync_err}
use package.tuskd.RepoKey.{
  Plane, Machine, RmkAndGen, is_i32, sealed_or_none, outside, get_manifest, usable, opens,
  load_local_rmk, local_of, current_rmk, open_manifest, opened, ask_revoke, generate, reseal,
  replace_manifest, announce, store_rmk, rewrap_all, revoke,
}
use package.tuskd.RepoKey.Calls.{outside-Triple, write_private-Triple, status_as-eq-ok}
use package.tuskd.RepoKey.Local.{load-store}
use package.tuskd.RepoKey.Current.{Opens, Fits-Opens}
use package.tuskd.RepoKey.Steady.{PlaneLaws, manifest_at, Seen, outside-Keeps, rewrap_all-Keeps}

-- What the crates behind the ciphers promise.
pub record CrateLaws (cl : Cloud) : Type 0 where
  pub cipher : CipherLaws cl.ciphers
  pub table : TableLaws cl.ciphers
  pub serde : SerdeLaws cl.ciphers
  pub hex : HexLaws cl.ciphers.hex

module _ {cl : Cloud} (pl : Plane cl) (config : CloudConfig) (plane : PlaneLaws pl)
    (crates : CrateLaws cl) where
  abbrev Property : Type 1
  Property = SyncResult Text → Option Text → Option Text → Type 0

  abbrev Of : Property → Machine cl → Type 0
  Of = Seen pl config plane

  abbrev pub Ready : List ℕ → ℤ → Property
  Ready rmk g r file gen =
      Opens pl config r rmk × (file ≡ some (to_otsk cl.ciphers.hex rmk)) × (gen ≡ some (show_i64 g))

  abbrev Opened : List ℕ → Property
  Opened rmk r file gen = Opens pl config r rmk

  -- The table that was opened, or no manifest.
  abbrev Before : Option KeyTable → Property
  Before none r file gen = sealed_or_none r ≡ ok none
  Before (some table) r file gen = IsSorted table

  abbrev Answered : Option Text → Machine cl → Type 0
  Answered sealed m = sealed_or_none (manifest_at cl m.world) ≡ ok sealed

  answered_lem :
      (r : Result (Option Text)) (m : Machine cl)
      → sealed_or_none (manifest_at cl m.world) ≡ r
      → After Answered Anything (r, m)
  answered_lem (ok sealed) m e = e
  answered_lem (err f) m e = tt

  get_manifest-Triple : Triple Anything (get_manifest {cl = cl}) Answered Anything
  unfolding get_manifest
  get_manifest-Triple = record {
    at = λ m h. answered_lem _ _ (ap sealed_or_none (plane.steady_get m.world));
  }

  opened_lem :
      (rmk : List ℕ) (sealed : Text) (m : Machine cl) (r : SyncResult KeyTable)
      → open_table cl.ciphers sealed rmk config.repo_id ≡ r
      → After (λ table. Of (Before table)) Anything (then_with (sync_err r) (λ t. ok (some t)), m)
  opened_lem rmk sealed m (SyncErrors.ok table) e =
      open_table-IsSorted cl.ciphers crates.table sealed rmk config.repo_id table e
  opened_lem rmk sealed m (SyncErrors.err f) e = tt

  opened-Triple :
      (rmk : List ℕ) (sealed : Option Text)
      → Triple
          (Answered sealed)
          (lift (opened pl config rmk sealed))
          (λ table. Of (Before table))
          Anything
  opened-Triple rmk none = record { at = λ m h. h }
  opened-Triple rmk (some sealed) = record { at = λ m h. opened_lem rmk sealed m _ refl }

  open_manifest-Triple :
      (rmk : List ℕ)
      → Triple Anything (open_manifest pl config rmk) (λ table. Of (Before table)) Anything
  unfolding open_manifest
  open_manifest-Triple rmk = >>=-Triple get_manifest-Triple (opened-Triple rmk)

  replace_manifest-Triple :
      (table : KeyTable) (rmk : List ℕ)
      → IsSorted table
      → Triple Anything (replace_manifest pl config table rmk) (λ _. Of (Opened rmk)) Anything
  unfolding replace_manifest
  replace_manifest-Triple table rmk s =
      >>=-Triple
        (outside-Triple {P = Anything}
          {Q = λ sealed m. open_table cl.ciphers sealed rmk config.repo_id ≡ SyncErrors.ok table}
          (seal cl.ciphers table rmk config.repo_id)
          (λ m h sealed e.
            open_table-seal cl.ciphers crates.cipher crates.serde table rmk config.repo_id m.world
              sealed s e))
        (λ sealed. outside-Triple (cl.storage.put manifest_name sealed) (λ m o u e.
          subst (λ r. Opens pl config r rmk) (sym (plane.put_get sealed m.world e)) (table, o)))

  announce-Keeps : (P : Property) → Keeps (Of P) (announce pl config)
  unfolding announce
  announce-Keeps P = >>=-Keeps (lift-Keeps _) λ payload.
      >>-Keeps
        (outside-Keeps pl config plane P (cl.append_op payload) (plane.steady_append payload))
        (pure-Keeps tt)

  reseal-Triple :
      (table : Option KeyTable) (rmk : List ℕ)
      → Triple (Of (Before table)) (reseal pl config table rmk) (λ _. Of (Opened rmk)) Anything
  unfolding reseal
  reseal-Triple none rmk =
      pure-Triple tt (λ m h. Fits-Opens pl config (manifest_at cl m.world) none rmk h tt)
  reseal-Triple (some table) rmk = record {
    at = λ m s.
        (>>-Triple (replace_manifest-Triple table rmk s)
            (Keeps-Triple (announce-Keeps (Opened rmk)) (λ m h. tt))).at
          m tt;
  }

  -- The key file was written, and the other not yet.
  abbrev Half : List ℕ → Property
  Half rmk r file gen = Opens pl config r rmk × (file ≡ some (to_otsk cl.ciphers.hex rmk))

  store_rmk-Triple :
      (rmk : List ℕ) (g : ℤ)
      → Triple (Of (Opened rmk)) (store_rmk rmk g) (λ _. Of (Ready rmk g)) Anything
  unfolding store_rmk
  store_rmk-Triple rmk g =
      >>-Triple
        (write_private-Triple {P = Of (Opened rmk)} {Q = Of (Half rmk)}
          (λ m. record m { rmk_file = some (to_otsk cl.ciphers.hex rmk) }) (λ m h. (h, refl)))
        (write_private-Triple {P = Of (Half rmk)} {Q = Of (Ready rmk g)}
          (λ m. record m { gen_file = some (show_i64 g) }) (λ m h. (h.0, h.1, refl)))

  ask_revoke-Triple :
      (id : Text) (table : Option KeyTable)
      → Triple
          (Of (Before table))
          (ask_revoke pl config id)
          (λ g m. Of (Before table) m × (is_i32 g ≡ true))
          Anything
  ask_revoke-Triple id table = returns-Triple (ask_revoke pl config id) λ m h g e.
      (kept table m h, plane.counts_i32 id m.world g (status_as-eq-ok 409 already_revoked _ g e))
    where
      kept :
          (table : Option KeyTable) (m : Machine cl)
          → Of (Before table) m
          → Of (Before table) (record m { world = (pl.revoke_device id m.world).1 })
      kept none m h = ap sealed_or_none (plane.steady_revoke id m.world) ∙ h
      kept (some t) m h = h

  generate-Triple :
      (P : Property)
      → Triple (Of P) (generate pl config) (λ rmk m. Of P m × (length rmk ≡ 32)) Anything
  generate-Triple P = returns-Triple (generate pl config) λ m h rmk e. (
    subst (λ r. P r m.rmk_file m.gen_file) (sym (plane.steady_random 32 m.world)) h,
    (let i : (cl.ciphers.fill_bytes 32 m.world).0 ≡ rmk = cc in
        subst (λ k. length k ≡ 32) i (crates.cipher.filled 32 m.world)),
  )

  -- A generation with which this machine has the key in its files.
  abbrev Holds : List ℕ → Machine cl → Type 0
  Holds rmk m = (g : ℤ) × (is_i32 g ≡ true) × (length rmk ≡ 32) × Of (Ready rmk g) m

  handed_out :
      (rmk : List ℕ) (g : ℤ)
      → is_i32 g ≡ true
      → length rmk ≡ 32
      → Triple
          (Of (Ready rmk g))
          (outside pl.list_wire >>= λ devices. rewrap_all pl config devices rmk g >> pure rmk)
          Holds
          Anything
  handed_out rmk g i l =
      >>=-Triple
        (Keeps-Triple (outside-Keeps pl config plane (Ready rmk g) pl.list_wire plane.steady_list)
          (λ m h. tt))
        λ devices.
          >>-Triple
            (Keeps-Triple (rewrap_all-Keeps pl config plane (Ready rmk g) devices rmk g)
              (λ m h. tt))
            (pure-Triple rmk (λ m h. (g, i, l, h)))

  revoke-Triple : (id : Text) → Triple Anything (revoke pl config id) Holds Anything
  unfolding revoke
  revoke-Triple id = >>=-Triple (trivially (current_rmk pl config)) λ held.
      >>=-Triple (open_manifest-Triple held.0) λ table. >>=-Triple (ask_revoke-Triple id table) λ g.
        with-Triple λ i. >>=-Triple (generate-Triple (Before table)) λ rmk. with-Triple λ l.
          >>-Triple (reseal-Triple table rmk)
            (>>-Triple (store_rmk-Triple rmk g) (handed_out rmk g i l))

  -- What `usable` makes of the manifest that the key opens.
  usable_lem :
      (r : SyncResult Text) (k : RmkAndGen)
      → Opens pl config r k.0
      → (sealed : Option Text) × (sealed_or_none r ≡ ok sealed)
        × (usable pl config sealed (some k) ≡ some k)
  unfolding usable opens
  usable_lem (SyncErrors.ok s) k (table, e) = (some s, refl, rw e refl)
  usable_lem (SyncErrors.err (SyncError.not_found n)) k h = (none, refl, refl)
  usable_lem (SyncErrors.err (SyncError.io t)) k h = absurd h
  usable_lem (SyncErrors.err (SyncError.invalid_name t)) k h = absurd h
  usable_lem (SyncErrors.err (SyncError.storage t)) k h = absurd h
  usable_lem (SyncErrors.err (SyncError.crypto t)) k h = absurd h
  usable_lem (SyncErrors.err (SyncError.secret_key t)) k h = absurd h
  usable_lem (SyncErrors.err (SyncError.http n t)) k h = absurd h
  usable_lem (SyncErrors.err (SyncError.rate_limited n t)) k h = absurd h
  usable_lem (SyncErrors.err (SyncError.serde)) k h = absurd h

  Holds-current_rmk :
      (rmk : List ℕ) (m : Machine cl)
      → Holds rmk m
      → (g : ℤ) × ((current_rmk pl config m).0 ≡ ok (rmk, g))
  unfolding current_rmk get_manifest load_local_rmk
  Holds-current_rmk rmk m (g, i, l, (o, f, n)) =
      let (sealed, a, u) = usable_lem (manifest_at cl m.world) (rmk, g) o in
      let e : local_of cl.ciphers.hex m.rmk_file m.gen_file ≡ some (rmk, g) =
        rw (f, n) (load-store cl.ciphers.hex crates.hex rmk g l i) in
      let last : usable pl config sealed (local_of cl.ciphers.hex m.rmk_file m.gen_file)
          ≡ some (rmk, g) =
        rw e u in
      (g, rw (a, last) refl)

  -- Where `revoke` returns, `current_rmk` of this machine gives the new key, under a generation: the
  -- files hold it, and the manifest that the service has by then is opened by it, if there is one.
  pub revoke-current_rmk :
      (id : Text) (m : Machine cl) (rmk : List ℕ)
      → (revoke pl config id m).0 ≡ ok rmk
      → (g : ℤ) × ((current_rmk pl config (revoke pl config id m).1).0 ≡ ok (rmk, g))
  revoke-current_rmk id m rmk h =
      Holds-current_rmk rmk (revoke pl config id m).1
        (After-ok Holds Anything (revoke pl config id m) ((revoke-Triple id).at m tt) h)
