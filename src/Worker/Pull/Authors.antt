-- ===== src/Worker/Pull/Authors.antt =====
-- sync_worker.rs: the signatures of the operations that a pull applies.
use tuskd.Prelude.{
  true, false, Option, none, some, List, [], ◌∷◌, ◌≡◌, refl, ◌==◌, ◌||◌, ◌⊎◌, inl, inr,
  if◌then◌else◌, Bool-cases, ℕ_eq, nat_eq_iff,
}
use tuskd.Text.{Text_eq, text_eq_iff}
use tuskd.SyncErrors
use tuskd.SyncErrors.{SyncResult}
use tuskd.Errors.{
  Result, Message, ok, err, map_err, ok_or, ensure, other, unverified_op, bad_payload,
  payload_version,
}
use tuskd.Errors.{ok_or-eq-ok, ensure-eq-ok}
use tuskd.Exec.{Exec, pure}
use tuskd.Exec.Triples.{
  After, After-ok, Triple, >>=-Triple, >>-Triple, pure-Triple, lift-Triple, check-Triple, Anything,
  carry, returns-Triple, with-Triple,
}
use tuskd.Journal.{Services}
use tuskd.Cloud.Crypto.{KeyTable}
use tuskd.BTreeMap.{lookup}
use tuskd.Cloud.Service.{Cloud, CloudOp, OpPayload, verify_op}
use package.tuskd.Worker.State.{Session, Device, sync_err, set_cursor}
use package.tuskd.Worker.Pull.Registry.{
  start, IsRegistered, InRun, AllRegistered, get_key-IsRegistered,
}
use package.tuskd.Worker.Pull.{
  Effects, DeviceKeys, apply_foreign, apply_op, collect, add_puts, add_dels, is_nothing,
  apply_effects, pull_ops, pull_phase,
}

join :
    {S A F : Type 0} (G : Type 0) (f : F) (r : Result A × S)
    → After (λ _ _. G) Anything r
    → After (λ _ _. F × G) Anything r
join G f (ok a, s) g = (f, g)
join G f (err e, s) g = tt

verified_lem :
    (f : Message) (r : SyncResult (Unit {0}))
    → map_err (other f) (sync_err r) ≡ ok tt
    → r ≡ SyncErrors.ok tt
verified_lem f (SyncErrors.ok u) h = refl
verified_lem f (SyncErrors.err e) h = cc

module _ (cl : Cloud) (s : Session) (w₀ : cl.World) where
  abbrev Known : DeviceKeys cl → Type 0
  Known k = AllRegistered cl w₀ k.keys

  -- A key that the registry has for its author verifies the operation, and its payload is of version 1.
  pub record IsSigned (op : CloudOp) : Type 0 where
    pub key : cl.VerifyingKey
    pub registered : IsRegistered cl w₀ op.device_id key
    pub payload : OpPayload
    pub verified : verify_op cl key s.config.repo_id op.payload op.signature ≡ SyncErrors.ok tt
    pub read : cl.payload_from_slice op.payload ≡ some payload
    pub version : payload.v ≡ 1

  abbrev pub AllSigned : List CloudOp → Type 0
  AllSigned [] = Unit {0}
  AllSigned (op ∷ ops) = ((op.device_id ≡ s.config.device_id) ⊎ IsSigned op) × AllSigned ops

  apply_foreign-IsSigned :
      (op : CloudOp) (k : DeviceKeys cl) (e : Effects)
      → Known k
      → Triple
          (InRun cl w₀)
          (apply_foreign cl s op k e)
          (λ n d. InRun cl w₀ d × (Known n.0 × IsSigned op))
          Anything
  unfolding apply_foreign
  apply_foreign-IsSigned op k e r = >>=-Triple (get_key-IsRegistered cl w₀ op.device_id k r) λ next.
      with-Triple λ known.
        check-Triple
          (map_err (other (unverified_op op.seq op.device_id)) (sync_err (verification next.0)))
          (λ d h. tt)
          λ u. with-Triple λ verified.
            >>=-Triple
              (lift-Triple (ok_or (cl.payload_from_slice op.payload) (other (bad_payload op.seq)))
                (λ d h. tt))
              λ payload. with-Triple λ read.
                check-Triple (ensure (payload.v == 1) (other (payload_version op.seq payload.v)))
                  (λ d h. tt)
                  λ v. pure-Triple (applied next.1 payload) (λ d h. (
                    h.0,
                    (
                      known.0,
                      record {
                        key = next.0;
                        registered = known.1;
                        payload = payload;
                        verified =
                            verified_lem (unverified_op op.seq op.device_id) (verification next.0)
                              verified;
                        read =
                            ok_or-eq-ok (cl.payload_from_slice op.payload)
                              (other (bad_payload op.seq)) read;
                        version = (nat_eq_iff payload.v 1).0 (ensure-eq-ok _ _ h.1);
                      },
                    ),
                  ))
    where
      applied : DeviceKeys cl → OpPayload → DeviceKeys cl × Effects
      applied k payload = (
        k,
        add_dels payload.del (
            add_puts payload.put
              (record e { manifest_changed = e.manifest_changed || payload.manifest })),
      )

      verification : cl.VerifyingKey → SyncResult (Unit {0})
      verification key = verify_op cl key s.config.repo_id op.payload op.signature

  abbrev Vouched : CloudOp → Type 0
  Vouched op = (op.device_id ≡ s.config.device_id) ⊎ IsSigned op

  vouched :
      (op : CloudOp) (r : Result (DeviceKeys cl × Effects) × Device cl)
      → After (λ n d. InRun cl w₀ d × (Known n.0 × IsSigned op)) Anything r
      → After (λ n d. InRun cl w₀ d × (Known n.0 × Vouched op)) Anything r
  vouched op (ok a, d) h = (h.0, (h.1.0, inr h.1.1))
  vouched op (err f, d) h = tt

  apply_op-Signed :
      (op : CloudOp) (k : DeviceKeys cl) (e : Effects)
      → Known k
      → Triple
          (InRun cl w₀)
          (apply_op cl s op k e)
          (λ n d. InRun cl w₀ d × (Known n.0 × Vouched op))
          Anything
  unfolding apply_op
  apply_op-Signed op k e r =
      >>-Triple (returns-Triple {Q = λ _. InRun cl w₀} (set_cursor op.seq) (λ d at u e. at))
        (go (Bool-cases (op.device_id == s.config.device_id)))
    where
      own : Exec (Device cl) (DeviceKeys cl × Effects)
      own = if op.device_id == s.config.device_id then pure (k, e) else apply_foreign cl s op k e

      go :
          ((op.device_id == s.config.device_id) ≡ true)
            ⊎ ((op.device_id == s.config.device_id) ≡ false)
          → Triple (InRun cl w₀) own (λ n d. InRun cl w₀ d × (Known n.0 × Vouched op)) Anything
      go (inl q) = rw q (
          pure-Triple (k, e)
            (λ d at. (at, (r, inl ((text_eq_iff op.device_id s.config.device_id).0 q)))))
      go (inr q) = rw q (record {
        at = λ d at.
            vouched op (apply_foreign cl s op k e d) ((apply_foreign-IsSigned op k e r).at d at);
      })

  collect-Signed :
      (ops : List CloudOp) (k : DeviceKeys cl) (e : Effects)
      → Known k
      → Triple (InRun cl w₀) (collect cl s ops k e) (λ _ _. AllSigned ops) Anything
  unfolding collect
  collect-Signed [] k e r = pure-Triple e (λ d h. tt)
  collect-Signed (op ∷ ops) k e r = >>=-Triple (apply_op-Signed op k e r) λ next. with-Triple λ f.
      record {
        at = λ d at. join (AllSigned ops) f.1 _ ((collect-Signed ops next.0 next.1 f.0).at d at);
      }

  pull_ops-Signed :
      (sv : Services) (ops : List CloudOp)
      → Triple (InRun cl w₀) (pull_ops cl sv s ops) (λ _ _. AllSigned ops) Anything
  unfolding lookup
  pull_ops-Signed sv [] = pure-Triple none (λ d h. tt)
  pull_ops-Signed sv (op ∷ ops) =
      >>=-Triple (collect-Signed (op ∷ ops) _ _ (λ id key h. cc))
        λ e. carry (if is_nothing cl sv e then pure none else apply_effects cl sv s e)

module _ (cl : Cloud) (s : Session) where
  -- Where a pull succeeds, each operation that it was given is the device's own, or its signature verifies
  -- under a key that the registry, asked in this pull, lists for the device that the operation names, and
  -- its payload has version 1.
  pub pull_phase-Signed :
      (sv : Services) (d : Device cl) (t : Option KeyTable) (ops : List CloudOp)
      → (cl.ops_since d.state.cursor none d.world).0 ≡ SyncErrors.ok ops
      → (pull_phase cl sv s d).0 ≡ ok t
      → AllSigned cl s (cl.ops_since d.state.cursor none d.world).1 ops
  unfolding pull_phase
  pull_phase-Signed sv d t ops e h =
      After-ok (λ _ _. AllSigned cl s (cl.ops_since d.state.cursor none d.world).1 ops) Anything _
        ((pull_ops-Signed cl s (cl.ops_since d.state.cursor none d.world).1 sv ops).at _ start)
        (rw e at h)
