-- ===== src/Worker/Pull/Registry.antt =====
-- sync_worker.rs: where the keys of other devices come from.
use tuskd.Prelude.{
  Bool, true, false, some, List, [], ◌∷◌, ◌≡◌, refl, ◌==◌, ◌&&◌, inl, inr, if◌then◌else◌,
  Bool-cases, ℕ_eq, In, sym, ◌∙◌, subst, not, ap,
}
use tuskd.Text.{Text, Text_eq, text_eq_iff}
use tuskd.SyncErrors
use tuskd.SyncErrors.{SyncResult}
use tuskd.Errors.{ok, ok_or, other, unknown_device}
use tuskd.Errors.{>>=-eq-ok, ok_or-eq-ok}
use tuskd.Exec.{pure}
use tuskd.Exec.Triples.{
  Triple, >>=-Triple, pure-Triple, lift-Triple, Anything, returns-Triple, with-Triple,
}
use tuskd.BTreeMap.{BTreeMap, lookup, insert, lookup-insert}
use tuskd.Cloud.Service.{Cloud, CloudDevice}
use package.tuskd.Worker.State.{Device, sync_err-eq-ok, outside}
use package.tuskd.Worker.Pull.{DeviceKeys, key_of, is_some, add_devices, refresh, get_key}

some_inj : {A : Type 0} {a b : A} → some a ≡ some b → a ≡ b
some_inj h = cc

-- The worlds between a world and the ends of the calls for the registry that follow.
pub data Reached (cl : Cloud) (w₀ : cl.World) : cl.World → Type 0 where
  start : Reached cl w₀ w₀
  listed : (w : cl.World) → Reached cl w₀ w → Reached cl w₀ (cl.list_devices w).1

module _ (cl : Cloud) (w₀ : cl.World) where
  -- A list of devices that the registry gave.
  abbrev pub Listed : List CloudDevice → Type 0
  Listed devices =
      (w : cl.World) × Reached cl w₀ w × ((cl.list_devices w).0 ≡ SyncErrors.ok devices)

  -- The registry has the key for a device of that id.
  pub record IsRegistered (id : Text) (key : cl.VerifyingKey) : Type 0 where
    pub devices : List CloudDevice
    pub from_registry : Listed devices
    pub device : CloudDevice
    pub present : In device devices
    pub named : device.device_id ≡ id
    pub keyed : key_of cl device ≡ ok key

  abbrev pub InRun : Device cl → Type 0
  InRun d = Reached cl w₀ d.world

  abbrev pub AllRegistered : BTreeMap cl.VerifyingKey → Type 0
  AllRegistered keys =
      (id : Text) (key : cl.VerifyingKey) → lookup id keys ≡ some key → IsRegistered id key

  insert_lem :
      (devices : List CloudDevice) (l : Listed devices) (d : CloudDevice) (new : cl.VerifyingKey)
      (keys : BTreeMap cl.VerifyingKey)
      → In d devices
      → key_of cl d ≡ ok new
      → AllRegistered keys
      → AllRegistered (insert d.device_id new keys)
  insert_lem devices l d new keys i k r id key h = elim (Bool-cases (d.device_id == id)) [
    | inl e ↦
        let q : new ≡ key = some_inj (rw e at (sym (lookup-insert id d.device_id new keys) ∙ h)) in
        record {
          devices = devices;
          from_registry = l;
          device = d;
          present = i;
          named = (text_eq_iff d.device_id id).0 e;
          keyed = k ∙ ap ok q;
        }
    | inr e ↦ r id key (rw e at (sym (lookup-insert id d.device_id new keys) ∙ h))
  ]

  add_devices-AllRegistered :
      (devices : List CloudDevice) (l : Listed devices) (ds : List CloudDevice)
      (keys after : BTreeMap cl.VerifyingKey)
      → ((d : CloudDevice) → In d ds → In d devices)
      → add_devices cl ds keys ≡ ok after
      → AllRegistered keys
      → AllRegistered after
  unfolding add_devices
  add_devices-AllRegistered devices l [] keys after sub h r =
      let e : keys ≡ after = cc in subst AllRegistered e r
  add_devices-AllRegistered devices l (d ∷ ds) keys after sub h r =
      let (key, k, rest) =
        >>=-eq-ok (key_of cl d) (λ key. add_devices cl ds (insert d.device_id key keys)) h in
      add_devices-AllRegistered devices l ds (insert d.device_id key keys) after
        (λ c i. sub c (inr i)) rest (insert_lem devices l d key keys (sub d (inl refl)) k r)

  refresh-Triple :
      (k : DeviceKeys cl)
      → AllRegistered k.keys
      → Triple InRun (refresh cl k) (λ n d. InRun d × AllRegistered n.keys) Anything
  unfolding refresh
  refresh-Triple k r =
      >>=-Triple
        (returns-Triple {P = InRun} {Q = λ devices d. InRun d × Listed devices}
          (outside cl.list_devices)
          (λ d at devices e. (
            listed d.world at,
            (d.world, at, sync_err-eq-ok (cl.list_devices d.world).0 devices e),
          )))
        λ devices. with-Triple λ l.
          >>=-Triple (lift-Triple (add_devices cl devices k.keys) (λ d h. tt)) λ keys.
            with-Triple λ e.
              pure-Triple (record { keys = keys; fetched = true })
                (λ d at.
                  (at, add_devices-AllRegistered devices l devices k.keys keys (λ c i. i) e r))

  if_needed-Triple :
      (b : Bool) (k : DeviceKeys cl)
      → AllRegistered k.keys
      → Triple InRun
          (if b then refresh cl k else pure k)
          (λ n d. InRun d × AllRegistered n.keys)
          Anything
  if_needed-Triple true k r = refresh-Triple k r
  if_needed-Triple false k r = pure-Triple k (λ d at. (at, r))

  pub get_key-IsRegistered :
      (id : Text) (k : DeviceKeys cl)
      → AllRegistered k.keys
      → Triple InRun
          (get_key cl id k)
          (λ n d. InRun d × (AllRegistered n.1.keys × IsRegistered id n.0))
          Anything
  unfolding get_key
  get_key-IsRegistered id k r =
      >>=-Triple (if_needed-Triple (not (is_some (lookup id k.keys)) && not k.fetched) k r) λ first.
        with-Triple λ q.
          >>=-Triple (if_needed-Triple (not (is_some (lookup id first.keys))) first q) λ next.
            with-Triple λ t.
              >>=-Triple
                (lift-Triple (ok_or (lookup id next.keys) (other (unknown_device id))) (λ d h. tt))
                λ key. with-Triple λ e.
                  pure-Triple (key, next)
                    (λ d at. (at, (t, t id key (ok_or-eq-ok (lookup id next.keys) _ e))))
