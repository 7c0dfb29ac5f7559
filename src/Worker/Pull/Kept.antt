-- ===== src/Worker/Pull/Kept.antt =====
-- sync_worker.rs: `pull_phase` keeps every file that was changed since it was last synced.
use tuskd.Prelude.{
  Bool, true, false, Option, none, some, List, [], ◌∷◌, ◌≡◌, refl, ap, sym, subst, ◌∙◌, ◌==◌, inl,
  inr, Bool-cases, ==-refl, if◌then◌else◌,
}
use mathlib.Core.Bool.{false≢true}
use tuskd.Text.{Text, Text_eq, text_eq_iff}
use tuskd.BTreeMap.{lookup, into_keys, lookup-remove}
use tuskd.BTreeMap.Order.{IsSorted, Above}
use tuskd.Errors.{Result}
use tuskd.Exec.{Exec, pure, lift, gets, ◌>>=◌, ◌>>◌}
use tuskd.Exec.Keeps.{Keeps, lift-Keeps, gets-Keeps, pure-Keeps, if-Keeps, >>-Keeps}
use tuskd.Exec.Triples.{After, Triple, >>=-Triple, >>-Triple, Keeps-Triple, pure-Triple}
use tuskd.Journal.{Services}
use tuskd.Cloud.Crypto.{ObjectEntry, KeyTable, SyncExec, dek_of, decrypt_object}
use tuskd.Cloud.Service.{Cloud}
use package.tuskd.Worker.State.{
  Session, Device, allowed, forget_file, remove_file, change_files, rel_for_blob, outside, sync_err,
}
use package.tuskd.Worker.Pull.{
  BTreeSet, Effects, is_some, by_blob, fetch_entry, put_rel, apply_puts, drop_clean, drop_local,
  del_rel, apply_dels, clobbered, forget_all,
}
use package.tuskd.Worker.Pull.LocalWins.{Kept, Held, settle-Held}

module _ (cl : Cloud) (sv : Services) (s : Session) (table : KeyTable) (sorted : IsSorted table)
    (rel bytes : Text) where
  abbrev pub Safe : BTreeSet → Device cl → Type 0
  Safe = Held cl sv table rel bytes

  abbrev pub There : Device cl → Type 0
  There = Kept cl sv table rel bytes

  Safe-tail :
      (b : Text) (names : BTreeSet) (d : Device cl) → Safe ((b, tt) ∷ names) d → Safe names d
  Safe-tail b names d (k, inl c) = (k, inl c)
  Safe-tail b names d (k, inr (t, m)) = (k, inr (t, m.1))

  outside-Safe :
      {A : Type 0} (names : BTreeSet) (step : SyncExec cl.World A)
      → Triple (Safe names) (outside step) (λ _. Safe names) There
  outside-Safe names step = Keeps-Triple (record { at = λ d h. h }) (λ d h. h.0)

  lift-Safe :
      {A : Type 0} (names : BTreeSet) (r : Result A)
      → Triple (Safe names) (lift r) (λ _. Safe names) There
  lift-Safe names r = Keeps-Triple (lift-Keeps r) (λ d h. h.0)

  gets-Safe :
      {A : Type 0} (names : BTreeSet) (f : Device cl → A)
      → Triple (Safe names) (gets f) (λ _. Safe names) There
  gets-Safe names f = Keeps-Triple (gets-Keeps f) (λ d h. h.0)

  fetch_entry-Safe :
      (b r : Text) (o : Option ObjectEntry) (names : BTreeSet)
      → lookup b (by_blob table []) ≡ some r
      → lookup r table ≡ o
      → Above b names
      → Triple (Safe ((b, tt) ∷ names)) (fetch_entry cl sv s b r o) (λ _. Safe names) There
  fetch_entry-Safe b r none names e f a = pure-Triple tt (Safe-tail b names)
  fetch_entry-Safe b r (some entry) names e f a =
      >>=-Triple (outside-Safe ((b, tt) ∷ names) (cl.storage.get b)) λ blob.
        >>=-Triple (lift-Safe ((b, tt) ∷ names) (sync_err (dek_of cl.ciphers entry))) λ dek.
          >>=-Triple
            (lift-Safe ((b, tt) ∷ names)
              (sync_err (decrypt_object cl.ciphers dek s.config.repo_id r blob)))
            λ text. record {
              at = λ d h.
                  settle-Held cl sv table rel bytes sorted r b text names d e (ap is_some f) a h;
            }

  put_rel-Safe :
      (b : Text) (o : Option Text) (names : BTreeSet)
      → lookup b (by_blob table []) ≡ o
      → Above b names
      → Triple (Safe ((b, tt) ∷ names)) (put_rel cl sv s table b o) (λ _. Safe names) There
  put_rel-Safe b none names e a = pure-Triple tt (Safe-tail b names)
  put_rel-Safe b (some r) names e a = fetch_entry-Safe b r (lookup r table) names e refl a

  apply_puts-Safe :
      (names : BTreeSet)
      → IsSorted names
      → Triple (Safe names) (apply_puts cl sv s table (into_keys names)) (λ _. Safe []) There
  unfolding apply_puts
  apply_puts-Safe [] o = pure-Triple tt (λ d h. h)
  apply_puts-Safe ((b, u) ∷ names) o =
      >>-Triple (put_rel-Safe b (lookup b (by_blob table [])) names refl o.0)
        (apply_puts-Safe names o.1)

  drop_other :
      (r : Text) (clean : Bool) (d : Device cl)
      → (r == rel) ≡ false
      → Safe [] d
      → After (λ _. Safe []) There ((drop_clean cl sv clean r >> forget_file {cl = cl} r) d)
  unfolding forget_file remove_file change_files
  drop_other r false d n h = rw (lookup-remove rel r d.state.files, n) h
  drop_other r true d n h = elim (Bool-cases (allowed d.writes)) [
    | inl e ↦ rw (e, lookup-remove rel r d.files, lookup-remove rel r d.state.files, n) h
    | inr e ↦ rw e h.0
  ]

  drop_other_local :
      (r : Text) (d : Device cl)
      → (r == rel) ≡ false
      → Safe [] d
      → After (λ _. Safe []) There (drop_local cl sv r d)
  unfolding drop_local
  drop_other_local r d n h = drop_other r _ d n h

  -- The file itself is not dropped, since it has changed, and what was known of it is forgotten.
  drop_same :
      (d : Device cl)
      → is_some (lookup rel table) ≡ false
      → Safe [] d
      → After (λ _. Safe []) There (drop_local cl sv rel d)
  unfolding drop_local forget_file
  drop_same d t (k, inr (u, m)) = absurd (false≢true (sym t ∙ u))
  drop_same d t (k, inl c) =
      rw (k, c, lookup-remove rel rel d.state.files, ==-refl rel) (k, inl refl)

  drop_local-Safe :
      (r : Text)
      → is_some (lookup r table) ≡ false
      → Triple (Safe []) (drop_local cl sv r) (λ _. Safe []) There
  drop_local-Safe r t = record {
    at = λ d h. elim (Bool-cases (r == rel)) [
      | inl e ↦
          subst (λ r. After (λ _. Safe []) There (drop_local cl sv r d)) (sym (same e))
            (drop_same d (subst (λ r. is_some (lookup r table) ≡ false) (same e) t) h)
      | inr n ↦ drop_other_local r d n h
    ];
  }
    where
      same : (r == rel) ≡ true → r ≡ rel
      same e = (text_eq_iff r rel).0 e

  del_rel-Safe : (o : Option Text) → Triple (Safe []) (del_rel cl sv table o) (λ _. Safe []) There
  del_rel-Safe none = pure-Triple tt (λ d h. h)
  del_rel-Safe (some r) = elim (Bool-cases (is_some (lookup r table))) [
    | inl e ↦ rw e (pure-Triple tt (λ d h. h))
    | inr e ↦ rw e (drop_local-Safe r e)
  ]

  apply_dels-Safe :
      (names : List Text) → Triple (Safe []) (apply_dels cl sv table names) (λ _. Safe []) There
  unfolding apply_dels
  apply_dels-Safe [] = pure-Triple tt (λ d h. h)
  apply_dels-Safe (b ∷ names) =
      >>=-Triple (gets-Safe [] (λ d. rel_for_blob b d.state))
        λ r. >>-Triple (del_rel-Safe r) (apply_dels-Safe names)

  forget_file-There : (r : Text) → Keeps There (forget_file {cl = cl} r)
  unfolding forget_file
  forget_file-There r = record { at = λ d h. h }

  forget_all-There : (names : List Text) → Keeps There (forget_all cl sv names)
  unfolding forget_all
  forget_all-There [] = pure-Keeps tt
  forget_all-There (r ∷ names) = >>-Keeps (forget_file-There r) (forget_all-There names)

  abbrev pub effects_with : Effects → Exec (Device cl) (Option KeyTable)
  effects_with e = do
    apply_puts cl sv s table (into_keys e.puts)
    apply_dels cl sv table (into_keys e.dels)
    lost ← gets (λ d. clobbered cl sv table e.dels d.files d.state.files)
    if e.manifest_changed then forget_all cl sv lost else pure tt
    pure (some table)

  pub effects_with-There :
      (e : Effects) → IsSorted e.puts → Triple (Safe e.puts) (effects_with e) (λ _. There) There
  effects_with-There e o = >>-Triple (apply_puts-Safe e.puts o) (
      >>-Triple (apply_dels-Safe (into_keys e.dels)) (
        >>=-Triple (gets-Safe [] (λ d. clobbered cl sv table e.dels d.files d.state.files))
          λ lost. >>-Triple (forgets e lost) (pure-Triple (some table) (λ d h. h))))
    where
      forgets :
          (e : Effects) (lost : List Text)
          → Triple
              (Safe [])
              (if e.manifest_changed then forget_all cl sv lost else pure tt)
              (λ _. There)
              There
      forgets e lost = record {
        at = λ d h.
            (Keeps-Triple {R = There}
                (if-Keeps e.manifest_changed (forget_all-There lost) (pure-Keeps tt)) (λ d h. h)).at
              d h.0;
      }
