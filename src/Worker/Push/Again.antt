-- ===== src/Worker/Push/Again.antt =====
-- sync_worker.rs: a push right after a push has nothing to do.
use tuskd.Prelude.{
  true, false, Option, none, some, [], ◌∷◌, ◌≡◌, refl, ap, sym, subst, ◌∙◌, arith, inl, inr,
  ==-refl,
}
use tuskd.Text.{Text, Text_eq, text_eq_iff}
use tuskd.Text.Number.{ℤ_eq}
use tuskd.BTreeMap.{BTreeMap, lookup}
use tuskd.BTreeMap.Order.{IsSorted, Has, Has-lookup}
use tuskd.Errors.{ok}
use tuskd.Journal.{Services, content_hash}
use tuskd.Cloud.Crypto.{KeyTable}
use tuskd.Cloud.Service.{Cloud}
use package.tuskd.Worker.State.{FileState, Session, Device}
use package.tuskd.Worker.Scan.{vault_files}
use package.tuskd.Worker.Pull.{is_some}
use package.tuskd.Worker.Push.{changed, deleted, has_changed, push_phase}
use package.tuskd.Worker.Push.Hashes.{hash_of}
use package.tuskd.Worker.Push.Diff.{or_hash, vault_files-IsSorted}
use package.tuskd.Worker.Push.InSync.{InSync, push_phase-InSync}

module _ (hash : Text → Text) (disk : BTreeMap Text) (files : BTreeMap FileState)
    (same : (r : Text) → hash_of (lookup r files) ≡ or_hash hash (lookup r disk) none) where
  unchanged :
      (bytes : Text) (o : Option FileState)
      → hash_of o ≡ some (hash bytes)
      → has_changed hash bytes o ≡ false
  unchanged bytes none h = cc
  unchanged bytes (some f) h =
      let e : hash bytes ≡ f.hash = cc in rw ((text_eq_iff (hash bytes) f.hash).1 e) refl

  none_changed :
      (part : BTreeMap Text)
      → ((k v : Text) → Has k v part → lookup k disk ≡ some v)
      → changed hash files part ≡ []
  unfolding changed
  none_changed [] h = refl
  none_changed ((k, bytes) ∷ part) h =
      rw
        (unchanged bytes (lookup k files)
          (same k ∙ ap (λ o. or_hash hash o none) (h k bytes (inl (refl, refl)))))
        (none_changed part (λ k v m. h k v (inr m)))

  on_disk :
      (o : Option FileState) (p : Option Text)
      → is_some o ≡ true
      → hash_of o ≡ or_hash hash p none
      → is_some p ≡ true
  on_disk none p t h = cc
  on_disk (some f) none t h = cc
  on_disk (some f) (some bytes) t h = refl

  none_deleted :
      (part : BTreeMap FileState)
      → ((k : Text) (f : FileState) → Has k f part → is_some (lookup k files) ≡ true)
      → deleted disk part ≡ []
  unfolding deleted
  none_deleted [] h = refl
  none_deleted ((k, f) ∷ part) h =
      rw (on_disk (lookup k files) (lookup k disk) (h k f (inl (refl, refl))) (same k))
        (none_deleted part (λ k f m. h k f (inr m)))

Has-some :
    (k : Text) (f : FileState) (files : BTreeMap FileState)
    → Has k f files
    → is_some (lookup k files) ≡ true
unfolding lookup
Has-some k f [] h = elim h [ ]
Has-some k f ((j, g) ∷ files) (inl (p, q)) = rw ((text_eq_iff j k).1 p) refl
Has-some k f ((j, g) ∷ files) (inr m) = ground (arith, Has-some k f files m)

module _ (cl : Cloud) (sv : Services) (s : Session) where
  idle :
      (cache : Option KeyTable) (d : Device cl)
      → IsSorted d.files
      → d.state.generation ≡ s.generation
      → InSync cl sv s d d
      → push_phase cl sv s cache d ≡ (ok cache, d)
  unfolding push_phase
  idle cache d o g y =
      rw
        (
          none_changed (content_hash sv) (vault_files d.files) d.state.files y.hashes
              (vault_files d.files)
              (λ k v m. Has-lookup k v (vault_files d.files) (vault_files-IsSorted d.files o) m),
          none_deleted (content_hash sv) (vault_files d.files) d.state.files y.hashes d.state.files
              (λ k f m. Has-some k f d.state.files m),
          g,
          ==-refl s.generation,
        )
        refl

  -- Where a push has succeeded under the generation of the session, a second push with no change between
  -- returns at once: nothing is asked of the service, and the device is as it was.
  pub push_again :
      (cache t next : Option KeyTable) (d : Device cl)
      → IsSorted d.files
      → (push_phase cl sv s cache d).0 ≡ ok t
      → (push_phase cl sv s cache d).1.state.generation ≡ s.generation
      → push_phase cl sv s next (push_phase cl sv s cache d).1
        ≡ (ok next, (push_phase cl sv s cache d).1)
  push_again cache t next d o h g =
      let y = push_phase-InSync cl sv s cache t d o h in
      idle next _ (subst IsSorted (sym y.files) o) g (record {
        hashes = λ r.
            y.hashes r
            ∙ ap (λ f. or_hash (content_hash sv) (lookup r (vault_files f)) none) (sym y.files);
        files = refl;
      })
