-- ===== src/Worker/Push/Hashes.antt =====
-- sync_worker.rs: what `push_phase` does to the hashes that are known of the files.
use tuskd.Prelude.{
  Bool, true, false, Option, none, some, List, [], ◌∷◌, ◌++◌, ◌≡◌, refl, ap, ◌∙◌, ◌==◌, Bool-cases,
  inl, inr, if◌then◌else◌,
}
use tuskd.Text.{Text, Text_eq, text_eq_iff}
use tuskd.BTreeMap.{BTreeMap, lookup, insert, remove, lookup-insert, lookup-remove}
use tuskd.Errors.{Result, ok_or, other, lost_entry}
use tuskd.Exec.{lift}
use tuskd.Exec.Keeps.{lift-Keeps}
use tuskd.Exec.Triples.{
  After, Triple, >>=-Triple, >>-Triple, Keeps-Triple, pure-Triple, gets-Triple, Anything,
}
use tuskd.Journal.{Services, content_hash}
use tuskd.Cloud.Crypto.{ObjectEntry, SyncExec, entry, dek_of, encrypt_object, decrypt_object}
use tuskd.Cloud.Service.{Cloud}
use package.tuskd.Worker.State.{
  FileState, CycleReport, Session, Device, known, outside, count, record_file, forget_file,
  sync_err, one_pushed, one_deleted_remote,
}
use package.tuskd.Worker.Push.{
  Batch, upload, upload_all, delete_entry, tombstone, tombstone_all, rename_known, rekey, rekey_all,
  moved,
}

abbrev pub hash_of : Option FileState → Option Text
hash_of none = none
hash_of (some f) = some f.hash

abbrev pub Hashes : Type 0
Hashes = Text → Option Text

abbrev pub updated : Text → Option Text → Hashes → Hashes
updated rel o hs r = if rel == r then o else hs r

unfoldable pub uploaded : (Text → Text) → List (Text × Text) → Hashes → Hashes
uploaded hash [] hs = hs
uploaded hash ((rel, bytes) ∷ files) hs = uploaded hash files (updated rel (some (hash bytes)) hs)

unfoldable pub cleared : List Text → Hashes → Hashes
cleared [] hs = hs
cleared (rel ∷ rels) hs = cleared rels (updated rel none hs)

module _ (cl : Cloud) (sv : Services) (s : Session) (disk : BTreeMap Text) where
  -- The hashes known of the files, and the files themselves.
  abbrev pub Knows : Hashes → Device cl → Type 0
  Knows hs d = ((r : Text) → hash_of (known r d) ≡ hs r) × (d.files ≡ disk)

  pub outside-Knows :
      {A : Type 0} (hs : Hashes) (step : SyncExec cl.World A)
      → Triple (Knows hs) (outside step) (λ _. Knows hs) Anything
  outside-Knows hs step = Keeps-Triple (record { at = λ d h. h }) (λ d h. tt)

  pub lift-Knows :
      {A : Type 0} (hs : Hashes) (r : Result A)
      → Triple (Knows hs) (lift r) (λ _. Knows hs) Anything
  lift-Knows hs r = Keeps-Triple (lift-Keeps r) (λ d h. tt)

  count-Knows :
      (hs : Hashes) (f : CycleReport → CycleReport)
      → Triple (Knows hs) (count {cl = cl} f) (λ _. Knows hs) Anything
  count-Knows hs f = Keeps-Triple (record { at = λ d h. h }) (λ d h. tt)

  record-Knows :
      (hs : Hashes) (rel : Text) (f : FileState)
      → Triple
          (Knows hs)
          (record_file {cl = cl} rel f)
          (λ _. Knows (updated rel (some f.hash) hs))
          Anything
  unfolding record_file
  record-Knows hs rel f = record {
    at = λ d h. (λ r. rw (lookup-insert r rel f d.state.files) (go r (rel == r) d (h.0 r)), h.1);
  }
    where
      go :
          (r : Text) (b : Bool) (d : Device cl)
          → hash_of (known r d) ≡ hs r
          → hash_of (if b then some f else known r d) ≡ (if b then some f.hash else hs r)
      go r true d h = refl
      go r false d h = h

  forget-Knows :
      (hs : Hashes) (rel : Text)
      → Triple (Knows hs) (forget_file {cl = cl} rel) (λ _. Knows (updated rel none hs)) Anything
  unfolding forget_file
  forget-Knows hs rel = record {
    at = λ d h. (λ r. rw (lookup-remove r rel d.state.files) (go r (rel == r) d (h.0 r)), h.1);
  }
    where
      go :
          (r : Text) (b : Bool) (d : Device cl)
          → hash_of (known r d) ≡ hs r
          → hash_of (if b then none else known r d) ≡ (if b then none else hs r)
      go r true d h = refl
      go r false d h = h

  upload-Knows :
      (hs : Hashes) (rel bytes : Text) (b : Batch)
      → Triple
          (Knows hs)
          (upload cl sv s rel bytes b)
          (λ _. Knows (updated rel (some (content_hash sv bytes)) hs))
          Anything
  unfolding upload
  upload-Knows hs rel bytes b =
      >>=-Triple (outside-Knows hs (entry cl.ciphers s.rmk rel b.table)) λ next.
        >>=-Triple (lift-Knows hs (sync_err (dek_of cl.ciphers next.0))) λ dek.
          >>=-Triple (outside-Knows hs (encrypt_object cl.ciphers dek s.config.repo_id rel bytes))
            λ blob. >>-Triple (outside-Knows hs (cl.storage.put next.0.blob blob)) (
              >>-Triple
                (record-Knows hs rel (record { hash = content_hash sv bytes; blob = next.0.blob }))
                (>>-Triple (count-Knows (updated rel (some (content_hash sv bytes)) hs) one_pushed)
                  (pure-Triple _ (λ d h. h))))

  pub upload_all-Knows :
      (files : List (Text × Text)) (hs : Hashes) (b : Batch)
      → Triple
          (Knows hs)
          (upload_all cl sv s files b)
          (λ _. Knows (uploaded (content_hash sv) files hs))
          Anything
  unfolding upload_all uploaded
  upload_all-Knows [] hs b = pure-Triple b (λ d h. h)
  upload_all-Knows ((rel, bytes) ∷ files) hs b =
      >>=-Triple (upload-Knows hs rel bytes b) λ b. upload_all-Knows files _ b

  delete_entry-Knows :
      (hs : Hashes) (rel : Text) (o : Option ObjectEntry) (b : Batch)
      → Triple (Knows hs) (delete_entry cl sv s rel o b) (λ _. Knows hs) Anything
  delete_entry-Knows hs rel none b = pure-Triple b (λ d h. h)
  delete_entry-Knows hs rel (some e) b =
      >>-Triple (outside-Knows hs (cl.storage.delete e.blob))
        (>>-Triple (count-Knows hs one_deleted_remote) (pure-Triple _ (λ d h. h)))

  tombstone-Knows :
      (hs : Hashes) (rel : Text) (b : Batch)
      → Triple (Knows hs) (tombstone cl sv s rel b) (λ _. Knows (updated rel none hs)) Anything
  unfolding tombstone
  tombstone-Knows hs rel b =
      >>=-Triple (delete_entry-Knows hs rel (lookup rel b.table) b)
        λ b. >>-Triple (forget-Knows hs rel) (pure-Triple b (λ d h. h))

  pub tombstone_all-Knows :
      (rels : List Text) (hs : Hashes) (b : Batch)
      → Triple (Knows hs) (tombstone_all cl sv s rels b) (λ _. Knows (cleared rels hs)) Anything
  unfolding tombstone_all cleared
  tombstone_all-Knows [] hs b = pure-Triple b (λ d h. h)
  tombstone_all-Knows (rel ∷ rels) hs b =
      >>=-Triple (tombstone-Knows hs rel b) λ b. tombstone_all-Knows rels _ b

  renamed :
      (hs : Hashes) (rel blob : Text) (f : FileState) (d : Device cl)
      → Knows hs d
      → some f ≡ known rel d
      → After (λ _. Knows hs) Anything (record_file {cl = cl} rel (moved blob f) d)
  unfolding record_file
  renamed hs rel blob f d h e = (moved_hash, h.1)
    where
      moved_hash : (r : Text) → hash_of (lookup r (insert rel (moved blob f) d.state.files)) ≡ hs r
      moved_hash r =
          rw (lookup-insert r rel (moved blob f) d.state.files) (elim (Bool-cases (rel == r)) [
            | inl q ↦ rw q (ap hash_of e ∙ h.0 rel ∙ ap hs ((text_eq_iff rel r).0 q))
            | inr q ↦ rw q (h.0 r)
          ])

  -- A file keeps its hash where its blob has a new name.
  moved-Knows :
      (hs : Hashes) (rel blob : Text) (o : Option FileState)
      → Triple
          (λ d. Knows hs d × (o ≡ known rel d))
          (rename_known cl sv s rel blob o)
          (λ _. Knows hs)
          Anything
  moved-Knows hs rel blob none = pure-Triple tt (λ d h. h.0)
  moved-Knows hs rel blob (some f) = record { at = λ d h. renamed hs rel blob f d h.0 h.1 }

  rekey-Knows :
      (hs : Hashes) (rel old_name : Text) (b : Batch)
      → Triple (Knows hs) (rekey cl sv s rel old_name b) (λ _. Knows hs) Anything
  unfolding rekey
  rekey-Knows hs rel old_name b =
      >>=-Triple (lift-Knows hs (ok_or (lookup rel b.table) (other (lost_entry rel)))) λ old.
        >>=-Triple (outside-Knows hs (cl.storage.get old_name)) λ blob.
          >>=-Triple (lift-Knows hs (sync_err (dek_of cl.ciphers old))) λ old_dek.
            >>=-Triple
              (lift-Knows hs
                (sync_err (decrypt_object cl.ciphers old_dek s.config.repo_id rel blob)))
              λ text.
                >>=-Triple (outside-Knows hs (entry cl.ciphers s.rmk rel (remove rel b.table)))
                  λ next. >>=-Triple (lift-Knows hs (sync_err (dek_of cl.ciphers next.0))) λ dek.
                    >>=-Triple
                      (outside-Knows hs (encrypt_object cl.ciphers dek s.config.repo_id rel text))
                      λ sealed. >>-Triple (outside-Knows hs (cl.storage.put next.0.blob sealed)) (
                        >>-Triple (outside-Knows hs (cl.storage.delete old_name)) (
                          >>=-Triple (gets-Triple (known rel)) λ f.
                            >>-Triple (moved-Knows hs rel next.0.blob f) (
                              >>-Triple (count-Knows hs one_pushed) (
                                pure-Triple
                                  (record {
                                    table = next.1;
                                    manifest_dirty = true;
                                    put_names = b.put_names ++ next.0.blob ∷ [];
                                    del_names = b.del_names ++ old_name ∷ [];
                                  })
                                  (λ d h. h)))))

  pub rekey_all-Knows :
      (rels : List (Text × Text)) (hs : Hashes) (b : Batch)
      → Triple (Knows hs) (rekey_all cl sv s rels b) (λ _. Knows hs) Anything
  unfolding rekey_all
  rekey_all-Knows [] hs b = pure-Triple b (λ d h. h)
  rekey_all-Knows ((rel, old_name) ∷ rels) hs b =
      >>=-Triple (rekey-Knows hs rel old_name b) λ b. rekey_all-Knows rels hs b
