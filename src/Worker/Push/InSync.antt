-- ===== src/Worker/Push/InSync.antt =====
-- sync_worker.rs: after a push the state has the hashes of the files on the disk, and a second push does
-- nothing.
use tuskd.Prelude.{
  Bool, true, false, not, Option, none, some, List, [], ◌∷◌, ◌≡◌, refl, ap, sym, ◌∙◌, ◌==◌, ◌&&◌,
  ◌||◌, arith, Bool-cases, inl, inr, if◌then◌else◌,
}
use tuskd.Text.{Text, Text_eq, text_eq_iff}
use tuskd.BTreeMap.{BTreeMap, lookup}
use tuskd.BTreeMap.Order.{IsSorted}
use tuskd.Errors.{ok}
use tuskd.Exec.{Exec}
use tuskd.Exec.Triples.{After-ok, Triple, >>=-Triple, >>-Triple, Keeps-Triple, pure-Triple}
use tuskd.Journal.{Services, content_hash}
use tuskd.Cloud.Crypto.{KeyTable, seal}
use tuskd.Cloud.Service.{Cloud}
use package.tuskd.Worker.State.{FileState, Session, Device, known, manifest_name}
use package.tuskd.Worker.Scan.{vault_files}
use package.tuskd.Worker.Pull.{is_some, fetch_table, table_or_empty}
use package.tuskd.Worker.Pull.Files.{fetch_table-Keeps}
use package.tuskd.Worker.Push.{
  Batch, changed, deleted, push_phase, push_changes, table_for, rekey_needed, no_batch, is_nil,
  put_manifest, announce, stale,
}
use tuskd.Exec.Triples.{Anything}
use package.tuskd.Worker.Push.Hashes.{
  Hashes, hash_of, uploaded, cleared, Knows, outside-Knows, lift-Knows, upload_all-Knows,
  tombstone_all-Knows, rekey_all-Knows,
}
use package.tuskd.Worker.Push.Diff.{
  uploaded_lem, cleared_lem, lookup-changed, changed-IsSorted, among-deleted, or_hash, if_changed,
  vault_files-IsSorted,
}

module _ (hash : Text → Text) (disk : BTreeMap Text) (files : BTreeMap FileState) where
  abbrev pushed : Hashes
  pushed =
      cleared (deleted disk files)
        (uploaded hash (changed hash files disk) (λ r. hash_of (lookup r files)))

  by_cases :
      (on_disk : Option Text) (f : Option FileState)
      → (if is_some f && not (is_some on_disk)
          then none
          else or_hash hash (if_changed hash files f on_disk) (hash_of f))
        ≡ or_hash hash on_disk none
  by_cases none none = refl
  by_cases none (some f) = refl
  by_cases (some bytes) none = refl
  by_cases (some bytes) (some f) = elim (Bool-cases (hash bytes == f.hash)) [
    | inl e ↦ rw e (ap some (sym ((text_eq_iff (hash bytes) f.hash).0 e)))
    | inr e ↦ rw e refl
  ]

  pushed_lem : IsSorted disk → (r : Text) → pushed r ≡ or_hash hash (lookup r disk) none
  pushed_lem s r =
      cleared_lem (deleted disk files) _ r
      ∙ rw
          (
            among-deleted hash files r disk files,
            uploaded_lem hash (changed hash files disk) (λ r. hash_of (lookup r files)) r
                (changed-IsSorted hash files disk s),
            lookup-changed hash files r disk s,
          )
          (by_cases (lookup r disk) (lookup r files))

module _ (cl : Cloud) (sv : Services) (s : Session) where
  module _ (disk : BTreeMap Text) where
    abbrev K : Hashes → Device cl → Type 0
    K = Knows cl sv s disk

    fetch-Knows : (hs : Hashes) → Triple (K hs) (fetch_table cl s) (λ _. K hs) Anything
    fetch-Knows hs =
        Keeps-Triple
          (fetch_table-Keeps cl
            (λ now files. ((r : Text) → hash_of (lookup r files) ≡ hs r) × (now ≡ disk)) s)
          (λ d h. tt)

    table_for-Knows :
        (hs : Hashes) (cache : Option KeyTable)
        → Triple (K hs) (table_for cl sv s cache) (λ _. K hs) Anything
    table_for-Knows hs (some table) = pure-Triple table (λ d h. h)
    table_for-Knows hs none =
        >>=-Triple (fetch-Knows hs) λ t. pure-Triple (table_or_empty t) (λ d h. h)

    put_manifest-Knows :
        (hs : Hashes) (table : KeyTable)
        → Triple (K hs) (put_manifest cl sv s table) (λ _. K hs) Anything
    unfolding put_manifest
    put_manifest-Knows hs table =
        >>=-Triple (outside-Knows cl sv s disk hs (seal cl.ciphers table s.rmk s.config.repo_id))
          λ sealed. outside-Knows cl sv s disk hs (cl.storage.put manifest_name sealed)

    announce-Knows :
        (hs : Hashes) (b : Batch) → Triple (K hs) (announce cl sv s b) (λ _. K hs) Anything
    unfolding announce
    announce-Knows hs b = >>=-Triple (lift-Knows cl sv s disk hs _) λ payload.
        >>=-Triple (outside-Knows cl sv s disk hs (cl.append_op payload))
          λ seq. pure-Triple tt (λ d h. h)

    if-Knows :
        {A : Type 0} (hs : Hashes) (b : Bool) {m n : Exec (Device cl) A}
        → Triple (K hs) m (λ _. K hs) Anything
        → Triple (K hs) n (λ _. K hs) Anything
        → Triple (K hs) (if b then m else n) (λ _. K hs) Anything
    if-Knows hs true tm tn = tm
    if-Knows hs false tm tn = tn

    push_changes-Knows :
        (hs : Hashes) (files : List (Text × Text)) (gone : List Text) (rekeyed : Bool)
        (cache : Option KeyTable)
        → Triple
            (K hs)
            (push_changes cl sv s files gone rekeyed cache)
            (λ _. K (cleared gone (uploaded (content_hash sv) files hs)))
            Anything
    unfolding push_changes
    push_changes-Knows hs files gone rekeyed cache =
        let after : Hashes = cleared gone (uploaded (content_hash sv) files hs) in
        >>=-Triple (table_for-Knows hs cache) λ table.
          >>=-Triple (upload_all-Knows cl sv s disk files hs (no_batch table)) λ b.
            >>=-Triple (tombstone_all-Knows cl sv s disk gone _ b) λ b.
              >>=-Triple
                (if-Knows after rekeyed
                  (rekey_all-Knows cl sv s disk (stale cl sv s b.table) after b)
                  (pure-Triple b (λ d h. h)))
                λ b.
                  >>-Triple
                    (if-Knows after b.manifest_dirty (put_manifest-Knows after b.table)
                      (pure-Triple tt (λ d h. h)))
                    (>>-Triple
                      (if-Knows after (not (is_nil b.put_names) || not (is_nil b.del_names))
                        (announce-Knows after b) (pure-Triple tt (λ d h. h)))
                      (pure-Triple (some b.table) (λ d h. h)))

  -- The state has the hash of each file that is synced, and of no other; the files are as they were.
  pub record InSync (before after : Device cl) : Type 0 where
    pub hashes :
        (r : Text)
        → hash_of (known r after)
          ≡ or_hash (content_hash sv) (lookup r (vault_files before.files)) none
    pub files : after.files ≡ before.files

  is_nil-eq : {A : Type 0} (l : List A) → is_nil l ≡ true → l ≡ []
  is_nil-eq [] h = refl
  is_nil-eq (a ∷ l) h = cc

  and_left : (a b c : Bool) → (a && b && c) ≡ true → a ≡ true
  and_left a b c h = ground arith

  and_right : (a b c : Bool) → (a && b && c) ≡ true → b ≡ true
  and_right a b c h = ground arith

  -- Where nothing is to be pushed, the state has the hashes already.
  nothing_to_push :
      (disk : BTreeMap Text) (files : BTreeMap FileState) (r : Text)
      → IsSorted disk
      → changed (content_hash sv) files disk ≡ []
      → deleted disk files ≡ []
      → hash_of (lookup r files) ≡ or_hash (content_hash sv) (lookup r disk) none
  unfolding cleared uploaded
  nothing_to_push disk files r o c g =
      let all = pushed_lem (content_hash sv) disk files o r in rw (c, g) at all

  changes-InSync :
      (cache t : Option KeyTable) (d : Device cl)
      → IsSorted d.files
      → (push_changes cl sv s
          (changed (content_hash sv) d.state.files (vault_files d.files))
          (deleted (vault_files d.files) d.state.files)
          (rekey_needed cl sv s d.state.generation)
          cache
          d).0
        ≡ ok t
      → InSync d
          (push_changes cl sv s
            (changed (content_hash sv) d.state.files (vault_files d.files))
            (deleted (vault_files d.files) d.state.files)
            (rekey_needed cl sv s d.state.generation)
            cache
            d).1
  changes-InSync cache t d o h =
      let after =
        After-ok _ Anything _
          ((push_changes-Knows d.files (λ r. hash_of (known r d)) _ _ _ cache).at d
            (λ r. refl, refl))
          h in
      record {
        hashes = λ r.
            after.0 r
            ∙ pushed_lem (content_hash sv) (vault_files d.files) d.state.files
                (vault_files-IsSorted d.files o) r;
        files = after.1;
      }

  -- A push that succeeds leaves the state with the hash of each file that is synced, and of no other, and
  -- the files as they were.
  pub push_phase-InSync :
      (cache t : Option KeyTable) (d : Device cl)
      → IsSorted d.files
      → (push_phase cl sv s cache d).0 ≡ ok t
      → InSync d (push_phase cl sv s cache d).1
  unfolding push_phase
  push_phase-InSync cache t d o h =
      elim (Bool-cases
        (is_nil files && is_nil gone && not (rekey_needed cl sv s d.state.generation))) [
          | inl e ↦ rw e (record {
            hashes = λ r.
                nothing_to_push (vault_files d.files) d.state.files r
                  (vault_files-IsSorted d.files o) (is_nil-eq files (and_left _ _ _ e))
                  (is_nil-eq gone (and_right _ _ _ e));
            files = refl;
          })
          | inr e ↦ rw e (changes-InSync cache t d o (rw e at h))
        ]
    where
      files : List (Text × Text)
      files = changed (content_hash sv) d.state.files (vault_files d.files)

      gone : List Text
      gone = deleted (vault_files d.files) d.state.files
