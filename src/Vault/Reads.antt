-- ===== src/Vault/Reads.antt =====
-- vault.rs: what is read back after a write.
use tuskd.Prelude.{
  Option, none, some, List, [], ◌≡◌, refl, ap, sym, ◌∙◌, ◌==◌, if◌then◌else◌, ==-refl,
}
use tuskd.Text.{Text, Text_eq}
use tuskd.Errors.{ok, err, not_found, no_record}
use tuskd.Exec.{Ends, Ends-bind, Ends-mono}
use tuskd.Floats.{Floats}
use tuskd.Record.Fields.{Record}
use tuskd.Record.Markdown.{to_markdown, from_markdown}
use tuskd.Record.Roundtrip.{IsStorable, from-to_markdown}
use tuskd.Journal.{OpKind, Services, Journal, next_fault}
use tuskd.Journal.Chain.{append_fine}
use package.tuskd.Vault.Paths.{FilePath, FilePath_eq, file_name, path_for}
use package.tuskd.Vault.Store.{
  VaultStore, content_at, put_file, drop_file, change, find_path, journal_op, write_file, write,
  load, get, forget, attached,
}
use package.tuskd.Vault.Files.{Alone, content_at-put_file, find_in-put_file, find_in-drop_file}

abbrev pub NoFault : Option Journal → Type 0
NoFault none = Unit {0}
NoFault (some j) = j.faults ≡ []

-- No failing write is ahead, of the files and of the journal.
pub record IsCalm (v : VaultStore) : Type 0 where
  pub no_failure : v.writes ≡ []
  pub no_fault : NoFault v.journal

-- A calm store with these files.
pub record Holds (files : List (FilePath × Text)) (v : VaultStore) : Type 0 where
  pub same : v.files ≡ files
  pub calm : IsCalm v

pub found_self :
    (p : FilePath) (text : Text) (files : List (FilePath × Text))
    → (if p == p then some text else content_at p files) ≡ some text
found_self p text files = rw (==-refl p) refl

module _ (sv : Services) where
  attached-Holds :
      (kind : OpKind) (rel : Text) (hash : Option Text) (o : Option Journal)
      (files : List (FilePath × Text)) (v : VaultStore)
      → NoFault o
      → Holds files v
      → Ends (λ u. Holds files) (attached sv kind rel hash o v)
  attached-Holds kind rel hash none files v n h = h
  attached-Holds kind rel hash (some j) files v n h =
      rw (append_fine sv kind rel hash j (ap next_fault n)) (record {
        same = h.same;
        calm = record { no_failure = h.calm.no_failure; no_fault = rw n refl };
      })

  -- The journal's entry leaves the files alone.
  pub journal_op-Holds :
      (kind : OpKind) (p : FilePath) (content : Option Text) (files : List (FilePath × Text))
      (v : VaultStore)
      → Holds files v
      → Ends (λ u. Holds files) (journal_op sv kind p content v)
  unfolding journal_op
  journal_op-Holds kind p content files v h =
      attached-Holds kind _ _ v.journal files v h.calm.no_fault h

  pub change-Holds :
      (f : List (FilePath × Text) → List (FilePath × Text)) (files : List (FilePath × Text))
      (v : VaultStore)
      → Holds files v
      → Ends (λ u. Holds (f files)) (change f v)
  unfolding change
  change-Holds f files v h = rw h.calm.no_failure (record {
    same = ap f h.same;
    calm = record { no_failure = refl; no_fault = h.calm.no_fault };
  })

  module _ {fl : Floats} where
    abbrev pub filed : Record fl sv.chrono → List (FilePath × Text) → List (FilePath × Text)
    filed r = put_file (path_for fl sv.chrono r) (to_markdown fl sv.chrono r)

    pub write_file-Holds :
        (r : Record fl sv.chrono) (files : List (FilePath × Text)) (v : VaultStore)
        → Holds files v
        → Ends
            (λ pc w.
              (pc ≡ (path_for fl sv.chrono r, to_markdown fl sv.chrono r))
              × Holds (filed r files) w)
            (write_file sv fl r v)
    unfolding write_file
    write_file-Holds r files v h =
        Ends-bind _ _ (change (filed r) v) _ (change-Holds (filed r) files v h) λ u w k. (refl, k)

    pub write-Holds :
        (r : Record fl sv.chrono) (files : List (FilePath × Text)) (v : VaultStore)
        → Holds files v
        → Ends (λ p w. (p ≡ path_for fl sv.chrono r) × Holds (filed r files) w) (write sv fl r v)
    unfolding write
    write-Holds r files v h =
        Ends-bind _ _ (write_file sv fl r v) _ (write_file-Holds r files v h) λ pc w k.
          Ends-bind _ _ (journal_op sv OpKind.put pc.0 (some pc.1) w) _
            (journal_op-Holds OpKind.put pc.0 (some pc.1) (filed r files) w k.1)
            λ u x l. (ap (λ y. y.0) k.0, l)

    pub get-found :
        (id : Text) (p : FilePath) (r : Record fl sv.chrono) (v : VaultStore)
        → find_path id v ≡ some p
        → load sv fl p v ≡ ok r
        → get sv fl id v ≡ (ok (p, r), v)
    unfolding get
    get-found id p r v f l = rw (f, l) refl

    pub load-found :
        (p : FilePath) (text : Text) (v : VaultStore)
        → content_at p v.files ≡ some text
        → load sv fl p v ≡ from_markdown fl sv.chrono text
    unfolding load
    load-found p text v e = rw e refl

    -- A record in its file, with a name that no other file has, is got by its id.
    pub get-filed :
        (r : Record fl sv.chrono) (files : List (FilePath × Text)) (v : VaultStore)
        → IsStorable r
        → Alone (file_name r.id) (path_for fl sv.chrono r) files
        → v.files ≡ filed r files
        → get sv fl r.id v ≡ (ok (path_for fl sv.chrono r, r), v)
    unfolding find_path load path_for
    get-filed r files v s a e =
        let p = path_for fl sv.chrono r in
        let text = to_markdown fl sv.chrono r in
        get-found r.id p r v (rw e (find_in-put_file (file_name r.id) p text files refl a)) (
          load-found p text v
            (ap (content_at p) e ∙ content_at-put_file p p text files ∙ found_self p text files)
          ∙ from-to_markdown r s)

    -- A record that can be stored, and whose file name no other file has, is got by its id after it was
    -- written, when no write fails.
    pub get-write :
        (r : Record fl sv.chrono) (v : VaultStore)
        → IsStorable r
        → Alone (file_name r.id) (path_for fl sv.chrono r) v.files
        → IsCalm v
        → Ends (λ p w. get sv fl r.id w ≡ (ok (p, r), w)) (write sv fl r v)
    get-write r v s a c =
        Ends-mono _ _ (write sv fl r v) (write-Holds r v.files v (record { same = refl; calm = c }))
          λ p w h. get-filed r v.files w s a h.1.same ∙ ap (λ q. (ok (q, r), w)) (sym h.0)

    not_there :
        (id : Text) (v : VaultStore)
        → find_path id v ≡ none
        → get sv fl id v ≡ (err (not_found (no_record id)), v)
    unfolding get
    not_there id v f = rw f refl

    -- A record that is got by its id is gone after `forget`, when no write fails and no other file has
    -- its name.
    pub get-forget :
        (id : Text) (p : FilePath) (r : Record fl sv.chrono) (v : VaultStore)
        → get sv fl id v ≡ (ok (p, r), v)
        → Alone (file_name id) p v.files
        → IsCalm v
        → Ends (λ u w. get sv fl id w ≡ (err (not_found (no_record id)), w)) (forget sv fl id v)
    unfolding forget find_path
    get-forget id p r v g a c = rw g (
        Ends-bind _ _ (change (drop_file p) v) _
          (change-Holds (drop_file p) v.files v (record { same = refl; calm = c }))
          λ u w h.
            Ends-mono _ _ (journal_op sv OpKind.tombstone p none w)
              (journal_op-Holds OpKind.tombstone p none (drop_file p v.files) w h)
              λ u x k. not_there id x (rw k.same (find_in-drop_file (file_name id) p v.files a)))
