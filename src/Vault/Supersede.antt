-- ===== src/Vault/Supersede.antt =====
-- vault.rs: `invalidate` and `supersede`.
use tuskd.Prelude.{ℕ, suc, ==-false, some, List, ◌≡◌, ◌≢◌, refl, ap, sym, subst, ◌∙◌}
use tuskd.Text.{Text, Text_eq}
use tuskd.Errors.{ok}
use tuskd.Exec.{Ends, Ends-bind, Ends-state}
use tuskd.Floats.{Floats}
use tuskd.Time.{trunc_ms, IsWhole}
use tuskd.Record.Fields.{Record}
use tuskd.Record.Markdown.{to_markdown}
use tuskd.Record.Roundtrip.{IsStorable, from-to_markdown}
use tuskd.Journal.{OpKind, Services}
use package.tuskd.Vault.Paths.{FilePath, file_name, path_for}
use package.tuskd.Vault.Store.{
  VaultStore, find_path, find_in, content_at, journal_op, write_file, write, get, invalidate,
  supersede,
}
use package.tuskd.Vault.Files.{
  Alone, find_in-put_file, content_at-put_file, find_in-put_file_other, Alone-put_file,
  Alone-put_file_self,
}
use package.tuskd.Vault.Reads.{
  IsCalm, Holds, filed, write_file-Holds, write-Holds, journal_op-Holds, get-found, load-found,
  found_self,
}

module _ (sv : Services) {fl : Floats} where
  abbrev pub ended : Record fl sv.chrono → sv.chrono.DateTime → Record fl sv.chrono
  ended r at = record r { invalid_at = some (trunc_ms sv.chrono at) }

  ended-IsStorable :
      (r : Record fl sv.chrono) (at : sv.chrono.DateTime)
      → IsStorable r
      → IsWhole sv.chrono (trunc_ms sv.chrono at)
      → IsStorable (ended r at)
  ended-IsStorable r at s w = record {
    id_plain = s.id_plain;
    scope_valid = s.scope_valid;
    author_plain = s.author_plain;
    created_whole = s.created_whole;
    valid_whole = s.valid_whole;
    invalid_whole = w;
    supersedes_plain = s.supersedes_plain;
    entities_plain = s.entities_plain;
    tags_plain = s.tags_plain;
    trust_prints = s.trust_prints;
    uses_i64 = s.uses_i64;
    successes_prints = s.successes_prints;
    last_used_whole = s.last_used_whole;
    version_i64 = s.version_i64;
    trigger_plain = s.trigger_plain;
  }

  -- A stored record is in its place among the files, alone with its name.
  pub record Stored (r : Record fl sv.chrono) (files : List (FilePath × Text)) : Type 0 where
    pub storable : IsStorable r
    pub alone : Alone (file_name r.id) (path_for fl sv.chrono r) files
    pub named : find_in (file_name r.id) files ≡ some (path_for fl sv.chrono r)
    pub text : content_at (path_for fl sv.chrono r) files ≡ some (to_markdown fl sv.chrono r)

  -- A stored record is got by its id.
  pub get-Stored :
      (r : Record fl sv.chrono) (files : List (FilePath × Text)) (v : VaultStore)
      → Stored r files
      → v.files ≡ files
      → get sv fl r.id v ≡ (ok (path_for fl sv.chrono r, r), v)
  unfolding find_path
  get-Stored r files v s e = get-found sv r.id (path_for fl sv.chrono r) r v (rw e s.named) (
      load-found sv (path_for fl sv.chrono r) (to_markdown fl sv.chrono r) v (rw e s.text)
      ∙ from-to_markdown r s.storable)

  pub Stored-filed :
      (r : Record fl sv.chrono) (files : List (FilePath × Text))
      → IsStorable r
      → Alone (file_name r.id) (path_for fl sv.chrono r) files
      → Stored r (filed sv r files)
  unfolding path_for
  Stored-filed r files s a =
      let p = path_for fl sv.chrono r in
      let t = to_markdown fl sv.chrono r in
      record {
        storable = s;
        alone = Alone-put_file_self (file_name r.id) p t files a;
        named = find_in-put_file (file_name r.id) p t files refl a;
        text = content_at-put_file p p t files ∙ found_self p t files;
      }

  Stored-filed_other :
      (r s : Record fl sv.chrono) (files : List (FilePath × Text))
      → file_name s.id ≢ file_name r.id
      → Stored r files
      → Stored r (filed sv s files)
  unfolding path_for
  Stored-filed_other r s files n h =
      let p = path_for fl sv.chrono s in
      let t = to_markdown fl sv.chrono s in
      record {
        storable = h.storable;
        alone = Alone-put_file (file_name r.id) (path_for fl sv.chrono r) p t files n h.alone;
        named = find_in-put_file_other (file_name r.id) p t files n ∙ h.named;
        text =
            content_at-put_file p (path_for fl sv.chrono r) t files
            ∙ rw (==-false p (path_for fl sv.chrono r) (λ e. n (ap (λ x. x.name) e))) h.text;
      }

  -- The files after `invalidate`.
  pub invalidate-Holds :
      (r : Record fl sv.chrono) (at : sv.chrono.DateTime) (files : List (FilePath × Text))
      (v : VaultStore)
      → Stored r files
      → Holds files v
      → Ends (λ s. Holds (filed sv (ended r at) files)) (invalidate sv fl r.id at v)
  unfolding invalidate
  invalidate-Holds r at files v s h = rw (get-Stored r files v s h.same) (
      Ends-bind _ _ (write_file sv fl (ended r at) v) _ (write_file-Holds sv (ended r at) files v h)
        λ pc w k.
          Ends-bind _ _ (journal_op sv OpKind.patch pc.0 (some pc.1) w) _
            (journal_op-Holds sv OpKind.patch pc.0 (some pc.1) (filed sv (ended r at) files) w k.1)
            λ u x l. l)

  Stored-ended :
      (r : Record fl sv.chrono) (at : sv.chrono.DateTime) (files : List (FilePath × Text))
      → Stored r files
      → IsWhole sv.chrono (trunc_ms sv.chrono at)
      → Stored (ended r at) (filed sv (ended r at) files)
  unfolding path_for
  Stored-ended r at files s t =
      Stored-filed (ended r at) files (ended-IsStorable r at s.storable t) s.alone

  abbrev pub correction : Record fl sv.chrono → Text → Record fl sv.chrono
  correction new old_id = record new { supersedes = some old_id }

  -- The files that `supersede` writes first are those of the new record.
  abbrev pub written : Record fl sv.chrono → Text → VaultStore → VaultStore
  unfolding write
  written new old_id v = (write sv fl (correction new old_id) v).1

  -- After `supersede` both records are got by their ids: the new one names the old one, and the old one
  -- ends at the reading that the clock gives after the new one was written. It succeeds when no write
  -- fails, the old record can be stored, stands in canonical text at its path and alone has its file
  -- name, the new one can be stored, no file elsewhere has its name, which is not that of the old one, and
  -- the readings of the clock are whole milliseconds once cut.
  pub get-supersede :
      (new old : Record fl sv.chrono) (v : VaultStore)
      → Stored old v.files
      → IsStorable (correction new old.id)
      → Alone (file_name new.id) (path_for fl sv.chrono new) v.files
      → file_name new.id ≢ file_name old.id
      → ((n : ℕ) → IsWhole sv.chrono (trunc_ms sv.chrono (sv.now n)))
      → IsCalm v
      → Ends
          (λ r w.
            (get sv fl old.id w ≡ (
              ok (path_for fl sv.chrono old, ended old (sv.now (written new old.id v).calls)),
              w,
            ))
            × (get sv fl new.id w ≡ (ok (path_for fl sv.chrono new, correction new old.id), w)))
          (supersede sv fl new old.id v)
  unfolding supersede path_for
  get-supersede new old v s ns a d t c =
      let next = correction new old.id in
      let files = filed sv next v.files in
      rw (get-Stored old v.files v s refl) (
        Ends-bind _ _ (write sv fl next v) _
          (Ends-state _ (write sv fl next v)
            (write-Holds sv next v.files v (record { same = refl; calm = c })))
          λ p w h.
            let at = sv.now w.calls in
            let kept = Stored-filed_other old next v.files d s in
            let made = Stored-filed next v.files ns a in
            let same : w ≡ (write sv fl next v).1 = h.1 in
            Ends-bind _ _ (invalidate sv fl old.id at (record w { calls = suc w.calls })) _
              (invalidate-Holds old at files (record w { calls = suc w.calls }) kept
                (record {
                  same = h.0.1.same;
                  calm = record {
                    no_failure = h.0.1.calm.no_failure;
                    no_fault = h.0.1.calm.no_fault;
                  };
                }))
              λ x y k. (
                subst
                    (λ (u : VaultStore).
                      get sv fl old.id y
                      ≡ (ok (path_for fl sv.chrono old, ended old (sv.now u.calls)), y))
                    same
                    (get-Stored (ended old at) _ y (Stored-ended old at files kept (t w.calls))
                      k.same),
                get-Stored next _ y
                    (Stored-filed_other next (ended old at) files (λ e. d (sym e)) made) k.same,
              ))
