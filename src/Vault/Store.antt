-- ===== src/Vault/Store.antt =====
-- vault.rs: the state of the store and its operations.
use tuskd.Prelude.{ℕ, suc, Bool, true, Option, none, some, List, [], ◌∷◌, ◌==◌, if◌then◌else◌, ℕ_eq}
use tuskd.Text.{Text, Text_eq}
use tuskd.Text.Number.{ℤ, add_i64}
use tuskd.Errors.{Result, ok, err, io, not_found, no_record, write_failed, ok_or}
use tuskd.Errors.{◌>>=◌ as then_with}
use tuskd.Exec.{Exec, pure, lift, gets, modify, ◌>>=◌, ◌>>◌}
use tuskd.Floats.{Floats}
use tuskd.Scope.{Scope}
use tuskd.Time.{trunc_ms}
use tuskd.Record.Kind.{RecordType}
use tuskd.Record.Fields.{Record}
use tuskd.Record.Markdown.{new_at, to_markdown, from_markdown}
use tuskd.Journal.{OpKind, Services, Journal, append, content_hash}
use tuskd.Journal.Reconcile.{reconcile}
use package.tuskd.Vault.Paths.{FilePath, FilePath_eq, is_record_file, file_name, path_for, rel_text}

-- `files`: the regular files below `memory` with their contents, in the order in which a walk meets
-- them. `writes` says whether the coming changes of files are carried out (all are when it is empty),
-- and `calls` counts the questions to the clock.
pub record VaultStore : Type 0 where
  pub files : List (FilePath × Text)
  pub journal : Option Journal
  pub writes : List Bool
  pub calls : ℕ

unfoldable pub attach_journal : Journal → VaultStore → VaultStore
attach_journal j v = record v { journal = some j }

unfoldable pub content_at : FilePath → List (FilePath × Text) → Option Text
content_at p [] = none
content_at p ((q, text) ∷ files) = if q == p then some text else content_at p files

-- A rename over the file, or a new file.
unfoldable pub put_file : FilePath → Text → List (FilePath × Text) → List (FilePath × Text)
put_file p text [] = (p, text) ∷ []
put_file p text ((q, old) ∷ files) =
    if q == p then (p, text) ∷ files else (q, old) ∷ put_file p text files

unfoldable pub drop_file : FilePath → List (FilePath × Text) → List (FilePath × Text)
drop_file p [] = []
drop_file p ((q, old) ∷ files) = if q == p then drop_file p files else (q, old) ∷ drop_file p files

abbrev pub allowed : List Bool → Bool
allowed [] = true
allowed (b ∷ bs) = b

abbrev pub later : List Bool → List Bool
later [] = []
later (b ∷ bs) = bs

-- A change of the files, where the file system carries it out.
unfoldable pub change :
    (List (FilePath × Text) → List (FilePath × Text)) → Exec VaultStore (Unit {0})
change f v =
    if allowed v.writes
    then (ok tt, record v { files = f v.files; writes = later v.writes })
    else (err (io write_failed), record v { writes = later v.writes })

unfoldable pub find_in : Text → List (FilePath × Text) → Option FilePath
find_in needle [] = none
find_in needle ((p, text) ∷ files) = if p.name == needle then some p else find_in needle files

unfoldable pub find_path : Text → VaultStore → Option FilePath
unfolding find_in file_name
find_path id v = find_in (file_name id) v.files

module _ (sv : Services) where
  abbrev pub attached :
      OpKind → Text → Option Text → Option Journal → VaultStore → Result (Unit {0}) × VaultStore
  attached kind rel hash none v = (ok tt, v)
  attached kind rel hash (some j) v =
      let r = append sv kind rel hash j in
      (elim r.0 [ ok e ↦ ok tt | err e ↦ err e ], record v { journal = some r.1 })

  unfoldable pub journal_op : OpKind → FilePath → Option Text → Exec VaultStore (Unit {0})
  unfolding append rel_text content_hash
  journal_op kind p content v =
      attached kind (rel_text p) (elim content [ none ↦ none | some c ↦ some (content_hash sv c) ])
        v.journal v

  unfoldable pub now : Exec VaultStore sv.chrono.DateTime
  unfolding trunc_ms
  now v = (ok (trunc_ms sv.chrono (sv.now v.calls)), record v { calls = suc v.calls })

  module _ (fl : Floats) where
    abbrev Rec : Type 0
    Rec = Record fl sv.chrono

    unfoldable pub new_record : RecordType → Scope → Text → Text → Exec VaultStore Rec
    unfolding now new_at
    new_record kind scope author body = do
      call ← gets (λ v. v.calls)
      t ← now
      pure (new_at fl sv.chrono (sv.ulid call t) kind scope author t body)

    -- The file and what was written to it.
    unfoldable pub write_file : Rec → Exec VaultStore (FilePath × Text)
    unfolding path_for to_markdown change put_file
    write_file r = do
      let p = path_for fl sv.chrono r
      let content = to_markdown fl sv.chrono r
      change (put_file p content)
      pure (p, content)

    unfoldable pub write : Rec → Exec VaultStore FilePath
    unfolding write_file journal_op
    write r = do (p, content) ← write_file r; journal_op OpKind.put p (some content); pure p

    unfoldable pub load : FilePath → VaultStore → Result Rec
    unfolding content_at from_markdown
    load p v =
        then_with (ok_or (content_at p v.files) (io write_failed))
          λ text. from_markdown fl sv.chrono text

    unfoldable pub get : Text → Exec VaultStore (FilePath × Rec)
    unfolding find_path load
    get id = do
      found ← gets (find_path id)
      p ← lift (ok_or found (not_found (no_record id)))
      loaded ← gets (load p)
      r ← lift loaded
      pure (p, r)

    unfoldable pub walk : List (FilePath × Text) → List (FilePath × Rec)
    unfolding is_record_file from_markdown
    walk [] = []
    walk ((p, text) ∷ files) =
        let rest = walk files in
        if is_record_file p
        then elim (from_markdown fl sv.chrono text) [ ok r ↦ (p, r) ∷ rest | err e ↦ rest ]
        else rest

    unfoldable pub invalidate : Text → sv.chrono.DateTime → Exec VaultStore Rec
    unfolding get write_file journal_op trunc_ms
    invalidate id at = do
      (old, r) ← get id
      let changed = record r { invalid_at = some (trunc_ms sv.chrono at) }
      (p, content) ← write_file changed
      journal_op OpKind.patch p (some content)
      pure changed

    -- The path of the new record, and the record with its `supersedes` set.
    unfoldable pub supersede : Rec → Text → Exec VaultStore (FilePath × Rec)
    unfolding get write invalidate
    supersede new old_id = do
      get old_id
      let changed = record new { supersedes = some old_id }
      p ← write changed
      call ← gets (λ v. v.calls)
      modify (λ v. record v { calls = suc call })
      invalidate old_id (sv.now call)
      pure (p, changed)

    unfoldable pub update_telemetry : Text → ℤ → fl.F64 → sv.chrono.DateTime → Exec VaultStore Rec
    unfolding get write_file journal_op trunc_ms add_i64
    update_telemetry id uses_delta success_delta at = do
      (old, r) ← get id
      let changed = record r {
        uses = add_i64 r.uses uses_delta;
        successes = fl.add_f64 r.successes success_delta;
        last_used = some (trunc_ms sv.chrono at);
      }
      (p, content) ← write_file changed
      journal_op OpKind.patch p (some content)
      pure changed

    unfoldable pub forget : Text → Exec VaultStore (Unit {0})
    unfolding get change drop_file journal_op
    forget id = do (p, r) ← get id; change (drop_file p); journal_op OpKind.tombstone p none

  -- The files that `reconcile` of sync.rs finds, with their hashes.
  unfoldable pub on_disk : List (FilePath × Text) → List (Text × Text)
  unfolding is_record_file rel_text content_hash
  on_disk [] = []
  on_disk ((p, bytes) ∷ files) =
      let rest = on_disk files in
      if is_record_file p then (rel_text p, content_hash sv bytes) ∷ rest else rest

  abbrev reconcile_with : Option Journal → Exec VaultStore ℕ
  reconcile_with none v = (ok 0, v)
  reconcile_with (some j) v =
      let r = reconcile sv (on_disk v.files) j in (r.0, record v { journal = some r.1 })

  unfoldable pub reconcile_vault : Exec VaultStore ℕ
  unfolding reconcile on_disk
  reconcile_vault v = reconcile_with v.journal v
