-- ===== src/Journal/Reconcile.antt =====
-- sync.rs: `reconcile`, from the list of the files on the disk.
use tuskd.Prelude.{ℕ, suc, ◌+◌, Bool, false, Option, none, some, List, [], ◌∷◌, ◌==◌, if◌then◌else◌}
use tuskd.Text.{Text, Text_eq}
use tuskd.Exec.{Exec, pure, lift, gets, ◌>>=◌, ◌>>◌}
use tuskd.BTreeMap.{BTreeMap, lookup, remove, into_keys, sort}
use package.tuskd.Journal.{OpKind, Services, Journal, append}
use package.tuskd.Journal.Entries.{live_state}

-- `Some(known) if known == hash`
unfoldable pub is_known : Option Text → Text → Bool
is_known none hash = false
is_known (some known) hash = known == hash

module _ (sv : Services) where
  -- The loop over the files: how many entries it appends, and what stays of `live`.
  unfoldable pub put_changed : BTreeMap Text → List (Text × Text) → Exec Journal (ℕ × BTreeMap Text)
  unfolding is_known lookup remove append
  put_changed live [] = pure (0, live)
  put_changed live ((rel, hash) ∷ files) =
      let rest = put_changed (remove rel live) files in
      if is_known (lookup rel live) hash
      then rest
      else do append sv OpKind.put rel (some hash); (n, left) ← rest; pure (suc n, left)

  -- The loop over the paths that are left.
  unfoldable pub bury : List Text → Exec Journal ℕ
  unfolding append
  bury [] = pure 0
  bury (rel ∷ paths) = do append sv OpKind.tombstone rel none; n ← bury paths; pure (suc n)

  unfoldable pub reconcile : List (Text × Text) → Exec Journal ℕ
  unfolding live_state put_changed bury sort
  reconcile on_disk = do
    state ← gets (live_state sv)
    live ← lift state
    (n, left) ← put_changed live (sort on_disk)
    m ← bury (into_keys left)
    pure (n + m)
