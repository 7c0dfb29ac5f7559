-- ===== src/Worker/Pull/Names.antt =====
-- sync_worker.rs: the sets of names that `pull_phase` collects, and the paths that they stand for.
use tuskd.Prelude.{some, List, [], ◌∷◌, ◌≡◌, ◌⊎◌, inl, inr, refl, ◌==◌, Bool-cases, true, false}
use tuskd.Text.{Text, Text_eq, text_eq_iff}
use tuskd.BTreeMap.{BTreeMap, lookup, insert, lookup-insert}
use tuskd.BTreeMap.Order.{IsSorted, Has, insert-IsSorted, remove-IsSorted, Has-lookup}
use tuskd.Cloud.Crypto.{ObjectEntry, KeyTable}
use package.tuskd.Worker.Pull.{Effects, add_puts, add_dels, by_blob}

abbrev pub AreSorted : Effects → Type 0
AreSorted e = IsSorted e.puts × IsSorted e.dels

pub add_puts-AreSorted : (l : List Text) (e : Effects) → AreSorted e → AreSorted (add_puts l e)
unfolding add_puts
add_puts-AreSorted [] e s = s
add_puts-AreSorted (b ∷ l) e s =
    add_puts-AreSorted l _ (insert-IsSorted b tt e.puts s.0, remove-IsSorted b e.dels s.1)

pub add_dels-AreSorted : (l : List Text) (e : Effects) → AreSorted e → AreSorted (add_dels l e)
unfolding add_dels
add_dels-AreSorted [] e s = s
add_dels-AreSorted (b ∷ l) e s =
    add_dels-AreSorted l _ (remove-IsSorted b e.puts s.0, insert-IsSorted b tt e.dels s.1)

-- The path of the name is one that the map had, or an entry of the table has the name.
abbrev Named : Text → Text → KeyTable → Type 0
Named b rel table = (e : ObjectEntry) × Has rel e table × (e.blob ≡ b)

module _ (b rel blob r : Text) (m : BTreeMap Text) where
  found : (blob == b) ≡ true → lookup b (insert blob r m) ≡ some rel → r ≡ rel
  found q k = let h = rw (lookup-insert b blob r m, q) at k in cc

  passed : (blob == b) ≡ false → lookup b (insert blob r m) ≡ some rel → lookup b m ≡ some rel
  passed q k = rw (lookup-insert b blob r m, q) at k

by_blob-Named :
    (b rel : Text) (table : KeyTable) (m : BTreeMap Text)
    → lookup b (by_blob table m) ≡ some rel
    → Named b rel table ⊎ (lookup b m ≡ some rel)
unfolding by_blob
by_blob-Named b rel [] m h = inr h
by_blob-Named b rel ((r, e) ∷ table) m h = elim (by_blob-Named b rel table (insert e.blob r m) h) [
  | inl (f, k, q) ↦ inl (f, inr k, q)
  | inr k ↦ elim (Bool-cases (e.blob == b)) [
    | inl q ↦ inl (e, inl (found b rel e.blob r m q k, refl), (text_eq_iff e.blob b).0 q)
    | inr q ↦ inr (passed b rel e.blob r m q k)
  ]
]

-- A name stands for at most one path, which has it in the table.
pub by_blob-lookup :
    (b rel : Text) (table : KeyTable)
    → IsSorted table
    → lookup b (by_blob table []) ≡ some rel
    → (e : ObjectEntry) × (lookup rel table ≡ some e) × (e.blob ≡ b)
unfolding lookup
by_blob-lookup b rel table s h = elim (by_blob-Named b rel table [] h) [
  | inl (e, k, q) ↦ (e, Has-lookup rel e table s k, q)
  | inr k ↦ absurd (nothing k)
]
  where
    nothing : lookup b [] ≡ some rel → ⊥
    nothing k = cc
