-- ===== src/Worker/Pull/LocalWins.antt =====
-- sync_worker.rs: a pull does not touch a file that was changed locally.
use tuskd.Prelude.{
  Bool, true, false, some, [], ◌∷◌, ◌≡◌, ◌≢◌, ap, sym, subst, ◌∙◌, ◌==◌, ◌⊎◌, inl, inr, Bool-cases,
}
use tuskd.Text.{Text, Text_eq, text_eq_iff}
use tuskd.BTreeMap.{lookup, lookup-insert, text_lt}
use tuskd.BTreeMap.Order.{IsSorted, Above, text_lt_irrefl}
use tuskd.Exec.Triples.{After}
use tuskd.Journal.{Services, content_hash}
use tuskd.Cloud.Crypto.{KeyTable}
use tuskd.Cloud.Service.{Cloud}
use package.tuskd.Worker.State.{
  FileState, Device, known, allowed, record_file, write_atomic, change_files,
}
use package.tuskd.Worker.Pull.{
  BTreeSet, is_clean, is_some, has_hash, by_blob, settle, choose, take_remote,
}
use package.tuskd.Worker.Pull.Names.{by_blob-lookup}

module _ (table : KeyTable) (rel : Text) where
  -- None of the names stands for the path.
  abbrev pub Missed : BTreeSet → Type 0
  Missed [] = Unit {0}
  Missed ((b, u) ∷ names) = (lookup b (by_blob table []) ≢ some rel) × Missed names

  -- The other names of a set stand for other paths.
  others_miss :
      IsSorted table
      → (b : Text) (names : BTreeSet) → Above b names
      → lookup b (by_blob table []) ≡ some rel
      → Missed names
  others_miss s b [] a h = tt
  others_miss s b ((c, u) ∷ names) a h = (other, others_miss s b names a.1 h)
    where
      other : lookup c (by_blob table []) ≢ some rel
      other k =
          let (e, f, p) = by_blob-lookup b rel table s h in
          let (e', f', p') = by_blob-lookup c rel table s k in
          let same : b ≡ c = cc in
          let l : text_lt b b ≡ true = subst (λ t. text_lt b t ≡ true) (sym same) a.0 in
          cc (text_lt_irrefl b)

module _ (cl : Cloud) (sv : Services) (table : KeyTable) (rel bytes : Text) where
  abbrev pub Kept : Device cl → Type 0
  Kept d = lookup rel d.files ≡ some bytes

  -- The file is there, and it has changed, or the cloud has it and no name to come stands for it.
  abbrev pub Held : BTreeSet → Device cl → Type 0
  Held names d =
      Kept d
      × ((is_clean (content_hash sv) (some bytes) (known rel d) ≡ false)
          ⊎ ((is_some (lookup rel table) ≡ true) × Missed table rel names))

  choose_same :
      (names : BTreeSet) (agree : Bool) (f : FileState) (text : Text) (d : Device cl)
      → Kept d
      → is_clean (content_hash sv) (some bytes) (known rel d) ≡ false
      → is_some (lookup rel table) ≡ true
      → Missed table rel names
      → After (λ _. Held names) Kept (choose cl sv agree false rel f text d)
  unfolding record_file
  choose_same names true f text d k c t m = (k, inr (t, m))
  choose_same names false f text d k c t m = (k, inl c)

  settle_same :
      (names : BTreeSet) (blob text : Text) (d : Device cl)
      → Kept d
      → is_clean (content_hash sv) (some bytes) (known rel d) ≡ false
      → is_some (lookup rel table) ≡ true
      → Missed table rel names
      → After (λ _. Held names) Kept (settle cl sv rel blob text d)
  unfolding settle
  settle_same names blob text d k c t m =
      rw (k, c)
        (choose_same names (has_hash (content_hash sv) (some bytes) (content_hash sv text))
          (record { hash = content_hash sv text; blob = blob }) text d k c t m)

  choose_other :
      (names : BTreeSet) (r : Text) (f : FileState) (text : Text) (agree clean : Bool)
      (d : Device cl)
      → (r == rel) ≡ false
      → Held names d
      → After (λ _. Held names) Kept (choose cl sv agree clean r f text d)
  unfolding record_file take_remote write_atomic change_files
  choose_other names r f text true clean d n h = rw (lookup-insert rel r f d.state.files, n) h
  choose_other names r f text false true d n h = elim (Bool-cases (allowed d.writes)) [
    | inl e ↦ rw (e, lookup-insert rel r text d.files, lookup-insert rel r f d.state.files, n) h
    | inr e ↦ rw e h.0
  ]
  choose_other names r f text false false d n h = h

  -- Every path but the file's own is settled with no effect on it.
  settle_other :
      (names : BTreeSet) (r blob text : Text) (d : Device cl)
      → (r == rel) ≡ false
      → Held names d
      → After (λ _. Held names) Kept (settle cl sv r blob text d)
  unfolding settle
  settle_other names r blob text d n h = choose_other names r _ text _ _ d n h

  module _ (sorted : IsSorted table) where
    pub settle-Held :
        (r b text : Text) (names : BTreeSet) (d : Device cl)
        → lookup b (by_blob table []) ≡ some r
        → is_some (lookup r table) ≡ true
        → Above b names
        → Held ((b, tt) ∷ names) d
        → After (λ _. Held names) Kept (settle cl sv r b text d)
    settle-Held r b text names d e t a h = elim (Bool-cases (r == rel)) [
      | inr n ↦ settle_other names r b text d n (h.0, weaken h.1)
      | inl q ↦
          subst (λ r. After (λ _. Held names) Kept (settle cl sv r b text d)) (sym (same q))
            (own q h.1)
    ]
      where
        weaken :
            (is_clean (content_hash sv) (some bytes) (known rel d) ≡ false)
              ⊎ ((is_some (lookup rel table) ≡ true) × Missed table rel ((b, tt) ∷ names))
            → (is_clean (content_hash sv) (some bytes) (known rel d) ≡ false)
              ⊎ ((is_some (lookup rel table) ≡ true) × Missed table rel names)
        weaken (inl c) = inl c
        weaken (inr (u, m)) = inr (u, m.1)

        same : (r == rel) ≡ true → r ≡ rel
        same q = (text_eq_iff r rel).0 q

        own :
            (r == rel) ≡ true
            → (is_clean (content_hash sv) (some bytes) (known rel d) ≡ false)
              ⊎ ((is_some (lookup rel table) ≡ true) × Missed table rel ((b, tt) ∷ names))
            → After (λ _. Held names) Kept (settle cl sv rel b text d)
        own q (inl c) =
            settle_same names b text d h.0 c
              (subst (λ r. is_some (lookup r table) ≡ true) (same q) t)
              (others_miss table rel sorted b names a (e ∙ ap some (same q)))
        own q (inr (u, m)) = absurd (m.0 (e ∙ ap some (same q)))
