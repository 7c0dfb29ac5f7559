-- ===== src/Journal/Chain.antt =====
-- sync.rs: the chain of hashes through `open` and `append`.
use tuskd.Prelude.{
  subst, ℕ, suc, Bool, true, false, Option, none, some, List, [], ◌∷◌, ◌++◌, ◌≡◌, refl, ap, sym,
  ◌∙◌, ◌==◌, take, append-nil, Bool-cases, Option-cases, inl, inr,
}
use tuskd.Text.{Text, Text_eq, text_eq_iff}
use tuskd.Errors.{Result, ok, err, io, write_failed}
use tuskd.Errors.{◌>>=◌ as then_with}
use tuskd.Frontmatter.Quoting.{newline}
use package.tuskd.Journal.{
  OpKind, JournalEntry, Services, fine, refused, short, Journal, bytes_of, next_fault, content_hash,
  genesis_hash, verify, heal, open_raw, append, write_all, new_entry, later_faults,
}
use package.tuskd.Journal.Lines.{
  split_tail, good_end, join_lines, one_line, AreLines, join-split_tail, split_tail-AreLines,
  take-good_end,
}

-- What serde_json documents of an entry: its text is read back, and is one line; and an empty text is
-- no entry.
pub record JsonLaws (sv : Services) : Type 0 where
  pub read_back : (e : JournalEntry) → sv.from_slice (sv.to_json e) ≡ some e
  pub empty_none : sv.from_slice [] ≡ none
  pub single : (e : JournalEntry) → one_line (sv.to_json e) ≡ true

-- The file holds whole lines that verify up to the hash in memory.
pub record IsChained (sv : Services) (vault_id : Text) (j : Journal) : Type 0 where
  pub lines : List Text
  pub whole : AreLines lines
  pub content : bytes_of j.file ≡ join_lines lines
  pub verified : verify sv 0 (genesis_hash sv vault_id) lines ≡ ok j.last_hash

module _ (sv : Services) where
  pub verify-cases :
      (n : ℕ) (running last line : Text) (lines : List Text)
      → verify sv n running (line ∷ lines) ≡ ok last
      → (entry : JournalEntry) × (sv.from_slice line ≡ some entry)
        × (entry.prev ≡ running)
        × (verify sv (suc n) (content_hash sv line) lines ≡ ok last)
  unfolding verify
  verify-cases n running last line lines h = elim (Option-cases (sv.from_slice line)) [
    | inl e ↦ let clash = rw e at h in cc
    | inr (entry, e) ↦ elim (Bool-cases (entry.prev == running)) [
      | inl p ↦ (entry, e, (text_eq_iff entry.prev running).0 p, rw (e, p) at h)
      | inr p ↦ let clash = rw (e, p) at h in cc
    ]
  ]

  pub verify-step :
      (n : ℕ) (running line : Text) (lines : List Text) (entry : JournalEntry)
      → sv.from_slice line ≡ some entry
      → entry.prev ≡ running
      → verify sv n running (line ∷ lines) ≡ verify sv (suc n) (content_hash sv line) lines
  unfolding verify
  verify-step n running line lines entry e p = rw (e, (text_eq_iff entry.prev running).1 p) refl

  pub nil-verify : (n : ℕ) (running : Text) → verify sv n running [] ≡ ok running
  unfolding verify
  nil-verify n running = refl

  pub verify-nil : (n : ℕ) (running last : Text) → verify sv n running [] ≡ ok last → running ≡ last
  verify-nil n running last h = let e = nil-verify n running in cc

  pub verify-append :
      (n : ℕ) (running last line : Text) (lines : List Text) (entry : JournalEntry)
      → verify sv n running lines ≡ ok last
      → sv.from_slice line ≡ some entry
      → entry.prev ≡ last
      → verify sv n running (lines ++ line ∷ []) ≡ ok (content_hash sv line)
  verify-append n running last line [] entry h e p =
      let same = verify-nil n running last h in
      verify-step n running line [] entry e (p ∙ sym same)
      ∙ nil-verify (suc n) (content_hash sv line)
  verify-append n running last line (l ∷ lines) entry h e p =
      let (first, f, q, rest) = verify-cases n running last l lines h in
      verify-step n running l (lines ++ line ∷ []) first f q
      ∙ verify-append (suc n) (content_hash sv l) last line lines entry rest e p

  abbrev Chains : Text → Result Journal → Type 0
  Chains vault_id (ok j) = IsChained sv vault_id j
  Chains vault_id (err e) = Unit {0}

  heal-Chains :
      (vault_id : Text) (truncated : Bool) (file : Option Text) (lines : List Text)
      (torn running : Text)
      → AreLines lines
      → join_lines lines ++ torn ≡ bytes_of file
      → verify sv 0 (genesis_hash sv vault_id) lines ≡ ok running
      → Chains vault_id (heal sv truncated file lines torn running)
  unfolding heal
  heal-Chains vault_id truncated file lines [] running w c v = record {
    lines = lines;
    whole = w;
    content = sym c ∙ append-nil (join_lines lines);
    verified = v;
  }
  heal-Chains vault_id true file lines (x ∷ torn) running w c v = record {
    lines = lines;
    whole = w;
    content = ap (take (good_end lines)) (sym c) ∙ take-good_end lines (x ∷ torn);
    verified = v;
  }
  heal-Chains vault_id false file lines (x ∷ torn) running w c v = tt

  open_raw-Chains :
      (vault_id : Text) (truncated : Bool) (file : Option Text)
      → Chains vault_id (open_raw sv vault_id truncated file)
  unfolding open_raw
  open_raw-Chains vault_id truncated file =
      let (lines, torn) = split_tail (bytes_of file) in
      go (verify sv 0 (genesis_hash sv vault_id) lines) refl
    where
      go :
          (r : Result Text)
          → verify sv 0 (genesis_hash sv vault_id) (split_tail (bytes_of file)).0 ≡ r
          → Chains vault_id (
              then_with r (
                heal sv truncated file
                  (split_tail (bytes_of file)).0
                  (split_tail (bytes_of file)).1))
      go (ok running) v =
          heal-Chains vault_id truncated file _ _ running (split_tail-AreLines (bytes_of file)).0
            (join-split_tail (bytes_of file)) v
      go (err e) v = tt

  -- A journal that `open` accepts is chained.
  pub open_raw-IsChained :
      (vault_id : Text) (truncated : Bool) (file : Option Text) (j : Journal)
      → open_raw sv vault_id truncated file ≡ ok j
      → IsChained sv vault_id j
  open_raw-IsChained vault_id truncated file j h =
      subst (Chains vault_id) h (open_raw-Chains vault_id truncated file)

  module _ (kind : OpKind) (path : Text) (hash : Option Text) (j : Journal) where
    abbrev pub entry : JournalEntry
    entry = new_entry sv kind path hash j.calls j.last_hash

    -- A write that is carried out.
    pub append_fine :
        next_fault j.faults ≡ fine
        → append sv kind path hash j ≡ (
          ok entry,
          record j {
            file = some (bytes_of j.file ++ (sv.to_json entry ++ newline ∷ []));
            last_hash = content_hash sv (sv.to_json entry);
            calls = suc j.calls;
            faults = later_faults j.faults;
          },
        )
    unfolding append write_all
    append_fine f = rw f refl

    pub append_refused :
        next_fault j.faults ≡ refused
        → append sv kind path hash j ≡ (
          err (io write_failed),
          record j { calls = suc j.calls; faults = later_faults j.faults },
        )
    unfolding append write_all
    append_refused f = rw f refl

    pub append_short :
        (n : ℕ)
        → next_fault j.faults ≡ short n
        → append sv kind path hash j ≡ (
          err (io write_failed),
          record j {
            file = some (bytes_of j.file ++ take n (sv.to_json entry ++ newline ∷ []));
            calls = suc j.calls;
            faults = later_faults j.faults;
          },
        )
    unfolding append write_all
    append_short n f = rw f refl
