-- ===== src/Journal/Live.antt =====
-- sync.rs: what an append adds to the entries and to the live state.
use tuskd.Prelude.{
  ℕ, suc, Option, some, List, [], ◌∷◌, ◌++◌, ◌≡◌, refl, ap, sym, ◌∙◌, append-nil, all, subst,
}
use tuskd.Text.{Text, Text_eq}
use tuskd.Errors.{Result, ok}
use tuskd.Exec.{Ends}
use tuskd.BTreeMap.{BTreeMap}
use package.tuskd.Journal.{
  OpKind, JournalEntry, Services, fine, Journal, bytes_of, next_fault, verify, append, content_hash,
  later_faults,
}
use package.tuskd.Journal.Lines.{
  split_tail-join, join_lines, AreLines, AreLines-append, join_lines-append,
}
use package.tuskd.Journal.Chain.{JsonLaws, IsChained, append_fine, verify-cases, entry}
use package.tuskd.Journal.Crash.{IsChained-fine}
use package.tuskd.Journal.Entries.{nonempty, parse_all, entries, apply_entry, live_of, live_state}
use tuskd.Frontmatter.Quoting.{newline}

no_entry : {sv : Services} (laws : JsonLaws sv) (e : JournalEntry) → ¬ (sv.from_slice [] ≡ some e)
no_entry laws e h = let clash = laws.empty_none in cc

module _ {sv : Services} (laws : JsonLaws sv) where
  -- Lines that are read, and their entries.
  abbrev Read : List Text → List JournalEntry → Type 0
  Read [] [] = Unit {0}
  Read (line ∷ lines) (e ∷ es) = (sv.from_slice line ≡ some e) × Read lines es
  Read _ _ = ⊥

  verify-Read :
      (n : ℕ) (running last : Text) (lines : List Text)
      → verify sv n running lines ≡ ok last
      → (es : List JournalEntry) × Read lines es
  verify-Read n running last [] h = ([], tt)
  verify-Read n running last (line ∷ lines) h =
      let (e, f, p, rest) = verify-cases sv n running last line lines h in
      let (es, r) = verify-Read (suc n) (content_hash sv line) last lines rest in (e ∷ es, (f, r))

  Read-parse :
      (lines : List Text) (es : List JournalEntry)
      → Read lines es
      → parse_all sv (nonempty (lines ++ [] ∷ [])) ≡ ok es
  unfolding parse_all nonempty
  Read-parse [] [] r = refl
  Read-parse [] (e ∷ es) r = absurd r
  Read-parse ([] ∷ lines) [] r = absurd r
  Read-parse ((c ∷ line) ∷ lines) [] r = absurd r
  Read-parse ([] ∷ lines) (e ∷ es) r = absurd (no_entry laws e r.0)
  Read-parse ((c ∷ line) ∷ lines) (e ∷ es) r = rw (r.0, Read-parse lines es r.1) refl

  Read-append :
      (lines : List Text) (es : List JournalEntry) (line : Text) (e : JournalEntry)
      → Read lines es
      → sv.from_slice line ≡ some e
      → Read (lines ++ line ∷ []) (es ++ e ∷ [])
  Read-append [] [] line e r f = (f, tt)
  Read-append [] (d ∷ es) line e r f = absurd r
  Read-append (l ∷ lines) [] line e r f = absurd r
  Read-append (l ∷ lines) (d ∷ es) line e r f = (r.0, Read-append lines es line e r.1 f)

  live_of-append :
      (es : List JournalEntry) (e : JournalEntry) (m : BTreeMap Text)
      → live_of (es ++ e ∷ []) m ≡ apply_entry e (live_of es m)
  unfolding live_of
  live_of-append [] e m = refl
  live_of-append (d ∷ es) e m = live_of-append es e (apply_entry d m)

  entries-Read :
      (j : Journal) (lines : List Text) (es : List JournalEntry)
      → AreLines lines
      → bytes_of j.file ≡ join_lines lines
      → Read lines es
      → entries sv j ≡ ok es
  unfolding entries all
  entries-Read j lines es w c r =
      rw (c ∙ sym (append-nil _), split_tail-join lines [] w refl) (Read-parse lines es r)

-- A chained journal, no fault ahead, whose entries leave `live` alive.
pub record Tracks (sv : Services) (vault_id : Text) (live : BTreeMap Text) (j : Journal)
    : Type 0 where
  pub chained : IsChained sv vault_id j
  pub readable : live_state sv j ≡ ok live
  pub calm : j.faults ≡ []

module _ {sv : Services} (laws : JsonLaws sv) (vault_id : Text) where
  live-Read :
      (j : Journal) (lines : List Text) (es : List JournalEntry)
      → AreLines lines
      → bytes_of j.file ≡ join_lines lines
      → Read laws lines es
      → live_state sv j ≡ ok (live_of es [])
  unfolding live_state
  live-Read j lines es w c r = rw (entries-Read laws j lines es w c r) refl

  -- The live state of a chained journal can always be read.
  pub live_state_total :
      (j : Journal) → IsChained sv vault_id j → (live : BTreeMap Text) × (live_state sv j ≡ ok live)
  live_state_total j c =
      let (es, r) = verify-Read laws 0 _ j.last_hash c.lines c.verified in
      (live_of es [], live-Read j c.lines es c.whole c.content r)

  next_fine : (j : Journal) → j.faults ≡ [] → next_fault j.faults ≡ fine
  next_fine j e = rw e refl

  module _ (kind : OpKind) (path : Text) (hash : Option Text) (live : BTreeMap Text)
      (j : Journal) where
    abbrev line : Text
    line = sv.to_json (entry sv kind path hash j)

    abbrev after : Journal
    after = record {
      file = some (bytes_of j.file ++ (line ++ newline ∷ []));
      last_hash = content_hash sv line;
      calls = suc j.calls;
      faults = later_faults j.faults;
    }

    live-after :
        Tracks sv vault_id live j
        → live_state sv after ≡ ok (apply_entry (entry sv kind path hash j) live)
    live-after t =
        let c = t.chained in
        let e = entry sv kind path hash j in
        let (es, r) = verify-Read laws 0 _ j.last_hash c.lines c.verified in
        let same : ok (live_of es []) ≡ ok live =
          sym (live-Read j c.lines es c.whole c.content r) ∙ t.readable in
        let same_map : live_of es [] ≡ live = cc in
        live-Read after (c.lines ++ line ∷ []) (es ++ e ∷ [])
          (AreLines-append c.lines line c.whole (laws.single e))
          (ap (λ t. t ++ (line ++ newline ∷ [])) c.content ∙ sym (join_lines-append c.lines line))
          (Read-append laws c.lines es line e r (laws.read_back e))
        ∙ ap ok (live_of-append laws es e [] ∙ ap (apply_entry e) same_map)

    IsChained-after : Tracks sv vault_id live j → IsChained sv vault_id after
    IsChained-after t =
        let f = next_fine j t.calm in
        subst (λ (r : Result JournalEntry × Journal). IsChained sv vault_id r.1)
          (append_fine sv kind path hash j f)
          (IsChained-fine laws vault_id kind path hash j f t.chained)

    -- An append adds its entry to the live state.
    pub append-Tracks :
        Tracks sv vault_id live j
        → Ends
            (λ e. Tracks sv vault_id (apply_entry (entry sv kind path hash j) live))
            (append sv kind path hash j)
    append-Tracks t =
        rw (append_fine sv kind path hash j (next_fine j t.calm))
          (record { chained = IsChained-after t; readable = live-after t; calm = rw t.calm refl })
