-- ===== src/Journal/Torn.antt =====
-- sync.rs: an append after a write that stopped half way without ending the process.
use tuskd.Prelude.{
  ℕ, suc, ◌≤◌, Bool, Option, none, some, List, [], ◌∷◌, ◌++◌, ◌≡◌, refl, ap, sym, ◌∙◌, length, take,
  append_assoc, all-append, true, arith, not, ◌==◌, ℕ_eq,
}
use tuskd.Text.{Text}
use tuskd.Errors.{Result, ok, err, journal, unparseable_line}
use tuskd.Frontmatter.Quoting.{newline}
use package.tuskd.Journal.{
  OpKind, JournalEntry, Services, fine, short, Journal, bytes_of, next_fault, genesis_hash, verify,
  open_raw, append,
}
use package.tuskd.Journal.Lines.{
  join_lines, one_line, AreLines, split_tail, split_tail-line, join_lines-append, AreLines-append,
  one_line-take,
}
use package.tuskd.Journal.Chain.{
  JsonLaws, IsChained, append_fine, append_short, verify-cases, verify-step, entry,
}

module _ (sv : Services) where
  verify_bad :
      (n : ℕ) (running last bad : Text) (lines later : List Text)
      → verify sv n running lines ≡ ok last
      → sv.from_slice bad ≡ none
      → (m : ℕ) × (verify sv n running (lines ++ bad ∷ later) ≡ err (journal (unparseable_line m)))
  unfolding verify
  verify_bad n running last bad [] later h e = (suc n, rw e refl)
  verify_bad n running last bad (line ∷ lines) later h e =
      let (first, f, q, rest) = verify-cases sv n running last line lines h in
      let (m, b) = verify_bad (suc n) _ last bad lines later rest e in
      (m, verify-step sv n running line (lines ++ bad ∷ later) first f q ∙ b)

  split_tail-lines :
      (lines : List Text) (more : Text)
      → AreLines lines
      → split_tail (join_lines lines ++ more) ≡ (lines ++ (split_tail more).0, (split_tail more).1)
  unfolding join_lines
  split_tail-lines [] more h = refl
  split_tail-lines (line ∷ lines) more h =
      ap split_tail (append_assoc line (newline ∷ join_lines lines) more)
      ∙ split_tail-line line (join_lines lines ++ more) h.0
      ∙ ap (λ (r : List Text × Text). (line ∷ r.0, r.1)) (split_tail-lines lines more h.1)

  open_bad :
      (vault_id : Text) (truncated : Bool) (file : Text) (lines : List Text) (more : Text) (m : ℕ)
      → AreLines lines
      → file ≡ join_lines lines ++ more
      → verify sv 0 (genesis_hash sv vault_id) (lines ++ (split_tail more).0)
        ≡ err (journal (unparseable_line m))
      → open_raw sv vault_id truncated (some file) ≡ err (journal (unparseable_line m))
  unfolding open_raw
  open_bad vault_id truncated file lines more m w c v =
      rw (c, split_tail-lines lines more w, v) refl

module _ {sv : Services} (laws : JsonLaws sv) (vault_id : Text) where
  one_line-append : (s t : Text) → one_line s ≡ true → one_line t ≡ true → one_line (s ++ t) ≡ true
  one_line-append s t h k = ground (arith, all-append (λ c. not (c == newline)) s t)

  -- Where an append stops after some bytes of its line, no more than the line has, and the process goes
  -- on, the next append is carried out, reports success with its entry, but joins its line to the torn
  -- one: whatever is appended to the file later, `open` refuses it, whenever the joined line is no entry.
  pub open-append_joined :
      (truncated : Bool) (kind next_kind : OpKind) (path next_path : Text)
      (hash next_hash : Option Text) (more : Text) (j : Journal) (n : ℕ)
      → IsChained sv vault_id j
      → next_fault j.faults ≡ short n
      → n ≤ length (sv.to_json (entry sv kind path hash j))
      → next_fault (append sv kind path hash j).1.faults ≡ fine
      → sv.from_slice (
          take n (sv.to_json (entry sv kind path hash j) ++ newline ∷ [])
          ++ sv.to_json (entry sv next_kind next_path next_hash (append sv kind path hash j).1))
        ≡ none
      → ((append sv next_kind next_path next_hash (append sv kind path hash j).1).0
          ≡ ok (entry sv next_kind next_path next_hash (append sv kind path hash j).1))
        × ((m : ℕ) × (open_raw sv vault_id truncated (
                some (
                  bytes_of
                    (append sv next_kind next_path next_hash (append sv kind path hash j).1).1.file
                  ++ more))
              ≡ err (journal (unparseable_line m))))
  open-append_joined truncated kind next_kind path next_path hash next_hash more j n c f b g e =
      let after = (append sv kind path hash j).1 in
      let torn = take n (sv.to_json (entry sv kind path hash j) ++ newline ∷ []) in
      let line = sv.to_json (entry sv next_kind next_path next_hash after) in
      let (m, v) =
        verify_bad sv 0 _ j.last_hash (torn ++ line) c.lines (split_tail more).0 c.verified e in
      let lines = c.lines ++ (torn ++ line) ∷ [] in
      let first =
        ap (λ (r : Result JournalEntry × Journal). bytes_of r.1.file)
          (append_short sv kind path hash j n f) in
      let second = append_fine sv next_kind next_path next_hash after g in
      let content : bytes_of (append sv next_kind next_path next_hash after).1.file
          ≡ join_lines lines =
        ap (λ (r : Result JournalEntry × Journal). bytes_of r.1.file) second
        ∙ ap (λ t. t ++ (line ++ newline ∷ [])) (first ∙ ap (λ t. t ++ torn) c.content)
        ∙ append_assoc (join_lines c.lines) torn (line ++ newline ∷ [])
        ∙ ap (λ t. join_lines c.lines ++ t) (sym (append_assoc torn line (newline ∷ [])))
        ∙ sym (join_lines-append c.lines (torn ++ line)) in
      (
        ap (λ (r : Result JournalEntry × Journal). r.0) second,
        (
          m,
          open_bad sv vault_id truncated _ lines more m
              (AreLines-append c.lines (torn ++ line) c.whole
                (one_line-append torn line (one_line-take n _ (laws.single _) b) (laws.single _)))
              (ap (λ t. t ++ more) content)
              (ap (verify sv 0 (genesis_hash sv vault_id))
                  (append_assoc c.lines ((torn ++ line) ∷ []) (split_tail more).0)
                ∙ v),
        ),
      )
