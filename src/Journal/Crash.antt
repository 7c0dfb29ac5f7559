-- ===== src/Journal/Crash.antt =====
-- sync.rs: `open` after `append`, and after an append that stopped half way.
use tuskd.Prelude.{ℕ, Option, [], ◌∷◌, ◌++◌, ◌≡◌, refl, ap, sym, ◌∙◌, ◌≢◌}
use tuskd.Text.{Text}
use tuskd.Frontmatter.Quoting.{newline}
use package.tuskd.Journal.{
  OpKind, Services, Fault, fine, refused, short, Journal, next_fault, append,
}
use package.tuskd.Journal.Lines.{join_lines-append, AreLines-append}
use package.tuskd.Journal.Chain.{
  JsonLaws, IsChained, append_fine, append_refused, verify-append, entry,
}

module _ {sv : Services} (laws : JsonLaws sv) (vault_id : Text) where
  pub IsChained-fine :
      (kind : OpKind) (path : Text) (hash : Option Text) (j : Journal)
      → next_fault j.faults ≡ fine
      → IsChained sv vault_id j
      → IsChained sv vault_id (append sv kind path hash j).1
  IsChained-fine kind path hash j f c =
      let line = sv.to_json (entry sv kind path hash j) in
      rw (append_fine sv kind path hash j f) (record {
        lines = c.lines ++ line ∷ [];
        whole = AreLines-append c.lines line c.whole (laws.single _);
        content =
            ap (λ t. t ++ (line ++ newline ∷ [])) c.content ∙ sym (join_lines-append c.lines line);
        verified =
            verify-append sv 0 _ j.last_hash line c.lines (entry sv kind path hash j) c.verified
              (laws.read_back _) refl;
      })

  IsChained-refused :
      (kind : OpKind) (path : Text) (hash : Option Text) (j : Journal)
      → next_fault j.faults ≡ refused
      → IsChained sv vault_id j
      → IsChained sv vault_id (append sv kind path hash j).1
  IsChained-refused kind path hash j f c =
      rw (append_refused sv kind path hash j f)
        (record { lines = c.lines; whole = c.whole; content = c.content; verified = c.verified })

  -- No append breaks the chain unless its write stops half way.
  pub append-IsChained :
      (kind : OpKind) (path : Text) (hash : Option Text) (j : Journal)
      → ((n : ℕ) → next_fault j.faults ≢ short n)
      → IsChained sv vault_id j
      → IsChained sv vault_id (append sv kind path hash j).1
  append-IsChained kind path hash j s c = go (next_fault j.faults) refl
    where
      go :
          (f : Fault)
          → next_fault j.faults ≡ f
          → IsChained sv vault_id (append sv kind path hash j).1
      go fine e = IsChained-fine kind path hash j e c
      go refused e = IsChained-refused kind path hash j e c
      go (short n) e = absurd (s n e)
