-- ===== src/Gate/Review.antt =====
-- gate.rs: what `submit` and `review` do to the vault, the index and the queue.
use tuskd.Prelude.{
  Every, ◌≢◌, true, false, Option, none, some, List, [], ◌∷◌, ◌++◌, ◌≡◌, refl, ap, ◌∙◌, ◌==◌,
  ==-refl, Bool-cases, inl, inr, Option-cases, ◌⊎◌,
}
use tuskd.Text.{Text, Text_eq, text_eq_iff, trim}
use tuskd.Errors.{Result, ok, err, not_found, no_queue_item}
use tuskd.Floats.{Floats}
use tuskd.Scope
use tuskd.Record.Kind.{RecordType, RecordType_eq}
use tuskd.Record.Fields.{Record}
use tuskd.Record.Markdown.{body_hash, is_valid_now}
use tuskd.Journal.{Services}
use tuskd.Vault.Paths.{FilePath}
use tuskd.Vault.Store.{VaultStore, allowed}
use tuskd.Vault.Store
use tuskd.Index.{Rows, is_duplicate, find_valid_by_body_hash}
use tuskd.Index.Search.{search}
use package.tuskd.Gate.Words.{token_overlap}
use package.tuskd.Gate.Commit.{
  Candidate, GateOutcome, committed, superseded_existing, rejected_duplicate, QueueItem, Gate,
  Config, on_vault, save_queue, write_other,
}
use package.tuskd.Gate.Submit.{
  first_of, existing, near, top_of, probe, corrected, probed, unless_explicit, policy_of, enqueue,
  submit, take_item, keep_front, review,
}

-- The outcome is not a commit.
abbrev pub NoCommit : Result GateOutcome → Type 0
NoCommit (ok (committed id)) = ⊥
NoCommit (ok (superseded_existing id old)) = ⊥
NoCommit _ = Unit {0}

module _ {fl : Floats} {sv : Services} where
  -- No record, row or skill was written.
  pub record Untouched (g h : Gate fl sv) : Type 0 where
    pub files : h.vault.files ≡ g.vault.files
    pub rows : h.rows ≡ g.rows
    pub skills : h.skills ≡ g.skills

  write_other-queue :
      (items : List (QueueItem fl)) (g : Gate fl sv) → Untouched g (save_queue items g).1
  unfolding save_queue write_other Store.change
  write_other-queue items g = elim (Bool-cases (allowed g.vault.writes)) [
    | inl e ↦ rw e (record { files = refl; rows = refl; skills = refl })
    | inr e ↦ rw e (record { files = refl; rows = refl; skills = refl })
  ]

module _ {fl : Floats} (sv : Services) (cf : Config fl sv) where
  corrected-kind :
      (c : Candidate fl) (got : Result (FilePath × Record fl sv.chrono))
      → (corrected sv cf c got).kind ≡ c.kind
  corrected-kind c (err e) = refl
  corrected-kind c (ok (p, r)) =
      elim (Bool-cases
        (cf.unicode.gt (token_overlap cf.unicode c.body r.body) cf.unicode.threshold)) [
          | inl e ↦ rw e refl
          | inr e ↦ rw e refl
        ]

  probed-kind :
      (c : Candidate fl) (hit : Option Text) (g : Gate fl sv) → (probed sv cf c hit g).kind ≡ c.kind
  probed-kind c none g = refl
  probed-kind c (some top) g = corrected-kind c (Store.get sv fl top g.vault).0

  explicit-kind :
      (o : Option Text) (c d : Candidate fl)
      → d.kind ≡ c.kind
      → (unless_explicit sv cf o c d).kind ≡ c.kind
  explicit-kind none c d h = h
  explicit-kind (some id) c d h = refl

  probe-kind : (c : Candidate fl) (g : Gate fl sv) → (probe sv cf c g).kind ≡ c.kind
  unfolding probe
  probe-kind c g =
      explicit-kind c.corrects c _
        (probed-kind c (top_of sv cf (search cf.engine (near sv cf c) g.rows)) g)

  enqueue-Untouched :
      (c : Candidate fl) (author : Text) (g : Gate fl sv)
      → NoCommit (enqueue sv cf c author g).0 × Untouched g (enqueue sv cf c author g).1
  unfolding enqueue on_vault Store.now save_queue write_other Store.change
  enqueue-Untouched c author g = elim (Bool-cases (allowed g.vault.writes)) [
    | inl e ↦ rw e (tt, record { files = refl; rows = refl; skills = refl })
    | inr e ↦ rw e (tt, record { files = refl; rows = refl; skills = refl })
  ]

  -- A skill is never committed by `submit`: it is queued for review, rejected as a duplicate, or the
  -- call fails, and in every case the records, the index and the skills stay as they were.
  pub submit-skill :
      (c : Candidate fl) (author : Text) (g : Gate fl sv)
      → c.kind ≡ RecordType.skill
      → NoCommit (submit sv cf c author g).0 × Untouched g (submit sv cf c author g).1
  unfolding submit policy_of
  submit-skill c author g h = elim (Option-cases (existing sv cf c g)) [
    | inl e ↦
        rw (e, probe-kind c g ∙ h, ==-refl RecordType.skill)
          (enqueue-Untouched (probe sv cf c g) author g)
    | inr (id, e) ↦ rw e (tt, record { files = refl; rows = refl; skills = refl })
  ]

  find_existing :
      (scope : Scope.Scope) (hash : Text) (before after : Rows fl sv.chrono) (p : FilePath)
      (r : Record fl sv.chrono)
      → is_duplicate cf.sha256_hex (Scope.to_string scope) hash r ≡ true
      → (id : Text) × (first_of
            (find_valid_by_body_hash cf.sha256_hex scope hash (before ++ (p, r) ∷ after))
          ≡ some id)
  unfolding find_valid_by_body_hash
  find_existing scope hash [] after p r d = (r.id, rw d refl)
  find_existing scope hash ((q, s) ∷ before) after p r d =
      elim (Bool-cases (is_duplicate cf.sha256_hex (Scope.to_string scope) hash s)) [
        | inl e ↦ (s.id, rw e refl)
        | inr e ↦ let (id, f) = find_existing scope hash before after p r d in (id, rw e f)
      ]

  same_body :
      (c : Candidate fl) (r : Record fl sv.chrono)
      → r.scope ≡ c.scope
      → trim r.body ≡ trim c.body
      → is_valid_now fl sv.chrono r ≡ true
      → is_duplicate cf.sha256_hex (Scope.to_string c.scope) (body_hash cf.sha256_hex c.body) r
        ≡ true
  unfolding is_duplicate body_hash
  same_body c r s b v =
      rw (s, b, ==-refl (Scope.to_string c.scope), ==-refl (cf.sha256_hex (trim c.body)), v) refl

  -- A candidate whose trimmed body is that of a currently valid indexed record of the same scope is
  -- rejected as a duplicate, and nothing changes.
  pub submit-duplicate :
      (c : Candidate fl) (author : Text) (g : Gate fl sv) (before after : Rows fl sv.chrono)
      (p : FilePath) (r : Record fl sv.chrono)
      → g.rows ≡ before ++ (p, r) ∷ after
      → r.scope ≡ c.scope
      → trim r.body ≡ trim c.body
      → is_valid_now fl sv.chrono r ≡ true
      → (id : Text) × (submit sv cf c author g ≡ (ok (rejected_duplicate id), g))
  unfolding submit existing
  submit-duplicate c author g before after p r e s b v =
      let (id, f) =
        find_existing c.scope (body_hash cf.sha256_hex c.body) before after p r
          (same_body c r s b v) in
      (id, rw (e, f) refl)

module _ {fl : Floats} where
  -- No item of the queue has the id.
  abbrev pub Unqueued : Text → List (QueueItem fl) → Type 0
  Unqueued qid items = Every (λ i. i.qid ≢ qid) items

  -- The first item with the id, and what is left without it.
  pub record Took (qid : Text) (items : List (QueueItem fl)) (item : QueueItem fl)
      (others : List (QueueItem fl)) : Type 0 where
    pub before : List (QueueItem fl)
    pub after : List (QueueItem fl)
    pub split : items ≡ before ++ item ∷ after
    pub rest : others ≡ before ++ after
    pub named : item.qid ≡ qid
    pub first : Unqueued qid before

  abbrev Search : Text → List (QueueItem fl) → Option (QueueItem fl × List (QueueItem fl)) → Type 0
  Search qid items none = Unqueued qid items
  Search qid items (some (item, others)) = Took qid items item others

  keep_front-Search :
      (qid : Text) (i : QueueItem fl) (items : List (QueueItem fl))
      (o : Option (QueueItem fl × List (QueueItem fl)))
      → i.qid ≢ qid
      → Search qid items o
      → Search qid (i ∷ items) (keep_front i o)
  keep_front-Search qid i items none n t = (n, t)
  keep_front-Search qid i items (some (item, others)) n t = record {
    before = i ∷ t.before;
    after = t.after;
    split = ap (λ l. i ∷ l) t.split;
    rest = ap (λ l. i ∷ l) t.rest;
    named = t.named;
    first = (n, t.first);
  }

  take_item-Search :
      (qid : Text) (items : List (QueueItem fl)) → Search qid items (take_item qid items)
  unfolding take_item
  take_item-Search qid [] = tt
  take_item-Search qid (i ∷ items) = elim (Bool-cases (i.qid == qid)) [
    | inl e ↦ rw e (record {
      before = [];
      after = items;
      split = refl;
      rest = refl;
      named = (text_eq_iff i.qid qid).0 e;
      first = tt;
    })
    | inr e ↦
        let n : i.qid ≢ qid = λ p. (let q = (text_eq_iff i.qid qid).1 p in cc) in
        rw e (keep_front-Search qid i items (take_item qid items) n (take_item-Search qid items))
  ]

module _ {fl : Floats} (sv : Services) (cf : Config fl sv) where
  -- When no write fails, rejecting an id either finds no item with it in the queue, reports that, and
  -- nothing changes; or it drops the first item with the id from the queue, keeps the others in their
  -- order, returns no outcome, and touches no file, row or skill.
  pub review-reject :
      (qid : Text) (g : Gate fl sv)
      → g.vault.writes ≡ []
      → (Unqueued qid g.queue
          × (review sv cf qid false g ≡ (err (not_found (no_queue_item qid)), g)))
        ⊎ ((item : QueueItem fl) × Took qid g.queue item (review sv cf qid false g).1.queue
            × ((review sv cf qid false g).0 ≡ ok none)
            × Untouched g (review sv cf qid false g).1)
  unfolding review save_queue write_other Store.change
  review-reject qid g w = go (take_item qid g.queue) refl (take_item-Search qid g.queue)
    where
      go :
          (o : Option (QueueItem fl × List (QueueItem fl)))
          → take_item qid g.queue ≡ o
          → Search qid g.queue o
          → (Unqueued qid g.queue
              × (review sv cf qid false g ≡ (err (not_found (no_queue_item qid)), g)))
            ⊎ ((item : QueueItem fl) × Took qid g.queue item (review sv cf qid false g).1.queue
                × ((review sv cf qid false g).0 ≡ ok none)
                × Untouched g (review sv cf qid false g).1)
      go none e t = inl (t, rw e refl)
      go (some (item, others)) e t =
          inr (rw (e, w) (item, t, refl, record { files = refl; rows = refl; skills = refl }))
