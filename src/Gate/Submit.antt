-- ===== src/Gate/Submit.antt =====
-- gate.rs: `submit`, `review` and the queue.
use tuskd.Prelude.{
  ℕ, Bool, true, false, Option, none, some, List, [], ◌∷◌, ◌++◌, length, ◌==◌, if◌then◌else◌,
}
use tuskd.Text.{Text, codes, Text_eq}
use tuskd.Errors.{Result, ok, err, not_found, no_queue_item, ok_or}
use tuskd.Exec.{Exec, pure, lift, gets, ◌>>=◌, ◌>>◌}
use tuskd.Floats.{Floats}
use tuskd.Time.{fmt_ts}
use tuskd.Record.Kind.{RecordType, RecordType_eq}
use tuskd.Record.Fields.{Record}
use tuskd.Record.Markdown.{body_hash}
use tuskd.Journal.{Services}
use tuskd.Vault.Paths.{FilePath}
use tuskd.Vault.Store.{VaultStore}
use tuskd.Vault.Store
use tuskd.Index.{find_valid_by_body_hash}
use tuskd.Index.Search.{SearchQuery, SearchHit, search}
use package.tuskd.Gate.Words.{token_overlap}
use package.tuskd.Gate.Commit.{
  Policy, auto, review_first, policy_for, Candidate, GateOutcome, rejected_duplicate, queued,
  QueueItem, Gate, Config, on_vault, save_queue, commit,
}

abbrev pub first_of : List Text → Option Text
first_of [] = none
first_of (id ∷ ids) = some id

module _ (fl : Floats) (sv : Services) where
  unfoldable pub review_list : Gate fl sv → List (QueueItem fl)
  review_list g = g.queue

  unfoldable pub queue_depth : Gate fl sv → ℕ
  queue_depth g = length g.queue

module _ {fl : Floats} where
  abbrev pub keep_front :
      QueueItem fl
      → Option (QueueItem fl × List (QueueItem fl))
      → Option (QueueItem fl × List (QueueItem fl))
  keep_front i none = none
  keep_front i (some (found, others)) = some (found, i ∷ others)

  -- `position` and `remove`: the first item with the id, and the others.
  unfoldable pub take_item :
      Text → List (QueueItem fl) → Option (QueueItem fl × List (QueueItem fl))
  take_item qid [] = none
  take_item qid (i ∷ items) =
      let rest = take_item qid items in if i.qid == qid then some (i, items) else keep_front i rest

module _ {fl : Floats} (sv : Services) (cf : Config fl sv) where
  -- The exact duplicate of a candidate, one query on the hash.
  unfoldable pub existing : Candidate fl → Gate fl sv → Option Text
  unfolding find_valid_by_body_hash body_hash
  existing c g =
      first_of
        (find_valid_by_body_hash cf.sha256_hex c.scope (body_hash cf.sha256_hex c.body) g.rows)

  abbrev pub corrected : Candidate fl → Result (FilePath × Record fl sv.chrono) → Candidate fl
  corrected c (err e) = c
  corrected c (ok (p, r)) =
      if cf.unicode.gt (token_overlap cf.unicode c.body r.body) cf.unicode.threshold
      then record c { corrects = some r.id }
      else c

  abbrev pub probed : Candidate fl → Option Text → Gate fl sv → Candidate fl
  probed c none g = c
  probed c (some top) g = corrected c (Store.get sv fl top g.vault).0

  abbrev pub unless_explicit : Option Text → Candidate fl → Candidate fl → Candidate fl
  unless_explicit none c found = found
  unless_explicit (some id) c found = c

  -- The nearest valid record of the candidate's scope.
  abbrev pub near : Candidate fl → SearchQuery sv.chrono
  near c = record {
    query = c.body;
    scopes = some (c.scope ∷ []);
    kind = none;
    tags = none;
    as_of = none;
    include_invalid = false;
    k = 1;
  }

  abbrev pub top_of : List (SearchHit fl) → Option Text
  top_of [] = none
  top_of (h ∷ hits) = some h.id

  -- The probe for near duplicates, unless the candidate says what it corrects.
  unfoldable pub probe : Candidate fl → Gate fl sv → Candidate fl
  unfolding token_overlap Store.get search
  probe c g = unless_explicit c.corrects c (probed c (top_of (search cf.engine (near c) g.rows)) g)

  unfoldable pub policy_of : Candidate fl → Policy
  unfolding policy_for
  policy_of c = if c.kind == RecordType.skill then review_first else policy_for cf.policies c.scope

  unfoldable pub enqueue : Candidate fl → Text → Exec (Gate fl sv) GateOutcome
  unfolding on_vault Store.now save_queue fmt_ts
  enqueue c author = do
    items ← gets (λ g. g.queue)
    call ← gets (λ g. g.vault.calls)
    t ← on_vault (Store.now sv)
    let qid = codes "q-" ++ sv.ulid call t
    at ← on_vault (Store.now sv)
    save_queue (
        items
        ++ (record {
          qid = qid;
          author = author;
          submitted_at = fmt_ts sv.chrono at;
          candidate = c;
        })
          ∷ [])
    pure (queued qid)

  abbrev pub by_policy : Policy → Candidate fl → Text → Exec (Gate fl sv) GateOutcome
  by_policy auto c author = commit sv cf c author
  by_policy review_first c author = enqueue c author

  abbrev pub unless_duplicate :
      Option Text → Exec (Gate fl sv) GateOutcome → Exec (Gate fl sv) GateOutcome
  unless_duplicate (some id) rest = pure (rejected_duplicate id)
  unless_duplicate none rest = rest

  unfoldable pub submit : Candidate fl → Text → Exec (Gate fl sv) GateOutcome
  unfolding existing probe policy_of commit enqueue
  submit c author g =
      unless_duplicate (existing c g) (by_policy (policy_of (probe c g)) (probe c g) author) g

  abbrev pub decide : Bool → QueueItem fl → Exec (Gate fl sv) (Option GateOutcome)
  decide false item = pure none
  decide true item = do
    found ← gets (existing item.candidate)
    outcome ← unless_duplicate found (commit sv cf item.candidate item.author)
    pure (some outcome)

  unfoldable pub review : Text → Bool → Exec (Gate fl sv) (Option GateOutcome)
  unfolding take_item save_queue existing commit
  review qid approve = do
    items ← gets (λ g. g.queue)
    (item, others) ← lift (ok_or (take_item qid items) (not_found (no_queue_item qid)))
    save_queue others
    decide approve item
