-- ===== src/Worker/Cycle/Latest.antt =====
-- sync_worker.rs: `latest_seq` reads the log of operations page by page to its end.
use tuskd.Prelude.{
  ℕ, zero, suc, some, List, [], ◌∷◌, ◌≡◌, ◌<◌, ◌≤◌, refl, sym, ap, subst, ◌∙◌, length, take, drop,
  arith,
}
use tuskd.Text.Number.{ℤ, pos}
use tuskd.SyncErrors
use tuskd.SyncErrors.{SyncResult}
use tuskd.Errors.{ok}
use tuskd.Cloud.Service.{Cloud, CloudOp}
use package.tuskd.Worker.State.{Device}
use package.tuskd.Worker.Cycle.{last_seq, latest_from, latest_seq}

-- The number of the last operation, where there is one.
abbrev pub newest : ℤ → List CloudOp → ℤ
newest seq [] = seq
newest seq (op ∷ ops) = newest op.seq ops

last_seq-newest :
    (op : CloudOp) (ops : List CloudOp) → last_seq (op ∷ ops) ≡ some (newest op.seq ops)
last_seq-newest op [] = refl
last_seq-newest op (next ∷ ops) = last_seq-newest next ops

newest-split :
    (n : ℕ) (seq : ℤ) (ops : List CloudOp)
    → newest (newest seq (take n ops)) (drop n ops) ≡ newest seq ops
newest-split zero seq ops = refl
newest-split (suc n) seq [] = refl
newest-split (suc n) seq (op ∷ ops) = newest-split n op.seq ops

length-drop : {A : Type 0} (n : ℕ) (l : List A) → length (drop n l) ≤ length l
length-drop zero l = omega arith
length-drop (suc n) [] = omega arith
length-drop (suc n) (a ∷ l) =
    (let h : length (drop n l) ≤ length l = length-drop n l in omega arith)

module _ (cl : Cloud) where
  -- In this state of the service, the log of operations is read in pages: a page has the first operations past a number,
  -- and what is past the last of them is the rest.
  pub record LogLaws (w : cl.World) : Type 0 where
    pub past : ℤ → List CloudOp
    pub page :
        (seq : ℤ) (n : ℕ) → cl.ops_since seq (some n) w ≡ (SyncErrors.ok (take n (past seq)), w)
    pub next :
        (seq : ℤ) (n : ℕ) (last : ℤ)
        → last_seq (take n (past seq)) ≡ some last
        → past last ≡ drop n (past seq)

  module _ (w : cl.World) (log : LogLaws w) where
    latest_from-newest :
        (fuel : ℕ) (seq : ℤ) (ops : List CloudOp)
        → log.past seq ≡ ops
        → length ops < fuel
        → latest_from cl fuel seq w ≡ some (SyncErrors.ok (newest seq ops), w)
    unfolding latest_from
    latest_from-newest zero seq ops e h = (let no : ⊥ = omega arith in absurd no)
    latest_from-newest (suc fuel) seq [] e h = rw (log.page seq 500, e) refl
    latest_from-newest (suc fuel) seq (op ∷ ops) e h =
        let last = newest op.seq (take 499 ops) in
        let l : last_seq (take 500 (op ∷ ops)) ≡ some last = last_seq-newest op (take 499 ops) in
        let k : log.past last ≡ drop 499 ops =
          log.next seq 500 last (subst (λ o. last_seq (take 500 o) ≡ some last) (sym e) l)
          ∙ ap (drop 500) e in
        let d : length (drop 499 ops) ≤ length ops = length-drop 499 ops in
        let r = latest_from-newest fuel last (drop 499 ops) k (omega arith) in
        rw (log.page seq 500, e, l, r)
          (ap (λ n. some (SyncErrors.ok n, w)) (newest-split 499 op.seq ops))

  -- latest_seq returns, and with the number of the last operation of the log, or 0 where the log is empty,
  -- in as many rounds as the log has operations and one more, and leaves the device as it was: where
  -- the service gives the log in pages and its state does not change.
  pub latest_seq-newest :
      (rounds : ℕ) (d : Device cl) (log : LogLaws d.world)
      → length (log.past (pos 0)) < rounds
      → latest_seq cl rounds d ≡ (ok (newest (pos 0) (log.past (pos 0))), d)
  unfolding latest_seq
  latest_seq-newest rounds d log h =
      rw (latest_from-newest d.world log rounds (pos 0) (log.past (pos 0)) refl h) refl
