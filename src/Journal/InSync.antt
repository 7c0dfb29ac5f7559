-- ===== src/Journal/InSync.antt =====
-- sync.rs: after `reconcile` the journal's live state is the disk.
use tuskd.Prelude.{
  Bool, true, false, Option, none, some, List, [], ◌∷◌, ◌≡◌, refl, ap, sym, ◌∙◌, ◌==◌,
  if◌then◌else◌, arith, Bool-cases, inl, inr, ◌⊎◌, ==-refl,
}
use tuskd.Text.{Text, Text_eq, text_eq_iff}
use tuskd.Errors.{ok}
use tuskd.Exec.{Ends, Ends-bind}
use tuskd.BTreeMap.{
  BTreeMap, lookup, remove, into_keys, sort, Distinct, lookup-sort, sort-Distinct, all_none,
}
use package.tuskd.Journal.{OpKind, Services, Journal, append}
use package.tuskd.Journal.Chain.{JsonLaws, IsChained, entry}
use package.tuskd.Journal.Entries.{apply_entry}
use package.tuskd.Journal.Live.{Tracks, append-Tracks, live_state_total}
use package.tuskd.Journal.Reconcile.{is_known, put_changed, bury, reconcile}
use package.tuskd.Journal.CatchUp.{
  lookup-tombstone, put_changed-Synced, rest_same, left_cons, known_step, or_old, keep_unless,
  Synced,
}

abbrev among : Text → List Text → Bool
among p [] = false
among p (k ∷ keys) = if k == p then true else among p keys

record Buried (sv : Services) (vault_id : Text) (alive : BTreeMap Text) (keys : List Text)
    (j : Journal) : Type 0 where
  after : BTreeMap Text
  tracks : Tracks sv vault_id after j
  gone : (p : Text) → lookup p after ≡ (if among p keys then none else lookup p alive)

module _ {sv : Services} (laws : JsonLaws sv) (vault_id : Text) where
  bury_step :
      (rel : Text) (alive next : BTreeMap Text) (keys : List Text) (j : Journal)
      → ((p : Text) → lookup p next ≡ (if rel == p then none else lookup p alive))
      → Buried sv vault_id next keys j
      → Buried sv vault_id alive (rel ∷ keys) j
  bury_step rel alive next keys j s b = record {
    after = b.after;
    tracks = b.tracks;
    gone = λ p. b.gone p ∙ go p (Bool-cases (rel == p)) (Bool-cases (among p keys));
  }
    where
      go :
          (p : Text)
          → ((rel == p) ≡ true) ⊎ ((rel == p) ≡ false)
          → (among p keys ≡ true) ⊎ (among p keys ≡ false)
          → (if among p keys then none else lookup p next)
            ≡ (if among p (rel ∷ keys) then none else lookup p alive)
      go p (inl q) (inl a) = rw (q, a) refl
      go p (inl q) (inr a) = rw (s p, q, a) refl
      go p (inr q) (inl a) = rw (q, a) refl
      go p (inr q) (inr a) = rw (s p, q, a) refl

  bury-Buried :
      (alive : BTreeMap Text) (keys : List Text) (j : Journal)
      → Tracks sv vault_id alive j
      → Ends (λ n. Buried sv vault_id alive keys) (bury sv keys j)
  unfolding bury
  bury-Buried alive [] j t = record { after = alive; tracks = t; gone = λ p. refl }
  bury-Buried alive (rel ∷ keys) j t =
      Ends-bind _ _ (append sv OpKind.tombstone rel none j) _
        (append-Tracks laws vault_id OpKind.tombstone rel none alive j t)
        λ x i u.
          Ends-bind _ _ (bury sv keys i) _
            (bury-Buried (apply_entry (entry sv OpKind.tombstone rel none j) alive) keys i u)
            λ n k y. bury_step rel alive _ keys k (λ p. lookup-tombstone sv rel p j alive) y

among-none : (p : Text) (m : BTreeMap Text) → lookup p m ≡ none → among p (into_keys m) ≡ false
unfolding lookup
among-none p [] h = refl
among-none p ((k, v) ∷ m) h = ground (arith, among-none p m)

among-some : (p h : Text) (m : BTreeMap Text) → lookup p m ≡ some h → among p (into_keys m) ≡ true
unfolding lookup
among-some p h [] e = cc
among-some p h ((k, v) ∷ m) e = ground (arith, among-some p h m)

-- What is alive at a path in the end, from the file there and what was alive before.
is_disk_after :
    (p : Text) (left : BTreeMap Text) (file old now : Option Text)
    → lookup p left ≡ keep_unless file old
    → now ≡ or_old file old
    → (if among p (into_keys left) then none else now) ≡ file
is_disk_after p left (some h) old now l e = rw (among-none p left l) e
is_disk_after p left none none now l e = rw (among-none p left l) e
is_disk_after p left none (some h) now l e = rw (among-some p h left l) refl

-- The journal's live state, and the files.
pub record InSync (sv : Services) (vault_id : Text) (disk : List (Text × Text)) (j : Journal)
    : Type 0 where
  pub live : BTreeMap Text
  pub tracks : Tracks sv vault_id live j
  pub same : (p : Text) → lookup p live ≡ lookup p disk

module _ {sv : Services} (laws : JsonLaws sv) (vault_id : Text) (disk : List (Text × Text))
    (d : Distinct disk) where
  finish :
      (live left : BTreeMap Text) (j i : Journal)
      (y : Synced sv vault_id live live (sort disk) left j)
      → Buried sv vault_id y.after (into_keys left) i
      → InSync sv vault_id disk i
  finish live left j i y b = record {
    live = b.after;
    tracks = b.tracks;
    same = λ p.
        b.gone p
        ∙ is_disk_after p left (lookup p (sort disk)) (lookup p live) _ (y.is_left p) (y.is_disk p)
        ∙ lookup-sort p disk d;
  }

  -- On a chained journal with no failing write ahead, `reconcile` succeeds, and afterwards the live
  -- state has exactly the files of the disk with their hashes.
  pub reconcile-InSync :
      (j : Journal)
      → IsChained sv vault_id j
      → j.faults ≡ []
      → Ends (λ n. InSync sv vault_id disk) (reconcile sv disk j)
  unfolding reconcile
  reconcile-InSync j c f =
      let (live, e) = live_state_total laws vault_id j c in
      rw e (
        Ends-bind _ _ (put_changed sv live (sort disk) j) _
          (put_changed-Synced laws vault_id live live (sort disk) j (sort-Distinct disk d)
            (λ p h x. refl) (record { chained = c; readable = e; calm = f }))
          λ r k y.
            Ends-bind _ _ (bury sv (into_keys r.1) k) _
              (bury-Buried laws vault_id y.after (into_keys r.1) k y.tracks)
              λ n i b. finish live r.1 k i y b)

is_known_refl : (o : Option Text) (hash : Text) → o ≡ some hash → is_known o hash ≡ true
unfolding is_known
is_known_refl none hash e = cc
is_known_refl (some known) hash e = (text_eq_iff known hash).1 cc

behind :
    (rel hash p h : Text) (disk : List (Text × Text))
    → lookup rel disk ≡ none
    → lookup p disk ≡ some h
    → lookup p ((rel, hash) ∷ disk) ≡ some h
unfolding lookup
behind rel hash p h disk f e = ground (arith, text_eq_iff rel p)

-- Files that are all alive with their hashes.
put_changed_known :
    (sv : Services) (live : BTreeMap Text) (disk : List (Text × Text)) (j : Journal)
    → Distinct disk
    → ((p h : Text) → lookup p disk ≡ some h → lookup p live ≡ some h)
    → (left : BTreeMap Text) × (put_changed sv live disk j ≡ (ok (0, left), j))
      × ((p : Text) → lookup p left ≡ keep_unless (lookup p disk) (lookup p live))
unfolding put_changed lookup
put_changed_known sv live [] j d s = (live, refl, λ p. refl)
put_changed_known sv live ((rel, hash) ∷ disk) j d s =
    let known = s rel hash (rw (==-refl rel) refl) in
    let test = is_known_refl (lookup rel live) hash known in
    let kept = known_step rel hash disk live live test (λ p h e. refl) in
    let (left, run, l) = put_changed_known sv (remove rel live) disk j d.1 (λ p h e.
      rest_same rel hash disk live live live d.0 kept (λ q g x. refl) p h e
      ∙ s p h (behind rel hash p h disk d.0 e)) in
    (left, rw test run, left_cons rel hash disk live live live d.0 kept left l)

keep_same : (o : Option Text) → keep_unless o o ≡ none
keep_same none = refl
keep_same (some h) = refl

-- A second `reconcile` on the same disk appends nothing.
pub reconcile_again :
    (sv : Services) (vault_id : Text) (disk : List (Text × Text)) (j : Journal)
    → Distinct disk
    → InSync sv vault_id disk j
    → reconcile sv disk j ≡ (ok 0, j)
unfolding reconcile bury
reconcile_again sv vault_id disk j d y =
    let alive : (p : Text) → lookup p y.live ≡ lookup p (sort disk) =
      λ p. y.same p ∙ sym (lookup-sort p disk d) in
    let (left, run, l) =
      put_changed_known sv y.live (sort disk) j (sort-Distinct disk d) (λ p h e. alive p ∙ e) in
    let empty = all_none left (λ p.
      l p ∙ ap (keep_unless (lookup p (sort disk))) (alive p) ∙ keep_same (lookup p (sort disk))) in
    rw (y.tracks.readable, run, empty) refl
