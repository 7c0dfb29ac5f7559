-- ===== src/Journal/CatchUp.antt =====
-- sync.rs: the loop of `reconcile` over the files.
use tuskd.Prelude.{
  true, false, Option, none, some, List, [], ◌∷◌, ◌≡◌, refl, ap, sym, ◌∙◌, ◌==◌, if◌then◌else◌,
  Bool-cases, inl, inr, subst, ◌⊎◌, ==-refl,
}
use tuskd.Text.{Text, Text_eq, text_eq_iff}
use tuskd.Exec.{Ends, Ends-bind, Ends-mono}
use tuskd.BTreeMap.{BTreeMap, lookup, remove, Distinct, lookup-insert, lookup-remove}
use package.tuskd.Journal.{OpKind, Services, Journal, append}
use package.tuskd.Journal.Chain.{JsonLaws, entry}
use package.tuskd.Journal.Entries.{apply_entry}
use package.tuskd.Journal.Live.{Tracks, append-Tracks}
use package.tuskd.Journal.Reconcile.{is_known, put_changed}

module _ (sv : Services) where
  lookup-put :
      (rel hash p : Text) (j : Journal) (m : BTreeMap Text)
      → lookup p (apply_entry (entry sv OpKind.put rel (some hash) j) m)
        ≡ (if rel == p then some hash else lookup p m)
  unfolding apply_entry
  lookup-put rel hash p j m = lookup-insert p rel hash m

  pub lookup-tombstone :
      (rel p : Text) (j : Journal) (m : BTreeMap Text)
      → lookup p (apply_entry (entry sv OpKind.tombstone rel none j) m)
        ≡ (if rel == p then none else lookup p m)
  unfolding apply_entry
  lookup-tombstone rel p j m = lookup-remove p rel m

-- Where a path is on the disk, the disk says what it holds; elsewhere `old` does.
abbrev pub or_old : Option Text → Option Text → Option Text
or_old none old = old
or_old (some h) old = some h

abbrev pub over : List (Text × Text) → Option Text → Text → Option Text
over disk old p = or_old (lookup p disk) old

abbrev pub keep_unless : Option Text → Option Text → Option Text
keep_unless none o = o
keep_unless (some h) o = none

-- After the loop over `disk`, with `live` before it.
pub record Synced (sv : Services) (vault_id : Text) (alive : BTreeMap Text) (live : BTreeMap Text)
    (disk : List (Text × Text)) (left : BTreeMap Text) (j : Journal) : Type 0 where
  pub after : BTreeMap Text
  pub tracks : Tracks sv vault_id after j
  pub is_disk : (p : Text) → lookup p after ≡ over disk (lookup p alive) p
  pub is_left : (p : Text) → lookup p left ≡ keep_unless (lookup p disk) (lookup p live)

-- The first file of `disk` is known or put: `next` is alive then.
module _ (rel hash : Text) (disk : List (Text × Text)) (live alive next : BTreeMap Text)
    (fresh : lookup rel disk ≡ none)
    (step : (p : Text) → lookup p next ≡ (if rel == p then some hash else lookup p alive)) where
  pub rest_same :
      ((p h : Text) → lookup p ((rel, hash) ∷ disk) ≡ some h → lookup p live ≡ lookup p alive)
      → (p h : Text) → lookup p disk ≡ some h
      → lookup p (remove rel live) ≡ lookup p next
  unfolding lookup
  rest_same s p h e = elim (Bool-cases (rel == p)) [
    | inl q ↦
        let same = (text_eq_iff rel p).0 q in
        let other = subst (λ x. lookup x disk ≡ none) same fresh in cc
    | inr q ↦ rw (lookup-remove p rel live, step p, q) (s p h (rw q e))
  ]

  left_side :
      (p : Text)
      → ((rel == p) ≡ true) ⊎ ((rel == p) ≡ false)
      → keep_unless (lookup p disk) (if rel == p then none else lookup p live)
        ≡ keep_unless (lookup p ((rel, hash) ∷ disk)) (lookup p live)
  unfolding lookup
  left_side p (inl q) =
      let absent = subst (λ x. lookup x disk ≡ none) ((text_eq_iff rel p).0 q) fresh in
      rw (absent, q) refl
  left_side p (inr q) = rw q refl

  pub left_cons :
      (left : BTreeMap Text)
      → ((p : Text) → lookup p left ≡ keep_unless (lookup p disk) (lookup p (remove rel live)))
      → (p : Text) → lookup p left ≡ keep_unless (lookup p ((rel, hash) ∷ disk)) (lookup p live)
  left_cons left h p =
      h p
      ∙ ap (keep_unless (lookup p disk)) (lookup-remove p rel live)
      ∙ left_side p (Bool-cases (rel == p))

  Synced-cons :
      (sv : Services) (vault_id : Text) (left : BTreeMap Text) (j : Journal)
      → Synced sv vault_id next (remove rel live) disk left j
      → Synced sv vault_id alive live ((rel, hash) ∷ disk) left j
  unfolding lookup
  Synced-cons sv vault_id left j y = record {
    after = y.after;
    tracks = y.tracks;
    is_disk = λ p. y.is_disk p ∙ disk_side p (Bool-cases (rel == p));
    is_left = left_cons left y.is_left;
  }
    where
      absent : (p : Text) → (rel == p) ≡ true → lookup p disk ≡ none
      absent p q = subst (λ x. lookup x disk ≡ none) ((text_eq_iff rel p).0 q) fresh

      disk_side :
          (p : Text)
          → ((rel == p) ≡ true) ⊎ ((rel == p) ≡ false)
          → over disk (lookup p next) p ≡ over ((rel, hash) ∷ disk) (lookup p alive) p
      disk_side p (inl q) = rw (absent p q, step p, q) refl
      disk_side p (inr q) = rw (step p, q) refl

pub is_known_same : (o : Option Text) (hash : Text) → is_known o hash ≡ true → o ≡ some hash
unfolding is_known
is_known_same none hash e = cc
is_known_same (some known) hash e = ap some ((text_eq_iff known hash).0 e)

-- A file whose hash is known is alive with it.
pub known_step :
    (rel hash : Text) (disk : List (Text × Text)) (live alive : BTreeMap Text)
    → is_known (lookup rel live) hash ≡ true
    → ((p h : Text) → lookup p ((rel, hash) ∷ disk) ≡ some h → lookup p live ≡ lookup p alive)
    → (p : Text) → lookup p alive ≡ (if rel == p then some hash else lookup p alive)
unfolding lookup
known_step rel hash disk live alive e s p =
    let there = sym (s rel hash (rw (==-refl rel) refl)) ∙ is_known_same (lookup rel live) hash e in
    go (Bool-cases (rel == p)) there
  where
    go :
        ((rel == p) ≡ true) ⊎ ((rel == p) ≡ false)
        → lookup rel alive ≡ some hash
        → lookup p alive ≡ (if rel == p then some hash else lookup p alive)
    go (inl q) there =
        rw q (subst (λ x. lookup x alive ≡ some hash) ((text_eq_iff rel p).0 q) there)
    go (inr q) there = rw q refl

module _ {sv : Services} (laws : JsonLaws sv) (vault_id : Text) where
  pub put_changed-Synced :
      (live alive : BTreeMap Text) (disk : List (Text × Text)) (j : Journal)
      → Distinct disk
      → ((p h : Text) → lookup p disk ≡ some h → lookup p live ≡ lookup p alive)
      → Tracks sv vault_id alive j
      → Ends (λ r. Synced sv vault_id alive live disk r.1) (put_changed sv live disk j)
  unfolding put_changed lookup
  put_changed-Synced live alive [] j d s t = record {
    after = alive;
    tracks = t;
    is_disk = λ p. refl;
    is_left = λ p. refl;
  }
  put_changed-Synced live alive ((rel, hash) ∷ disk) j d s t =
      elim (Bool-cases (is_known (lookup rel live) hash)) [
        | inl e ↦ rw e (
            Ends-mono _ _ (put_changed sv (remove rel live) disk j)
              (put_changed-Synced (remove rel live) alive disk j d.1
                (rest_same rel hash disk live alive alive d.0
                  (known_step rel hash disk live alive e s) s)
                t)
              (λ r i.
                Synced-cons rel hash disk live alive alive d.0
                  (known_step rel hash disk live alive e s) sv vault_id r.1 i))
        | inr e ↦ rw e (
            Ends-bind _ _ (append sv OpKind.put rel (some hash) j) _
              (append-Tracks laws vault_id OpKind.put rel (some hash) alive j t)
              λ x i u.
                Ends-bind _ _ (put_changed sv (remove rel live) disk i) _
                  (put_changed-Synced (remove rel live)
                    (apply_entry (entry sv OpKind.put rel (some hash) j) alive) disk i d.1
                    (rest_same rel hash disk live alive _ d.0
                      (λ p. lookup-put sv rel hash p j alive) s)
                    u)
                  (λ r k y.
                    Synced-cons rel hash disk live alive _ d.0
                      (λ p. lookup-put sv rel hash p j alive) sv vault_id r.1 k y))
      ]
