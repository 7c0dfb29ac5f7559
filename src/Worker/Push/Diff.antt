-- ===== src/Worker/Push/Diff.antt =====
-- sync_worker.rs: the files that a push uploads and removes make up the difference to the disk.
use tuskd.Prelude.{
  Bool, true, false, not, Option, none, some, List, [], ◌∷◌, ◌≡◌, refl, sym, subst, ◌∙◌, ◌==◌, ◌&&◌,
  arith, Bool-cases, inl, inr, if◌then◌else◌, contains,
}
use tuskd.Text.{Text, Text_eq, text_eq_iff}
use tuskd.BTreeMap.{BTreeMap, lookup}
use tuskd.BTreeMap.Order.{Above, IsSorted, lookup-Above}
use package.tuskd.Worker.State.{FileState}
use package.tuskd.Worker.Scan.{vault_files, in_scan}
use package.tuskd.Worker.Pull.{is_some}
use package.tuskd.Worker.Push.{has_changed, changed, deleted}
use package.tuskd.Worker.Push.Hashes.{Hashes, uploaded, cleared, updated}

vault_files-Above : (k : Text) (disk : BTreeMap Text) → Above k disk → Above k (vault_files disk)
unfolding vault_files
vault_files-Above k [] a = tt
vault_files-Above k ((rel, bytes) ∷ disk) a = elim (Bool-cases (in_scan rel)) [
  | inl e ↦ rw e (a.0, vault_files-Above k disk a.1)
  | inr e ↦ rw e (vault_files-Above k disk a.1)
]

pub vault_files-IsSorted : (disk : BTreeMap Text) → IsSorted disk → IsSorted (vault_files disk)
unfolding vault_files
vault_files-IsSorted [] s = tt
vault_files-IsSorted ((rel, bytes) ∷ disk) s = elim (Bool-cases (in_scan rel)) [
  | inl e ↦ rw e (vault_files-Above rel disk s.0, vault_files-IsSorted disk s.1)
  | inr e ↦ rw e (vault_files-IsSorted disk s.1)
]

absent :
    (k bytes : Text) (files : BTreeMap Text) (r : Text)
    → IsSorted ((k, bytes) ∷ files)
    → (k == r) ≡ true
    → lookup r files ≡ none
absent k bytes files r s e =
    subst (λ t. lookup t files ≡ none) ((text_eq_iff k r).0 e) (lookup-Above k files s.0)

module _ (hash : Text → Text) where
  abbrev pub or_hash : Option Text → Option Text → Option Text
  or_hash none o = o
  or_hash (some bytes) o = some (hash bytes)

  pub uploaded_lem :
      (files : BTreeMap Text) (hs : Hashes) (r : Text)
      → IsSorted files
      → uploaded hash files hs r ≡ or_hash (lookup r files) (hs r)
  unfolding uploaded lookup
  uploaded_lem [] hs r s = refl
  uploaded_lem ((k, bytes) ∷ files) hs r s = elim (Bool-cases (k == r)) [
    | inl e ↦ rw e (uploaded_lem files _ r s.1 ∙ own e (absent k bytes files r s e))
    | inr e ↦ rw e (uploaded_lem files _ r s.1 ∙ rw e refl)
  ]
    where
      own :
          (k == r) ≡ true
          → lookup r files ≡ none
          → or_hash (lookup r files) (updated k (some (hash bytes)) hs r) ≡ some (hash bytes)
      own e n = rw (n, e) refl

  module _ (known : BTreeMap FileState) where
    changed-Above :
        (k : Text) (disk : BTreeMap Text) → Above k disk → Above k (changed hash known disk)
    unfolding changed
    changed-Above k [] a = tt
    changed-Above k ((rel, bytes) ∷ disk) a =
        elim (Bool-cases (has_changed hash bytes (lookup rel known))) [
          | inl e ↦ rw e (a.0, changed-Above k disk a.1)
          | inr e ↦ rw e (changed-Above k disk a.1)
        ]

    pub changed-IsSorted :
        (disk : BTreeMap Text) → IsSorted disk → IsSorted (changed hash known disk)
    unfolding changed
    changed-IsSorted [] s = tt
    changed-IsSorted ((rel, bytes) ∷ disk) s =
        elim (Bool-cases (has_changed hash bytes (lookup rel known))) [
          | inl e ↦ rw e (changed-Above rel disk s.0, changed-IsSorted disk s.1)
          | inr e ↦ rw e (changed-IsSorted disk s.1)
        ]

    abbrev pub if_changed : Option FileState → Option Text → Option Text
    if_changed f none = none
    if_changed f (some bytes) = if has_changed hash bytes f then some bytes else none

    pub lookup-changed :
        (r : Text) (disk : BTreeMap Text)
        → IsSorted disk
        → lookup r (changed hash known disk) ≡ if_changed (lookup r known) (lookup r disk)
    unfolding changed lookup
    lookup-changed r [] s = refl
    lookup-changed r ((k, bytes) ∷ disk) s =
        elim (Bool-cases (has_changed hash bytes (lookup k known))) [
          | inl c ↦ elim (Bool-cases (k == r)) [
            | inl e ↦ rw (c, e) (sym (rw (at_r e true c) refl))
            | inr e ↦ rw (c, e) (lookup-changed r disk s.1)
          ]
          | inr c ↦ elim (Bool-cases (k == r)) [
            | inl e ↦
                rw (c, e)
                  (lookup-changed r disk s.1 ∙ rw (absent k bytes disk r s e, at_r e false c) refl)
            | inr e ↦ rw (c, e) (lookup-changed r disk s.1)
          ]
        ]
      where
        at_r :
            (k == r) ≡ true
            → (b : Bool) → has_changed hash bytes (lookup k known) ≡ b
            → has_changed hash bytes (lookup r known) ≡ b
        at_r e b c =
            subst (λ t. has_changed hash bytes (lookup t known) ≡ b) ((text_eq_iff k r).0 e) c

    pub among-deleted :
        (r : Text) (disk : BTreeMap Text) (files : BTreeMap FileState)
        → contains r (deleted disk files)
          ≡ (is_some (lookup r files) && not (is_some (lookup r disk)))
    unfolding deleted lookup contains
    among-deleted r disk [] = refl
    among-deleted r disk ((k, f) ∷ files) =
        ground (arith, among-deleted r disk files, text_eq_iff k r, text_eq_iff r k)

pub cleared_lem :
    (rels : List Text) (hs : Hashes) (r : Text)
    → cleared rels hs r ≡ (if contains r rels then none else hs r)
unfolding cleared contains
cleared_lem [] hs r = refl
cleared_lem (k ∷ rels) hs r =
    ground (arith, cleared_lem rels (updated k none hs) r, text_eq_iff k r, text_eq_iff r k)
