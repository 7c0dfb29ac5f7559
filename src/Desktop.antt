-- ===== src/Desktop.antt =====
-- crates/tuskd/src/service.rs: the active vault and the vaults used before.
use tuskd.Prelude.{
  ℕ, suc, zero, ◌≤◌, false, Option, none, some, List, [], ◌∷◌, ◌≡◌, refl, ◌==◌, if◌then◌else◌,
  arith, length, take, contains, Bool-cases, inl, inr,
}
use tuskd.Text.{Text, Text_eq, text_eq_iff}

-- Paths are their texts.
pub record DesktopState : Type 0 where
  pub active_vault : Option Text
  pub recents : List Text

-- `retain(|p| p != path)`
unfoldable pub without : Text → List Text → List Text
without path [] = []
without path (p ∷ l) = if path == p then without path l else p ∷ without path l

abbrev push_previous : Text → Option Text → List Text → List Text
push_previous vault none l = l
push_previous vault (some previous) l =
    if previous == vault then l else previous ∷ without previous l

unfoldable pub set_active : Text → DesktopState → DesktopState
unfolding without
set_active vault s = record {
  active_vault = some vault;
  recents = take 10 (push_previous vault s.active_vault (without vault s.recents));
}

unfoldable pub set_all : List Text → DesktopState → DesktopState
unfolding set_active
set_all [] s = s
set_all (vault ∷ vaults) s = set_all vaults (set_active vault s)

abbrev pub Distinct : List Text → Type 0
Distinct [] = Unit {0}
Distinct (p ∷ l) = (contains p l ≡ false) × Distinct l

abbrev Absent : Option Text → List Text → Type 0
Absent none l = Unit {0}
Absent (some p) l = contains p l ≡ false

-- At most ten recent vaults, none twice, and the active one is not among them.
pub record IsTidy (s : DesktopState) : Type 0 where
  pub capped : length s.recents ≤ 10
  pub distinct : Distinct s.recents
  pub inactive : Absent s.active_vault s.recents

without-absent : (path : Text) (l : List Text) → contains path (without path l) ≡ false
unfolding without contains
without-absent path [] = refl
without-absent path (p ∷ l) = ground (arith, without-absent path l)

without-contains :
    (q path : Text) (l : List Text) → contains q l ≡ false → contains q (without path l) ≡ false
unfolding without contains
without-contains q path [] h = refl
without-contains q path (p ∷ l) h = ground (arith, without-contains q path l)

without-Distinct : (path : Text) (l : List Text) → Distinct l → Distinct (without path l)
unfolding without
without-Distinct path [] d = tt
without-Distinct path (p ∷ l) d = elim (Bool-cases (path == p)) [
  | inl e ↦ rw e (without-Distinct path l d.1)
  | inr e ↦ rw e (without-contains p path l d.0, without-Distinct path l d.1)
]

take-contains :
    (q : Text) (n : ℕ) (l : List Text) → contains q l ≡ false → contains q (take n l) ≡ false
unfolding contains
take-contains q zero l h = refl
take-contains q (suc n) [] h = h
take-contains q (suc n) (p ∷ l) h = ground (arith, take-contains q n l)

take-Distinct : (n : ℕ) (l : List Text) → Distinct l → Distinct (take n l)
take-Distinct zero l d = tt
take-Distinct (suc n) [] d = tt
take-Distinct (suc n) (p ∷ l) d = (take-contains p n l d.0, take-Distinct n l d.1)

take-length : (n : ℕ) (l : List Text) → length (take n l) ≤ n
take-length zero l = omega arith
take-length (suc n) [] = omega arith
take-length (suc n) (p ∷ l) = omega (arith, take-length n l)

push_previous-Distinct :
    (vault : Text) (o : Option Text) (l : List Text)
    → Distinct l
    → Distinct (push_previous vault o l)
push_previous-Distinct vault none l d = d
push_previous-Distinct vault (some previous) l d = elim (Bool-cases (previous == vault)) [
  | inl e ↦ rw e d
  | inr e ↦ rw e (without-absent previous l, without-Distinct previous l d)
]

push_previous-contains :
    (vault : Text) (o : Option Text) (l : List Text)
    → contains vault l ≡ false
    → contains vault (push_previous vault o l) ≡ false
unfolding contains
push_previous-contains vault none l h = h
push_previous-contains vault (some previous) l h = ground (
  arith,
  without-contains vault previous l h,
  text_eq_iff vault previous,
  text_eq_iff previous vault,
)

set_active-IsTidy : (vault : Text) (s : DesktopState) → IsTidy s → IsTidy (set_active vault s)
unfolding set_active
set_active-IsTidy vault s t = record {
  capped = take-length 10 _;
  distinct =
      take-Distinct 10 _ (
        push_previous-Distinct vault s.active_vault _
          (without-Distinct vault s.recents t.distinct));
  inactive =
      take-contains vault 10 _
        (push_previous-contains vault s.active_vault _ (without-absent vault s.recents));
}

-- Whatever vaults are made active one after the other, from a tidy state: the recent ones stay at most
-- ten and without repetition, and the active vault is not among them.
pub set_all-IsTidy : (vaults : List Text) (s : DesktopState) → IsTidy s → IsTidy (set_all vaults s)
unfolding set_all
set_all-IsTidy [] s t = t
set_all-IsTidy (vault ∷ vaults) s t =
    set_all-IsTidy vaults (set_active vault s) (set_active-IsTidy vault s t)
