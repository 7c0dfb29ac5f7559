-- ===== src/Vault/Files.antt =====
-- vault.rs: finding a file again after a change of the files.
use tuskd.Prelude.{
  false, none, some, List, [], ◌∷◌, ◌≡◌, ◌≢◌, refl, ap, sym, ◌∙◌, ◌==◌, if◌then◌else◌, arith,
  ==-false, Bool-cases, inl, inr,
}
use tuskd.Text.{Text, Text_eq, text_eq_iff}
use package.tuskd.Vault.Paths.{FilePath, FilePath_eq, path_eq_iff}
use package.tuskd.Vault.Store.{content_at, put_file, drop_file, find_in}

-- No file but the one at `p` has the name.
abbrev pub Alone : Text → FilePath → List (FilePath × Text) → Type 0
Alone name p [] = Unit {0}
Alone name p ((q, text) ∷ files) = (q.name ≡ name → q ≡ p) × Alone name p files

pub content_at-put_file :
    (p q : FilePath) (text : Text) (files : List (FilePath × Text))
    → content_at q (put_file p text files) ≡ (if p == q then some text else content_at q files)
unfolding content_at put_file
content_at-put_file p q text [] = refl
content_at-put_file p q text ((o, old) ∷ files) =
    ground
      (arith, content_at-put_file p q text files, path_eq_iff o p, path_eq_iff p q, path_eq_iff o q)

pub find_in-put_file :
    (name : Text) (p : FilePath) (text : Text) (files : List (FilePath × Text))
    → p.name ≡ name
    → Alone name p files
    → find_in name (put_file p text files) ≡ some p
unfolding find_in put_file
find_in-put_file name p text [] e a = rw ((text_eq_iff p.name name).1 e) refl
find_in-put_file name p text ((q, old) ∷ files) e a = elim (Bool-cases (q == p)) [
  | inl x ↦ rw (x, (text_eq_iff p.name name).1 e) refl
  | inr x ↦ elim (Bool-cases (q.name == name)) [
    | inl y ↦ absurd (differ x (a.0 ((text_eq_iff q.name name).0 y)))
    | inr y ↦ rw (x, y) (find_in-put_file name p text files e a.1)
  ]
]
  where
    differ : (q == p) ≡ false → q ≢ p
    differ x same = let t = (path_eq_iff q p).1 same in cc

pub find_in-put_file_other :
    (name : Text) (p : FilePath) (text : Text) (files : List (FilePath × Text))
    → p.name ≢ name
    → find_in name (put_file p text files) ≡ find_in name files
unfolding find_in put_file
find_in-put_file_other name p text [] e = rw (==-false p.name name e) refl
find_in-put_file_other name p text ((q, old) ∷ files) e = elim (Bool-cases (q == p)) [
  | inl x ↦
      let same = ap (λ y. y.name) ((path_eq_iff q p).0 x) in
      rw (x, ==-false p.name name e, ==-false q.name name (λ z. e (sym same ∙ z))) refl
  | inr x ↦
      rw x (
        ap (λ o. if q.name == name then some q else o) (find_in-put_file_other name p text files e))
]

pub find_in-drop_file :
    (name : Text) (p : FilePath) (files : List (FilePath × Text))
    → Alone name p files
    → find_in name (drop_file p files) ≡ none
unfolding find_in drop_file
find_in-drop_file name p [] a = refl
find_in-drop_file name p ((q, old) ∷ files) a = elim (Bool-cases (q == p)) [
  | inl x ↦ rw x (find_in-drop_file name p files a.1)
  | inr x ↦ elim (Bool-cases (q.name == name)) [
    | inl y ↦ absurd (differ x (a.0 ((text_eq_iff q.name name).0 y)))
    | inr y ↦ rw (x, y) (find_in-drop_file name p files a.1)
  ]
]
  where
    differ : (q == p) ≡ false → q ≢ p
    differ x same = let t = (path_eq_iff q p).1 same in cc

-- A file keeps being alone with its name when a file of another name is put.
pub Alone-put_file :
    (name : Text) (p q : FilePath) (text : Text) (files : List (FilePath × Text))
    → q.name ≢ name
    → Alone name p files
    → Alone name p (put_file q text files)
unfolding put_file
Alone-put_file name p q text [] e a = ((λ h. absurd (e h)), tt)
Alone-put_file name p q text ((o, old) ∷ files) e a = elim (Bool-cases (o == q)) [
  | inl x ↦ rw x ((λ h. absurd (e h)), a.1)
  | inr x ↦ rw x (a.0, Alone-put_file name p q text files e a.1)
]

pub Alone-put_file_self :
    (name : Text) (p : FilePath) (text : Text) (files : List (FilePath × Text))
    → Alone name p files
    → Alone name p (put_file p text files)
unfolding put_file
Alone-put_file_self name p text [] a = ((λ h. refl), tt)
Alone-put_file_self name p text ((o, old) ∷ files) a = elim (Bool-cases (o == p)) [
  | inl x ↦ rw x ((λ h. refl), a.1)
  | inr x ↦ rw x (a.0, Alone-put_file_self name p text files a.1)
]
