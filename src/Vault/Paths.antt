-- ===== src/Vault/Paths.antt =====
-- vault.rs: the paths of the files below `memory`.
use tuskd.Prelude.{
  Bool, true, false, not, none, some, List, [], ◌∷◌, ◌++◌, ◌==◌, ◌&&◌, ◌≡◌, ◌↔◌, arith, ℕ_eq, all,
  PartialEq, list_eq, list_eq_iff, ap, ap₂,
}
use tuskd.Text.{Text, codes, Text_eq, starts_with, strip_suffix, text_eq_iff}
use tuskd.Scope.{rel_path}
use tuskd.Record.Fields.{Record}
use tuskd.Floats.{Floats}
use tuskd.Time.{Chrono}

-- The directories below `memory`, and the name of the file.
pub record FilePath : Type 0 where
  pub dirs : List Text
  pub name : Text

abbrev pub path_eq : FilePath → FilePath → Bool
path_eq p q = list_eq p.dirs q.dirs && p.name == q.name

path_same : (p q : FilePath) → p.dirs ≡ q.dirs → p.name ≡ q.name → p ≡ q
path_same p q d n = ap₂ (λ a b. record { dirs = a; name = b }) d n

pub path_eq_iff : (p q : FilePath) → (path_eq p q ≡ true) ↔ (p ≡ q)
path_eq_iff p q = (
  λ h.
      path_same p q ((list_eq_iff p.dirs q.dirs).0 (ground arith))
        ((text_eq_iff p.name q.name).0 (ground arith)),
  λ e. ground (
    arith,
    (list_eq_iff p.dirs q.dirs).1 (ap (λ x. x.dirs) e),
    (text_eq_iff p.name q.name).1 (ap (λ x. x.name) e),
  ),
)

instance abbrev pub FilePath_eq : PartialEq FilePath
FilePath_eq = record { eq = path_eq; eq_iff = path_eq_iff }

unfoldable pub hidden : Text → Bool
unfolding starts_with
hidden name = starts_with (codes ".") name

unfoldable pub ends_with_md : Text → Bool
unfolding strip_suffix
ends_with_md name = elim (strip_suffix (codes ".md") name) [ none ↦ false | some _ ↦ true ]

-- What the walks take: no hidden directory on the way, and a visible name that ends in `.md`.
unfoldable pub is_record_file : FilePath → Bool
unfolding hidden ends_with_md all
is_record_file p = all (λ d. not (hidden d)) p.dirs && (ends_with_md p.name && not (hidden p.name))

-- `{id}.md`
unfoldable pub file_name : Text → Text
file_name id = id ++ codes ".md"

unfoldable pub path_for : (fl : Floats) (ch : Chrono) → Record fl ch → FilePath
unfolding file_name rel_path
path_for fl ch r = record { dirs = rel_path r.scope; name = file_name r.id }

join_dirs : List Text → Text → Text
join_dirs [] name = name
join_dirs (d ∷ dirs) name = d ++ b'/' ∷ join_dirs dirs name

-- The path from the vault's root, with `/` separators.
unfoldable pub rel_text : FilePath → Text
unfolding join_dirs
rel_text p = codes "memory/" ++ join_dirs p.dirs p.name
