-- ===== src/Worker/Scan.antt =====
-- archive.rs `skip` and sync_cloud.rs `vault_files`: the files that are synced.
use tuskd.Prelude.{
  Bool, true, false, not, Option, none, some, List, [], ◌∷◌, ◌++◌, ◌==◌, ℕ_eq, ◌||◌, any,
  if◌then◌else◌,
}
use tuskd.Text.{Text, Text_eq, codes, strip_prefix, strip_suffix}
use tuskd.BTreeMap.{BTreeMap}

abbrev is_some : Option Text → Bool
is_some none = false
is_some (some s) = true

-- The text after the last slash.
file_name : Text → Text → Text
file_name name [] = name
file_name name (c ∷ path) = if c == b'/' then file_name [] path else file_name (name ++ c ∷ []) path

abbrev at_component : Option Text → Bool
at_component none = false
at_component (some []) = true
at_component (some (c ∷ s)) = c == b'/'

-- `Path::starts_with`: whole components.
path_starts_with : Text → Text → Bool
unfolding strip_prefix
path_starts_with base rel = at_component (strip_prefix base rel)

-- `skip`
unfoldable pub skip : Text → Bool
unfolding file_name path_starts_with strip_prefix strip_suffix
skip rel =
    let name = file_name [] rel in
    is_some (strip_prefix (codes "index.db") name)
    || name == codes "lock"
    || is_some (strip_suffix (codes ".sock") name)
    || name == codes "admin-token"
    || path_starts_with (codes ".tusk/keyring/keys") rel
    || path_starts_with (codes ".tusk/sync") rel

-- The directories that lead to the file, and the file: the path up to each slash, and whole.
steps : Text → Text → List Text
steps path [] = path ∷ []
steps path (c ∷ rest) =
    let deeper = steps (path ++ c ∷ []) rest in if c == b'/' then path ∷ deeper else deeper

-- The walk does not enter a directory that is skipped.
unfoldable pub in_scan : Text → Bool
unfolding steps skip any
in_scan rel = not (any skip (steps [] rel))

-- `vault_files`, and the contents that `push_phase` reads.
unfoldable pub vault_files : BTreeMap Text → BTreeMap Text
unfolding in_scan
vault_files [] = []
vault_files ((rel, bytes) ∷ files) =
    if in_scan rel then (rel, bytes) ∷ vault_files files else vault_files files
