-- ===== src/Cloud/Provider.antt =====
-- provider.rs: the interface of a store of blobs, and the store in a directory.
use tuskd.Prelude.{
  ℕ, Bool, true, false, not, none, some, List, [], ◌∷◌, ◌==◌, ℕ_eq, ◌&&◌, ◌||◌, leb, length, all,
  if◌then◌else◌,
}
use tuskd.Text.{Text, is_ascii_digit}
use tuskd.BTreeMap.{BTreeMap, lookup, insert, remove, into_keys}
use tuskd.SyncErrors.{SyncResult, ok, err, ok_or, io, not_found, invalid_name}
use package.tuskd.Cloud.Crypto.{SyncExec}

-- The trait `StorageProvider`.
pub record StorageProvider (World : Type 0) : Type 0 where
  pub put : Text → Text → SyncExec World (Unit {0})
  pub get : Text → SyncExec World Text
  pub delete : Text → SyncExec World (Unit {0})
  pub list : SyncExec World (List Text)

unfoldable pub is_name_char : ℕ → Bool
unfolding is_ascii_digit
is_name_char c = leb b'a' c && leb c b'z' || is_ascii_digit c || c == b'.' || c == b'_' || c == b'-'

abbrev pub starts_with_dot : Text → Bool
starts_with_dot [] = false
starts_with_dot (c ∷ s) = c == b'.'

abbrev pub is_empty_text : Text → Bool
is_empty_text [] = true
is_empty_text (c ∷ s) = false

unfoldable pub is_valid_name : Text → Bool
unfolding is_name_char all
is_valid_name name =
    not (is_empty_text name)
    && leb (length name) 128
    && all is_name_char name
    && not (starts_with_dot name)

unfoldable pub validate_name : Text → SyncResult (Unit {0})
unfolding is_valid_name
validate_name name = if is_valid_name name then ok tt else err (invalid_name name)

-- The regular files directly below the root, by name; `writes` says which of the coming changes the
-- file system carries out.
pub record Directory : Type 0 where
  pub files : BTreeMap Text
  pub writes : List Bool

abbrev allowed : List Bool → Bool
allowed [] = true
allowed (b ∷ bs) = b

abbrev later : List Bool → List Bool
later [] = []
later (b ∷ bs) = bs

unfoldable pub change : Text → (BTreeMap Text → BTreeMap Text) → SyncExec Directory (Unit {0})
change name f d =
    if allowed d.writes
    then (ok tt, record d { files = f d.files; writes = later d.writes })
    else (err (io name), record d { writes = later d.writes })

-- What follows where the name is valid.
abbrev named : {A : Type 0} → Text → SyncExec Directory A → SyncExec Directory A
named name step d = if is_valid_name name then step d else (err (invalid_name name), d)

unfoldable pub local_put : Text → Text → SyncExec Directory (Unit {0})
unfolding validate_name change insert
local_put name bytes = named name (change name (insert name bytes))

unfoldable pub local_get : Text → SyncExec Directory Text
unfolding validate_name lookup
local_get name = named name (λ d. (ok_or (lookup name d.files) (not_found name), d))

-- Deleting an absent name succeeds.
unfoldable pub local_delete : Text → SyncExec Directory (Unit {0})
unfolding validate_name change lookup remove
local_delete name =
    named name λ d. elim (lookup name d.files) [
      | none ↦ (ok tt, d)
      | some bytes ↦ change name (remove name) d
    ]

abbrev visible : List Text → List Text
visible [] = []
visible (name ∷ names) = if starts_with_dot name then visible names else name ∷ visible names

unfoldable pub local_list : SyncExec Directory (List Text)
local_list d = (ok (visible (into_keys d.files)), d)

abbrev pub local_provider : StorageProvider Directory
local_provider = record {
  put = local_put;
  get = local_get;
  delete = local_delete;
  list = local_list;
}
