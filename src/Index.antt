-- ===== src/Index.antt =====
-- crates/tusk-core/src/index.rs: the rows of the derived index, each with the record that its columns
-- render. The full-text table and its ranking are SQLite's.
pub mod Terms
pub mod Search
pub mod Stats
use tuskd.Prelude.{Bool, List, [], ◌∷◌, ◌++◌, ◌==◌, ◌&&◌, if◌then◌else◌}
use tuskd.Text.{Text, Text_eq}
use tuskd.Floats.{Floats}
use tuskd.Time.{Chrono}
use tuskd.Scope
use tuskd.Scope.{Scope}
use tuskd.Record.Fields.{Record}
use tuskd.Record.Markdown.{body_hash, is_valid_now}
use tuskd.Vault.Paths.{FilePath}

abbrev pub Rows : Floats → Chrono → Type 0
Rows fl ch = List (FilePath × Record fl ch)

module _ {fl : Floats} {ch : Chrono} where
  -- `DELETE .. WHERE id = ?`
  unfoldable pub remove_id : Text → Rows fl ch → Rows fl ch
  remove_id id [] = []
  remove_id id ((p, r) ∷ rows) =
      if r.id == id then remove_id id rows else (p, r) ∷ remove_id id rows

  -- `INSERT OR REPLACE`, whose key is the id.
  unfoldable pub ingest_record : FilePath → Record fl ch → Rows fl ch → Rows fl ch
  unfolding remove_id
  ingest_record p r rows = remove_id r.id rows ++ (p, r) ∷ []

  ingest_all : Rows fl ch → Rows fl ch → Rows fl ch
  unfolding ingest_record
  ingest_all [] rows = rows
  ingest_all ((p, r) ∷ more) rows = ingest_all more (ingest_record p r rows)

  -- The table is wiped, and filled from what the walk of the vault gives.
  unfoldable pub rebuild : Rows fl ch → Rows fl ch → Rows fl ch
  unfolding ingest_all
  rebuild walked old = ingest_all walked []

  unfoldable pub is_duplicate : (Text → Text) → Text → Text → Record fl ch → Bool
  unfolding body_hash is_valid_now Scope.to_string
  is_duplicate sha256_hex scope hash r =
      Scope.to_string r.scope == scope
      && (body_hash sha256_hex r.body == hash && is_valid_now fl ch r)

  unfoldable pub find_valid_by_body_hash : (Text → Text) → Scope → Text → Rows fl ch → List Text
  unfolding is_duplicate
  find_valid_by_body_hash sha256_hex scope hash [] = []
  find_valid_by_body_hash sha256_hex scope hash ((p, r) ∷ rows) =
      let rest = find_valid_by_body_hash sha256_hex scope hash rows in
      if is_duplicate sha256_hex (Scope.to_string scope) hash r then r.id ∷ rest else rest
