-- ===== src/Scope/Grammar.antt =====
-- scope.rs: the ids of scopes.
use tuskd.Prelude.{Bool, false, [], ◌∷◌, ◌&&◌, ◌||◌, ◌==◌, ℕ_eq, leb, all, if◌then◌else◌, ℕ}
use tuskd.Text.{Text, is_ascii_alphanumeric, len}

unfoldable pub is_id_char : ℕ → Bool
unfolding is_ascii_alphanumeric
is_id_char c = is_ascii_alphanumeric c || c == b'.' || c == b'_' || c == b'-'

-- Ids in scopes: 1 to 64 bytes of `[A-Za-z0-9._-]`, starting alphanumeric.
unfoldable pub valid_id : Text → Bool
unfolding is_id_char all len
valid_id [] = false
valid_id (c ∷ s) =
    if is_ascii_alphanumeric c then leb (len (c ∷ s)) 64 && all is_id_char (c ∷ s) else false
