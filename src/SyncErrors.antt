-- ===== src/SyncErrors.antt =====
-- tusk-sync/error.rs: `SyncError` and results with early return (`?`).
use tuskd.Prelude.{ℕ, Option, none, some, ◌≡◌, refl}
use tuskd.Text.{Text}

-- The texts of `Crypto` and `SecretKey`.
pub data Reason : Type 0 where
  encrypt_failed decrypt_failed too_short hkdf_failed hmac_key bad_dek_hex bad_dek_length : Reason
  signature_length signature_wrong : Reason
  bad_public_key bad_private_key bad_ephemeral_hex ephemeral_length bad_sealed_hex : Reason
  low_order_device low_order_ephemeral unwrapped_length : Reason
  wrap_version : ℕ → Reason
  missing_prefix bad_hex wrong_length checksum_mismatch : Reason

pub data SyncError : Type 0 where
  io not_found invalid_name storage : Text → SyncError
  crypto secret_key : Reason → SyncError
  http : ℕ → Text → SyncError
  rate_limited : Option ℕ → Text → SyncError
  serde : SyncError

pub data SyncResult (A : Type 0) : Type 0 where
  ok : A → SyncResult A
  err : SyncError → SyncResult A

abbrev pub and_then : {A B : Type 0} → (A → SyncResult B) → SyncResult A → SyncResult B
and_then rest (err e) = err e
and_then rest (ok value) = rest value

infixl 5 ◌>>=◌
abbrev pub ◌>>=◌ : {A B : Type 0} → SyncResult A → (A → SyncResult B) → SyncResult B
r >>= rest = and_then rest r

-- `ok_or(e)?`, and `map_err(|_| e)` on a result that is an option here.
abbrev pub ok_or : {A : Type 0} → Option A → SyncError → SyncResult A
ok_or none e = err e
ok_or (some a) e = ok a

-- What a successful result went through.
pub >>=-eq-ok :
    {A B : Type 0} (r : SyncResult A) (rest : A → SyncResult B) {b : B}
    → (r >>= rest) ≡ ok b
    → (a : A) × (r ≡ ok a) × (rest a ≡ ok b)
>>=-eq-ok (ok a) rest h = (a, refl, h)
>>=-eq-ok (err e) rest h = cc

pub ok_or-eq-ok :
    {A : Type 0} (o : Option A) (e : SyncError) {a : A} → ok_or o e ≡ ok a → o ≡ some a
ok_or-eq-ok none e h = cc
ok_or-eq-ok (some b) e h = cc
