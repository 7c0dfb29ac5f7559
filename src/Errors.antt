-- ===== src/Errors.antt =====
-- error.rs: `CoreError`, with one constructor of `Message` for each text that the modelled code
-- formats, and results with early return (`?`).
use tuskd.Prelude.{ℕ, Bool, true, false, ◌≡◌, refl, Option, none, some, if◌then◌else◌}
use tuskd.Text.{Text}
use tuskd.Text.Number.{ℤ}
use tuskd.SyncErrors.{SyncError}

-- The texts of errors, by their format string.
pub data Message : Type 0 where
  -- frontmatter.rs
  missing_opening_fence missing_closing_fence bad_token : Message
  malformed_line invalid_key duplicate_key empty_value inline_map malformed_list : Text → Message
  unterminated_quote malformed_quoted bad_escape stray_quote : Text → Message
  -- record.rs
  unknown_record_type bad_timestamp must_be_scalar missing_field must_be_list : Text → Message
  must_be_numeric must_be_integer : Text → Message
  -- keyring.rs
  unknown_verb invalid_agent_id agent_exists no_agent agent_revoked : Text → Message
  -- sync.rs
  unparseable_line chain_broken : ℕ → Message
  -- vault.rs
  no_record : Text → Message
  -- tools.rs
  missing_arg not_strings unknown_agent revoked_agent unknown_tool bad_outcome bad_as_of :
      Text → Message
  empty_content lacks_verb lacks_promote not_owner : Message
  -- gate.rs
  no_queue_item : Text → Message
  -- sync_cloud.rs, sync_worker.rs
  sync : SyncError → Message
  unverified_op : ℤ → Text → Message
  bad_payload : ℤ → Message
  payload_version : ℤ → ℕ → Message
  unknown_device lost_entry : Text → Message
  bad_pubkey short_pubkey invalid_pubkey nothing_pushed not_serialized out_of_rounds : Message
  not_approved bad_wrap stale_wrap already_revoked pem_encode no_device_key : Message
  no_such_device fingerprint_mismatch not_pending : Text → Message
  -- a failed write or rename
  write_failed : Message

pub data CoreError : Type 0 where
  io : Message → CoreError
  frontmatter : Message → CoreError
  invalid_scope : Text → CoreError
  not_found : Message → CoreError
  denied : Message → CoreError
  journal : Message → CoreError
  other : Message → CoreError
  json : CoreError

pub data Result {ℓ} (A : Type ℓ) : Type ℓ where
  ok : A → Result A
  err : CoreError → Result A

-- `?`: the rest of a function runs on the value of a result, and an error is returned at once.
abbrev pub and_then {ℓ κ} : {A : Type ℓ} {B : Type κ} → (A → Result B) → Result A → Result B
and_then rest (err e) = err e
and_then rest (ok value) = rest value

infixl 5 ◌>>=◌ ◌>>◌
abbrev pub ◌>>=◌ {ℓ κ} : {A : Type ℓ} {B : Type κ} → Result A → (A → Result B) → Result B
r >>= rest = and_then rest r

abbrev pub ◌>>◌ {ℓ} : {B : Type ℓ} → Result (Unit {0}) → Result B → Result B
r >> rest = and_then (λ _. rest) r

-- `if !test { return Err(e) }`
abbrev pub ensure : Bool → CoreError → Result (Unit {0})
ensure b e = if b then ok tt else err e

abbrev pub ok_or {ℓ} : {A : Type ℓ} → Option A → CoreError → Result A
ok_or none e = err e
ok_or (some a) e = ok a

-- `map_err(|_| e)`
abbrev pub map_err {ℓ} : {A : Type ℓ} → CoreError → Result A → Result A
map_err e (ok a) = ok a
map_err e (err _) = err e

-- What a successful result went through.
pub >>=-eq-ok :
    {A B : Type 0} (r : Result A) (rest : A → Result B) {b : B}
    → (r >>= rest) ≡ ok b
    → (a : A) × (r ≡ ok a) × (rest a ≡ ok b)
>>=-eq-ok (ok a) rest h = (a, refl, h)
>>=-eq-ok (err e) rest h = cc

pub ok_or-eq-ok :
    {A : Type 0} (o : Option A) (e : CoreError) {a : A} → ok_or o e ≡ ok a → o ≡ some a
ok_or-eq-ok none e h = cc
ok_or-eq-ok (some b) e h = cc

pub ensure-eq-ok : (b : Bool) (e : CoreError) {u : Unit {0}} → ensure b e ≡ ok u → b ≡ true
ensure-eq-ok true e h = refl
ensure-eq-ok false e h = cc
