-- ===== src/Keyring.antt =====
-- crates/tusk-core/src/keyring.rs: the state of the keyring and its operations.
pub mod Pattern
pub mod Matching
pub mod Agents
pub mod Effects
pub mod History
pub mod Access
pub mod Tokens
use tuskd.Prelude.{
  ℕ, Bool, true, false, Option, none, some, List, [], ◌∷◌, ◌++◌, ◌≡◌, refl, ◌==◌, ◌||◌, ◌&&◌, not,
  if◌then◌else◌, arith, all, any, find, contains, length, ℕ_eq, list_eq,
}
use tuskd.Text.{Text, codes, Text_eq}
use tuskd.Errors.{
  CoreError, Result, ok, err, io, other, not_found, denied, write_failed, invalid_agent_id,
  agent_exists, no_agent, agent_revoked, bad_token, map_err, ok_or,
}
use tuskd.Errors.{◌>>◌ as and_then}
use tuskd.Exec.{Exec, pure, raise, lift, gets, modify, ◌>>=◌, ◌>>◌}
use tuskd.Scope
use tuskd.Scope.{Scope, Scope_eq}
use Pattern.{
  Verb, read, write, promote, Grants, for_verb, set_for_verb, validate_pattern, pattern_matches,
}

-- What the crates sha2, hex and subtle provide.
pub record Crypto : Type 0 where
  pub sha256 : Text → List ℕ
  pub hex_encode : List ℕ → Text
  pub hex_decode : Text → Option (List ℕ)
  pub ct_eq : List ℕ → List ℕ → Bool

pub record AgentEntry : Type 0 where
  pub id : Text
  pub public_key_pem : Text
  pub token_sha256 : Text
  pub grants : Grants
  pub created_at : Text
  pub revoked : Bool

pub record CreatedAgent : Type 0 where
  pub id : Text
  pub token : Text
  pub private_key_pem : Text
  pub public_key_pem : Text

-- `agents` is the state behind the mutex, `file` what `agents.json` holds (`none`: no file).
pub record Keyring : Type 0 where
  pub agents : List AgentEntry
  pub file : Option (List AgentEntry)

-- The file's content becomes the state, or an empty list where there is no file.
unfoldable pub open_file : Option (List AgentEntry) → Keyring
open_file none = record { agents = []; file = none }
open_file (some agents) = record { agents = agents; file = some agents }

abbrev by_id : Text → AgentEntry → Bool
by_id id a = a.id == id

unfoldable pub find_agent : Text → List AgentEntry → Option AgentEntry
unfolding find
find_agent id = find (by_id id)

-- A write through `iter_mut().find(..)`: the first entry with the id is changed.
unfoldable pub update_agent : Text → (AgentEntry → AgentEntry) → List AgentEntry → List AgentEntry
update_agent id f [] = []
update_agent id f (a ∷ l) = if by_id id a then f a ∷ l else a ∷ update_agent id f l

-- `save`: the file is replaced by a rename, or left alone where a write fails. `written` says
-- whether the file system carried it out.
unfoldable pub save : Bool → Exec Keyring (Unit {0})
save true k = (ok tt, record k { file = some k.agents })
save false k = (err (io write_failed), k)

unfoldable pub validate_all : List Text → Result (Unit {0})
unfolding validate_pattern
validate_all [] = ok tt
validate_all (p ∷ ps) = and_then (validate_pattern p) (validate_all ps)

unfoldable pub get : Text → Keyring → Option AgentEntry
unfolding find_agent
get id k = find_agent id k.agents

unfoldable pub list : Keyring → List AgentEntry
list k = k.agents

unfoldable pub push_grant : Verb → Text → AgentEntry → AgentEntry
unfolding set_for_verb for_verb contains
push_grant verb pattern a =
    let l = for_verb a.grants verb in
    if contains pattern l
    then a
    else record a { grants = set_for_verb a.grants verb (l ++ pattern ∷ []) }

unfoldable pub grant : Bool → Text → Verb → Text → Exec Keyring (Unit {0})
unfolding save
grant written id verb pattern = do
  lift (validate_pattern pattern)
  agents ← gets (λ k. k.agents)
  lift (ok_or (find_agent id agents) (not_found (no_agent id)))
  modify (λ k. record k { agents = update_agent id (push_grant verb pattern) agents })
  save written

-- The token that a secret gives, and the hash of it that is stored.
unfoldable pub token_of : Crypto → List ℕ → Text
token_of c secret = codes "tusk_" ++ c.hex_encode secret

unfoldable pub token_hash : Crypto → Text → Text
token_hash c token = c.hex_encode (c.sha256 token)

unfoldable pub new_entry : Text → Text → Text → Grants → Text → AgentEntry
new_entry id pem hash grants now = record {
  id = id;
  public_key_pem = pem;
  token_sha256 = hash;
  grants = grants;
  created_at = now;
  revoked = false;
}

-- `create`: `secret` is what the random source fills in, `keys` the key pair in PEM (private,
-- public) or an encoding error, `now` the formatted clock.
unfoldable pub create :
    Crypto → Bool → List ℕ → Result (Text × Text) → Text → Text → Grants → Exec Keyring CreatedAgent
unfolding save
create c written secret keys now id grants = do
  lift (map_err (other (invalid_agent_id id)) (Scope.parse (codes "agent:" ++ id)))
  lift (validate_all (grants.read ++ grants.write ++ grants.promote))
  (private, public) ← lift keys
  agents ← gets (λ k. k.agents)
  if any (by_id id) agents then raise (other (agent_exists id)) else pure tt
  modify (λ k. record k {
    agents = agents ++ new_entry id public (token_hash c (token_of c secret)) grants now ∷ [];
  })
  save written
  pure (record {
    id = id;
    token = token_of c secret;
    private_key_pem = private;
    public_key_pem = public;
  })

unfoldable pub set_token : Text → AgentEntry → AgentEntry
set_token hash a = record a { token_sha256 = hash }

unfoldable pub rotate_token : Crypto → Bool → List ℕ → Text → Exec Keyring Text
unfolding save
rotate_token c written secret id = do
  agents ← gets (λ k. k.agents)
  agent ← lift (ok_or (find_agent id agents) (not_found (no_agent id)))
  if agent.revoked then raise (denied (agent_revoked id)) else pure tt
  modify (λ k. record k {
    agents = update_agent id (set_token (token_hash c (token_of c secret))) agents;
  })
  save written
  pure (token_of c secret)

unfoldable pub set_revoked : AgentEntry → AgentEntry
set_revoked a = record a { revoked = true }

unfoldable pub revoke : Bool → Text → Exec Keyring (Unit {0})
unfolding save
revoke written id = do
  agents ← gets (λ k. k.agents)
  lift (ok_or (find_agent id agents) (not_found (no_agent id)))
  modify (λ k. record k { agents = update_agent id set_revoked agents })
  save written

-- `hex::decode(..).unwrap_or_default()`
unfoldable pub stored_digest : Crypto → AgentEntry → List ℕ
stored_digest c a = elim (c.hex_decode a.token_sha256) [ none ↦ [] | some d ↦ d ]

unfoldable pub ct_eq_digest : Crypto → List ℕ → List ℕ → Bool
ct_eq_digest c a b = length a == length b && c.ct_eq a b

-- The loop of `auth_by_token`: the last entry that passes wins.
unfoldable pub auth_loop : Crypto → List ℕ → List AgentEntry → Option AgentEntry → Option AgentEntry
unfolding stored_digest ct_eq_digest
auth_loop c digest [] found = found
auth_loop c digest (a ∷ l) found =
    auth_loop c digest l
      (if ct_eq_digest c (stored_digest c a) digest && not a.revoked then some a else found)

unfoldable pub auth_by_token : Crypto → Text → Keyring → Result AgentEntry
auth_by_token c token k = ok_or (auth_loop c (c.sha256 token) k.agents none) (denied (bad_token))

-- `matches!(verb, Verb::Read | Verb::Write)`
abbrev own_verb : Verb → Bool
own_verb read = true
own_verb write = true
own_verb promote = false

-- The choke-point, on the entry that was found.
unfoldable pub entry_can : Option AgentEntry → Verb → Scope → Bool
unfolding any Scope.own
entry_can none verb scope = false
entry_can (some agent) verb scope =
    if agent.revoked
    then false
    else if own_verb verb && scope == Scope.own agent.id
    then true
    else any (λ p. pattern_matches p scope) (for_verb agent.grants verb)

unfoldable pub can : Text → Verb → Scope → Keyring → Bool
can agent_id verb scope k = entry_can (find_agent agent_id k.agents) verb scope
