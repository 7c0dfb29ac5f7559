-- ===== src/Tests/Keyrings.antt =====
-- keyring.rs at fixed inputs.
use tuskd.Prelude.{
  ◌≡◌, refl, Bool, true, false, none, some, List, [], ◌∷◌, ◌||◌, ◌&&◌, ◌==◌, ◌↔◌, any, contains,
}
use tuskd.Text.{codes, Text_eq, strip_prefix, strip_suffix, is_ascii_alphanumeric}
use tuskd.Errors.{ok}
use tuskd.Scope
use tuskd.Scope.{Scope, agent, project, user, org, valid_id}
use tuskd.Scope.Roundtrip.{IsValid}
use tuskd.Keyring
use tuskd.Keyring.{
  AgentEntry, CreatedAgent, Keyring, Crypto, open_file, find_agent, update_agent, validate_all,
  token_of, token_hash, new_entry, push_grant, set_revoked, set_token, auth_by_token, auth_loop,
  stored_digest, ct_eq_digest, can, entry_can,
}
use tuskd.Keyring.Pattern.{read, Grants, for_verb, set_for_verb, validate_pattern, pattern_matches}
use tuskd.Keyring.Matching.{Covers, pattern_matches_iff}
use tuskd.Keyring.Access.{can_iff, can-grant, Entitled, adds_to}
use tuskd.Keyring.Agents.{ids}
use tuskd.Keyring.History.{Op, creates, revokes, run, unique_ids, revoked_forever, Distinct}
use tuskd.Keyring.Tokens.{auth_by_token_sound, auth-create, rotate_token-replaces}
use tuskd.Tests.Values.{toy_crypto, toy_laws}

abbrev no_grants : Grants
no_grants = record { read = []; write = []; promote = [] }

abbrev hermes : AgentEntry
hermes = record {
  id = codes "hermes";
  public_key_pem = codes "pem";
  token_sha256 = codes "tusk_1";
  grants = no_grants;
  created_at = codes "now";
  revoked = false;
}

abbrev ring : Keyring
ring = record { agents = hermes ∷ []; file = none }

abbrev team : Scope
team = project (codes "team")

team-IsValid : IsValid team
team-IsValid = unfold valid_id is_ascii_alphanumeric in refl

pattern_matches_iff_example :
    (pattern_matches (codes "project:*") team ≡ true) ↔ Covers (codes "project:*") team
pattern_matches_iff_example = pattern_matches_iff (codes "project:*") team team-IsValid

can_iff_example :
    (can (codes "hermes") read team ring ≡ true)
    ↔ ((a : AgentEntry) × (find_agent (codes "hermes") ring.agents ≡ some a) × Entitled a read team)
can_iff_example = can_iff (codes "hermes") read team ring

granted : (Keyring.grant true (codes "hermes") read (codes "project:*") ring).0 ≡ ok tt
unfolding Keyring.grant validate_pattern find_agent
granted = refl

can-grant_example :
    can
      (codes "hermes")
      read
      team
      (Keyring.grant true (codes "hermes") read (codes "project:*") ring).1
    ≡ (can (codes "hermes") read team ring
        || (codes "hermes" == codes "hermes")
          && adds_to read (codes "project:*") read team (find_agent (codes "hermes") ring.agents))
can-grant_example =
    can-grant true (codes "hermes") (codes "hermes") read read (codes "project:*") team ring granted

-- The grant opens the project.
can_after_grant :
    can
      (codes "hermes")
      read
      team
      (Keyring.grant true (codes "hermes") read (codes "project:*") ring).1
    ≡ true
unfolding Keyring.grant validate_pattern find_agent update_agent push_grant can entry_can for_verb
    set_for_verb pattern_matches contains strip_suffix Scope.own Scope.scope_eq
can_after_grant = refl

abbrev history : List (Bool × Op)
history =
    (
      true,
      creates (1 ∷ []) (ok (codes "key", codes "pem")) (codes "now") (codes "hermes") no_grants,
    )
    ∷ (
      false,
      creates (2 ∷ []) (ok (codes "key", codes "pem")) (codes "now") (codes "hermes") no_grants,
    )
    ∷ (true, revokes (codes "hermes"))
    ∷ []

unique_ids_example : Distinct (ids (run toy_crypto (open_file none) history).agents)
unique_ids_example = unique_ids toy_crypto history

was_revoked : (Keyring.revoke true (codes "hermes") ring).0 ≡ ok tt
unfolding Keyring.revoke find_agent
was_revoked = refl

revoked_forever_example :
    can
      (codes "hermes")
      read
      (agent (codes "hermes"))
      (run toy_crypto (Keyring.revoke true (codes "hermes") ring).1 history)
    ≡ false
revoked_forever_example =
    revoked_forever toy_crypto true (codes "hermes") ring history read (agent (codes "hermes"))
      was_revoked

ring-Distinct : Distinct (ids ring.agents)
unfolding contains
ring-Distinct = (refl, tt)

authenticated : auth_by_token toy_crypto (codes "tusk_1") ring ≡ ok hermes
unfolding auth_by_token auth_loop stored_digest ct_eq_digest
authenticated = refl

auth_by_token_sound_example :
    (find_agent hermes.id ring.agents ≡ some hermes)
    × (hermes.revoked ≡ false)
    × (stored_digest toy_crypto hermes ≡ toy_crypto.sha256 (codes "tusk_1"))
auth_by_token_sound_example =
    auth_by_token_sound toy_crypto toy_laws ring (codes "tusk_1") hermes ring-Distinct authenticated

abbrev athena : CreatedAgent
athena = record {
  id = codes "athena";
  token = codes "tusk_2";
  private_key_pem = codes "key";
  public_key_pem = codes "pem";
}

made :
    (Keyring.create toy_crypto true
      (codes "2")
      (ok (codes "key", codes "pem"))
      (codes "now")
      (codes "athena")
      no_grants
      ring).0
    ≡ ok athena
unfolding Keyring.create Scope.parse strip_prefix valid_id is_ascii_alphanumeric validate_all any
    token_of
made = refl

auth-create_example :
    auth_by_token toy_crypto
      (codes "tusk_2")
      (Keyring.create toy_crypto true
        (codes "2")
        (ok (codes "key", codes "pem"))
        (codes "now")
        (codes "athena")
        no_grants
        ring).1
    ≡ ok (
        new_entry
          (codes "athena")
          (codes "pem")
          (token_hash toy_crypto (codes "tusk_2"))
          no_grants
          (codes "now"))
auth-create_example =
    auth-create toy_crypto toy_laws (codes "2") (codes "key") (codes "pem") (codes "now")
      (codes "athena") no_grants true ring athena made

rotated :
    (Keyring.rotate_token toy_crypto true (codes "7") (codes "hermes") ring).0 ≡ ok (codes "tusk_7")
unfolding Keyring.rotate_token find_agent token_of
rotated = refl

abbrev hermes_7 : AgentEntry
hermes_7 = record hermes { token_sha256 = codes "tusk_7" }

authenticated_7 :
    auth_by_token toy_crypto
      (codes "tusk_7")
      (Keyring.rotate_token toy_crypto true (codes "7") (codes "hermes") ring).1
    ≡ ok hermes_7
unfolding Keyring.rotate_token find_agent update_agent set_token token_hash token_of auth_by_token
    auth_loop stored_digest ct_eq_digest
authenticated_7 = refl

rotate_token-replaces_example :
    toy_crypto.sha256 (codes "tusk_7") ≡ toy_crypto.sha256 (codes "tusk_7")
rotate_token-replaces_example =
    rotate_token-replaces toy_crypto toy_laws true (codes "7") (codes "hermes") (codes "tusk_7")
      (codes "tusk_7") ring hermes_7 ring-Distinct rotated authenticated_7 refl
