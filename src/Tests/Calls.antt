-- ===== src/Tests/Calls.antt =====
-- tools.rs at fixed inputs.
use tuskd.Prelude.{◌≡◌, refl, none, List, [], ◌∷◌, false, all, any, find, contains, some, arith}
use tuskd.Text.{
  Text, codes, strip_suffix, strip_prefix, is_ascii_alphanumeric, len, trim, trim_start,
  is_whitespace,
}
use tuskd.Errors.{ok}
use tuskd.Scope
use tuskd.Scope.{Scope, own, user, valid_id, is_id_char}
use tuskd.Keyring.{Keyring, AgentEntry, find_agent, can, entry_can}
use tuskd.Keyring.Pattern.{for_verb, pattern_matches, write}
use tuskd.Vault.Paths.{path_for, file_name}
use tuskd.Tools.Args.{
  Value, object, string, property, no_members, arg_str, req_str, get_arg, arg_str_list, list_of,
}
use tuskd.Tools.Handlers.{
  TuskContext, UnitInterval, promote_into, candidate_from_args, memory_get, check,
}
use tuskd.Tools.Search.{
  entitled_read_scopes, push_patterns, push_pattern, push_matching, push_new, is_wildcard,
  scopes_to_search, checked_scopes, memory_search, skill_list,
}
use tuskd.Tools.Dispatch.{dispatch}
use tuskd.Tools.Guards.{Denies, dispatch_denied}
use tuskd.Vault.Supersede.{get-Stored, correction}
use tuskd.Tests.Values.{tenths, toy_engine, toy_engine-Laws}
use tuskd.Tests.Json.{toy_services}
use tuskd.Tests.Records.{sample, sample-IsStorable}
use tuskd.Tests.Vaults.{store, store-Stored, tick-IsWhole, trunc-IsWhole}
use tuskd.Tests.Gates.{config, gate}
use tuskd.Tools.Corrections.{made, IsEnded, IsFiled, promote_into-IsEnded}
use tuskd.Exec.{Ends}
use tuskd.Exec.Triples.{After}
use tuskd.Tools.Found.{AllAllowed, tools-AllAllowed}
use tuskd.Gate.Commit.{Candidate, policy_for}
use tuskd.Gate.Submit.{existing, policy_of}
use tuskd.Index.{find_valid_by_body_hash, is_duplicate}
use tuskd.Record.Kind.{RecordType, type_eq}
use tuskd.Record.Markdown.{new_at, body_hash}
use tuskd.Record.Roundtrip.{IsStorable}
use tuskd.Floats.{Prints, is_number_char}
use tuskd.Text.Number.{show_i64, parse_i64}
use tuskd.Time.{trunc_ms}
use tuskd.Vault.Store.{put_file}
use tuskd.Tools.Reads.{IsReadable, memory_get-IsReadable}

abbrev unit_interval : UnitInterval tenths
unit_interval = record { clamp = λ f. f; one = 10 }

abbrev reader : AgentEntry
reader = record {
  id = codes "bob";
  public_key_pem = [];
  token_sha256 = [];
  grants = record { read = codes "project:*" ∷ codes "user" ∷ []; write = []; promote = [] };
  created_at = [];
  revoked = false;
}

abbrev keyring : Keyring
keyring = record { agents = reader ∷ []; file = none }

abbrev context : TuskContext tenths toy_services
context = record { keyring = keyring; gate = record gate { vault = store } }

abbrev args : Value tenths
args = object (
    property (codes "id") (string (codes "01A")) (
      property (codes "scope") (string (codes "user"))
        (property (codes "content") (string (codes "x")) no_members)))

dispatch_denied_example :
    Denies
      (dispatch toy_services config unit_interval toy_engine
        (codes "eve")
        (codes "memory_write")
        args
        context)
      context
unfolding find_agent find
dispatch_denied_example =
    dispatch_denied toy_services config unit_interval (codes "eve") toy_engine
      (codes "memory_write") args context (λ a e. cc)

abbrev readable : List Scope
readable = Scope.agent (codes "bob") ∷ Scope.project (codes "app") ∷ Scope.user ∷ []

abbrev present : List Text
present = codes "project:app" ∷ codes "org" ∷ codes "agent:claude" ∷ []

bob_reads : entitled_read_scopes (codes "bob") present keyring ≡ ok readable
unfolding entitled_read_scopes push_patterns push_pattern push_matching push_new is_wildcard
    contains strip_suffix strip_prefix Scope.parse pattern_matches find_agent find own for_verb
    valid_id is_ascii_alphanumeric all len Scope.to_string Scope.scope_eq
bob_reads = refl

-- The agent writes to its own scope, and names a record of a project that it may not write to.
abbrev correcting : Value tenths
correcting = object (
    property (codes "content") (string (codes "x"))
      (property (codes "corrects") (string (codes "01A")) no_members))

abbrev correction_of : Candidate tenths
correction_of = record {
  kind = RecordType.semantic;
  scope = own (codes "bob");
  body = codes "x";
  tags = [];
  entities = [];
  trust = 5;
  corrects = some (codes "01A");
  trigger = none;
  version = none;
}

zero-Prints : Prints tenths 0
unfolding all is_number_char is_ascii_alphanumeric show_i64 parse_i64
zero-Prints = record {
  display_chars = refl;
  display_nonempty = λ e. cc;
  display_parse = refl;
  display_1_chars = refl;
  display_1_nonempty = λ e. cc;
  display_1_float = refl;
  display_1_parse = λ z e. refl;
}

made-IsStorable :
    IsStorable (
      correction toy_services
        (made toy_services config correction_of (codes "bob") 2)
        (codes "01A"))
unfolding new_at trunc_ms own all valid_id is_id_char is_ascii_alphanumeric type_eq
made-IsStorable = record {
  id_plain = refl;
  scope_valid = refl;
  author_plain = refl;
  created_whole = tick-IsWhole 2;
  valid_whole = tick-IsWhole 2;
  invalid_whole = tt;
  supersedes_plain = refl;
  entities_plain = tt;
  tags_plain = tt;
  trust_prints = sample-IsStorable.trust_prints;
  uses_i64 = omega arith;
  successes_prints = zero-Prints;
  last_used_whole = tt;
  version_i64 = tt;
  trigger_plain = tt;
}

correcting-IsFiled :
    IsFiled toy_services
      (made toy_services config correction_of (codes "bob") 2)
      sample
      (record store { calls = 3 })
unfolding new_at file_name path_for put_file
correcting-IsFiled = record {
  stored = store-Stored;
  storable = made-IsStorable;
  alone = ((λ e. cc), tt);
  differs = λ e. cc;
  whole = trunc-IsWhole;
  calm = record { no_failure = refl; no_fault = tt };
}

bob_cannot : can (codes "bob") write sample.scope keyring ≡ false
unfolding can find_agent find entry_can any for_verb own Scope.scope_eq
bob_cannot = refl

promote_into-IsEnded_example :
    Ends
      (λ o y. IsEnded toy_services sample y.gate.vault)
      (promote_into toy_services config unit_interval
        (codes "bob")
        correcting
        (own (codes "bob"))
        context)
unfolding can find_agent find entry_can any for_verb own Scope.scope_eq candidate_from_args req_str
    arg_str get_arg trim trim_start is_whitespace arg_str_list list_of existing
    find_valid_by_body_hash is_duplicate body_hash Scope.to_string policy_of policy_for type_eq
promote_into-IsEnded_example =
    promote_into-IsEnded toy_services config sample unit_interval (codes "bob") correcting
      (own (codes "bob")) correction_of context refl refl refl refl refl refl correcting-IsFiled

memory_get-IsReadable_example :
    IsReadable toy_services config unit_interval (codes "bob") args context sample
unfolding memory_get check can find_agent find entry_can any for_verb pattern_matches req_str
    arg_str get_arg own Scope.scope_eq strip_suffix
memory_get-IsReadable_example =
    memory_get-IsReadable toy_services config unit_interval (codes "bob") args context sample
      (rw (get-Stored toy_services sample store.files store store-Stored refl) refl)

abbrev named : List Text
named = codes "project:app" ∷ codes "user" ∷ []

abbrev named_scopes : List Scope
named_scopes = Scope.project (codes "app") ∷ Scope.user ∷ []

bob_searches :
    (scopes_to_search toy_services toy_engine (codes "bob") (some named) context).0
    ≡ ok named_scopes
unfolding scopes_to_search checked_scopes check can find_agent find entry_can any for_verb
    pattern_matches Scope.parse strip_suffix strip_prefix valid_id is_ascii_alphanumeric all len
    Scope.to_string own Scope.scope_eq
bob_searches = refl

tools-AllAllowed_example :
    After
      (λ reply y. (y ≡ context) × AllAllowed toy_services toy_engine (codes "bob") context reply)
      (λ y. y ≡ context)
      (memory_search toy_services toy_engine (codes "bob") args context)
    × After
        (λ reply y. (y ≡ context) × AllAllowed toy_services toy_engine (codes "bob") context reply)
        (λ y. y ≡ context)
        (skill_list toy_services toy_engine (codes "bob") context)
unfolding find_agent find
tools-AllAllowed_example =
    tools-AllAllowed toy_services toy_engine (codes "bob") context toy_engine-Laws reader args refl
      refl
