-- ===== src/Tools/Search.antt =====
-- tools.rs: the tools that only read, and the scopes that they may read.
use tuskd.Prelude.{
  ℕ, Bool, true, false, Option, none, some, List, [], ◌∷◌, ◌++◌, length, if◌then◌else◌, contains,
  leb,
}
use tuskd.Text.{Text, codes, Text_eq, strip_suffix}
use tuskd.Text.Number.{ℤ, pos}
use tuskd.Errors.{Result, ok, err, denied, other, unknown_agent, bad_as_of, ok_or}
use tuskd.Exec.{Exec, pure, lift, gets, ◌>>=◌, ◌>>◌}
use tuskd.Floats.{Floats}
use tuskd.Scope
use tuskd.Scope.{Scope, Scope_eq, own}
use tuskd.Keyring.{Keyring, AgentEntry, find_agent}
use tuskd.Keyring.Pattern.{read, for_verb, pattern_matches}
use tuskd.Record.Kind.{RecordType, parse_type}
use tuskd.Journal.{Services}
use tuskd.Index.{Rows}
use tuskd.Index.Search.{SearchQuery, Engine, search}
use tuskd.Gate.Submit.{queue_depth}
use package.tuskd.Tools.Args.{Value, get_arg, as_i64, arg_str, arg_str_list}
use package.tuskd.Tools.Handlers.{TuskContext, Reply, hits, status, check, or_else}

-- A scope that is not there yet goes to the end.
unfoldable pub push_new : Scope → List Scope → List Scope
unfolding contains
push_new scope out = if contains scope out then out else out ++ scope ∷ []

abbrev pub push_match : Text → Result Scope → List Scope → List Scope
push_match pattern (err e) out = out
push_match pattern (ok scope) out =
    if pattern_matches pattern scope then push_new scope out else out

-- The scopes of the index that a wildcard covers.
unfoldable pub push_matching : Text → List Text → List Scope → List Scope
unfolding Scope.parse pattern_matches push_new
push_matching pattern [] out = out
push_matching pattern (text ∷ present) out =
    push_matching pattern present (push_match pattern (Scope.parse text) out)

abbrev pub push_parsed : Result Scope → List Scope → List Scope
push_parsed (err e) out = out
push_parsed (ok scope) out = push_new scope out

unfoldable pub is_wildcard : Text → Bool
unfolding strip_suffix
is_wildcard pattern = elim (strip_suffix (codes ":*") pattern) [ none ↦ false | some _ ↦ true ]

unfoldable pub push_pattern : Text → List Text → List Scope → List Scope
unfolding is_wildcard push_matching Scope.parse push_new
push_pattern pattern present out =
    if is_wildcard pattern
    then push_matching pattern present out
    else push_parsed (Scope.parse pattern) out

unfoldable pub push_patterns : List Text → List Text → List Scope → List Scope
unfolding push_pattern
push_patterns [] present out = out
push_patterns (pattern ∷ patterns) present out =
    push_patterns patterns present (push_pattern pattern present out)

-- `SELECT DISTINCT scope`, from the rows in their order.
unfoldable pub scopes_present : (fl : Floats) (sv : Services) → Rows fl sv.chrono → List Text
unfolding Scope.to_string contains
scopes_present fl sv [] = []
scopes_present fl sv ((p, r) ∷ rows) =
    let rest = scopes_present fl sv rows in
    if contains (Scope.to_string r.scope) rest then rest else Scope.to_string r.scope ∷ rest

abbrev pub scopes_of : Text → List Text → Option AgentEntry → Result (List Scope)
scopes_of agent_id present none = err (denied (unknown_agent agent_id))
scopes_of agent_id present (some a) =
    ok (push_patterns (for_verb a.grants read) present (own agent_id ∷ []))

-- The own scope, and what the agent's read grants cover.
unfoldable pub entitled_read_scopes : Text → List Text → Keyring → Result (List Scope)
unfolding push_patterns find_agent own for_verb
entitled_read_scopes agent_id present k = scopes_of agent_id present (find_agent agent_id k.agents)

-- `as_u64().unwrap_or(10).min(50)`
abbrev pub limit : Option ℤ → ℕ
limit (some (pos n)) = if leb n 50 then n else 50
limit _ = 10

abbrev pub time_of : (sv : Services) → Option Text → Result (Option sv.chrono.DateTime)
time_of sv none = ok none
time_of sv (some raw) = elim (sv.chrono.parse_from_rfc3339 raw) [
  | none ↦ err (other (bad_as_of raw))
  | some t ↦ ok (some t)
]

abbrev pub some_type : Option Text → Result (Option RecordType)
some_type none = ok none
some_type (some raw) = elim (parse_type raw) [ ok k ↦ ok (some k) | err e ↦ err e ]

module _ (sv : Services) where
  abbrev pub asked :
      {fl : Floats}
      → Value fl
      → List Scope
      → Option RecordType
      → Option (List Text)
      → Option sv.chrono.DateTime
      → SearchQuery sv.chrono
  asked args scopes kind tags as_of = record {
    query = or_else [] (arg_str args (codes "query"));
    scopes = some scopes;
    kind = kind;
    tags = tags;
    as_of = as_of;
    include_invalid = false;
    k = limit (as_i64 (get_arg args (codes "k")));
  }

  abbrev pub skills_in : List Scope → SearchQuery sv.chrono
  skills_in scopes = record {
    query = [];
    scopes = some scopes;
    kind = some RecordType.skill;
    tags = none;
    as_of = none;
    include_invalid = false;
    k = 50;
  }

module _ {fl : Floats} (sv : Services) (engine : Engine fl sv.chrono) (agent_id : Text) where
  -- Scopes that the call names: each is parsed and checked.
  unfoldable pub checked_scopes : List Text → Exec (TuskContext fl sv) (List Scope)
  unfolding Scope.parse check
  checked_scopes [] = pure []
  checked_scopes (raw ∷ raws) = do
    scope ← lift (Scope.parse raw)
    check agent_id read scope
    rest ← checked_scopes raws
    pure (scope ∷ rest)

  abbrev own_scopes : Exec (TuskContext fl sv) (List Scope)
  own_scopes x = (entitled_read_scopes agent_id (scopes_present fl sv x.gate.rows) x.keyring, x)

  unfoldable pub scopes_to_search : Option (List Text) → Exec (TuskContext fl sv) (List Scope)
  unfolding checked_scopes entitled_read_scopes scopes_present
  scopes_to_search none = own_scopes
  scopes_to_search (some raws) = checked_scopes raws

  unfoldable pub memory_search : Value fl → Exec (TuskContext fl sv) (Reply fl sv)
  unfolding arg_str_list arg_str get_arg scopes_to_search parse_type search
  memory_search args = do
    raws ← lift (arg_str_list args (codes "scopes"))
    scopes ← scopes_to_search raws
    kind ← lift (some_type (arg_str args (codes "type")))
    tags ← lift (arg_str_list args (codes "tags"))
    as_of ← lift (time_of sv (arg_str args (codes "as_of")))
    rows ← gets (λ x. x.gate.rows)
    pure (hits (search engine (asked sv args scopes kind tags as_of) rows))

  unfoldable pub skill_list : Exec (TuskContext fl sv) (Reply fl sv)
  unfolding scopes_to_search search
  skill_list = do
    scopes ← scopes_to_search none
    rows ← gets (λ x. x.gate.rows)
    pure (hits (search engine (skills_in sv scopes) rows))

  unfoldable pub memory_status : Exec (TuskContext fl sv) (Reply fl sv)
  unfolding find_agent queue_depth
  memory_status = do
    found ← gets (λ x. find_agent agent_id x.keyring.agents)
    a ← lift (ok_or found (denied (unknown_agent agent_id)))
    total ← gets (λ x. length x.gate.rows)
    depth ← gets (λ x. queue_depth fl sv x.gate)
    pure (status a.grants total depth)
