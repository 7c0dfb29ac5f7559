-- ===== src/Tools/Handlers.antt =====
-- tools.rs: the handlers of the tools.
use tuskd.Prelude.{ℕ, suc, not, Option, none, some, List, [], ◌∷◌, ◌==◌, ◌||◌, if◌then◌else◌}
use tuskd.Text.{Text, codes, Text_eq, trim}
use tuskd.Text.Number.{pos}
use tuskd.Errors.{
  Result, ok, err, denied, other, lacks_verb, lacks_promote, not_owner, empty_content, bad_outcome,
  ensure,
}
use tuskd.Errors.{missing_arg, ◌>>=◌ as then_with, ◌>>◌ as and_then}
use tuskd.Exec.{Exec, pure, lift, gets, modify, ◌>>=◌, ◌>>◌}
use tuskd.Floats.{Floats}
use tuskd.Scope
use tuskd.Scope.{Scope, Scope_eq, own}
use tuskd.Keyring.{Keyring, can}
use tuskd.Keyring.Pattern.{Grants, Verb, read, write, promote}
use tuskd.Record.Kind.{RecordType, parse_type}
use tuskd.Record.Fields.{Record}
use tuskd.Journal.{Services}
use tuskd.Vault.Paths.{FilePath}
use tuskd.Vault.Store
use tuskd.Vault.Store.{VaultStore}
use tuskd.Index.{ingest_record, remove_id}
use tuskd.Index.Search.{SearchHit}
use tuskd.Gate.Commit.{Candidate, GateOutcome, Gate, Config}
use tuskd.Gate.Submit.{submit}
use package.tuskd.Tools.Args.{
  Value, Items, array, no_items, item, get_arg, as_f64, as_i64, arg_str, req_str, arg_str_list,
  parse_candidate_type,
}

-- `TuskContext` of context.rs: the keyring, and the vault, the index and the queue, which are the
-- gate's.
pub record TuskContext (fl : Floats) (sv : Services) : Type 0 where
  pub keyring : Keyring
  pub gate : Gate fl sv

-- `f64::clamp(0.0, 1.0)` and `1.0`.
pub record UnitInterval (fl : Floats) : Type 0 where
  pub clamp : fl.F64 → fl.F64
  pub one : fl.F64

-- What a tool answers, in place of its JSON; of a batch, the answer or the error of each candidate.
pub data Reply (fl : Floats) (sv : Services) : Type 0 where
  wrote : Text → Scope → Reply fl sv
  got : Record fl sv.chrono → Reply fl sv
  decided : GateOutcome → Reply fl sv
  batch : List (Result GateOutcome) → Reply fl sv
  updated : Record fl sv.chrono → Reply fl sv
  forgotten : Text → Reply fl sv
  hits : List (SearchHit fl) → Reply fl sv
  status : Grants → ℕ → ℕ → Reply fl sv

abbrev pub or_else {ℓ} : {A : Type ℓ} → A → Option A → A
or_else d none = d
or_else d (some a) = a

abbrev pub scope_or : Scope → Option Text → Result Scope
scope_or default none = ok default
scope_or default (some raw) = Scope.parse raw

abbrev pub type_or : (Text → Result RecordType) → RecordType → Option Text → Result RecordType
type_or parse default none = ok default
type_or parse default (some raw) = parse raw

module _ {fl : Floats} {sv : Services} where
  abbrev pub on_gate : {A : Type 0} → Exec (Gate fl sv) A → Exec (TuskContext fl sv) A
  on_gate step x = ((step x.gate).0, record x { gate = (step x.gate).1 })

  abbrev pub on_store : {A : Type 0} → Exec VaultStore A → Exec (TuskContext fl sv) A
  on_store step x =
      ((step x.gate.vault).0, record x { gate = record (x.gate) { vault = (step x.gate.vault).1 } })

  abbrev ingest : FilePath → Record fl sv.chrono → Exec (TuskContext fl sv) (Unit {0})
  ingest p r =
      modify λ x. record x { gate = record (x.gate) { rows = ingest_record p r x.gate.rows } }

  -- The choke point, as the handlers call it.
  unfoldable pub check : Text → Verb → Scope → Exec (TuskContext fl sv) (Unit {0})
  unfolding can
  check agent_id verb scope x = (ensure (can agent_id verb scope x.keyring) (denied lacks_verb), x)

  -- Promotion wants the verb promote or the verb write.
  unfoldable pub check_promote : Text → Scope → Exec (TuskContext fl sv) (Unit {0})
  unfolding can
  check_promote agent_id scope x = (
    ensure (can agent_id promote scope x.keyring || can agent_id write scope x.keyring)
        (denied lacks_promote),
    x,
  )

module _ {fl : Floats} (sv : Services) (cf : Config fl sv) (ui : UnitInterval fl)
    (agent_id : Text) where
  abbrev Call : Type 0
  Call = Value fl → Exec (TuskContext fl sv) (Reply fl sv)

  abbrev supplied :
      Value fl → Record fl sv.chrono → Option (List Text) → Option (List Text) → Record fl sv.chrono
  supplied args r tags entities = record r {
    tags = or_else r.tags tags;
    entities = or_else r.entities entities;
    trust = elim (as_f64 (get_arg args (codes "trust"))) [ none ↦ r.trust | some f ↦ ui.clamp f ];
    trigger = elim (arg_str args (codes "trigger")) [ none ↦ r.trigger | some t ↦ some t ];
    version = elim (as_i64 (get_arg args (codes "version"))) [ none ↦ r.version | some v ↦ some v ];
  }

  -- The write itself; a superseded record wants the verb write on its own scope.
  unfoldable pub store_record :
      Record fl sv.chrono → Option Text → Exec (TuskContext fl sv) (Unit {0})
  unfolding check Store.get Store.supersede Store.write ingest_record
  store_record r none = do p ← on_store (Store.write sv fl r); ingest p r
  store_record r (some old_id) = do
    (p, old) ← on_store (Store.get sv fl old_id)
    check agent_id write old.scope
    (path, new) ← on_store (Store.supersede sv fl r old_id)
    (old_path, ended) ← on_store (Store.get sv fl old_id)
    ingest old_path ended
    ingest path new

  unfoldable pub write_checked : Value fl → Scope → Exec (TuskContext fl sv) (Reply fl sv)
  unfolding check req_str trim arg_str arg_str_list parse_type Store.new_record store_record
  write_checked args scope = do
    check agent_id write scope
    content ← lift (req_str args (codes "content"))
    lift (ensure (not (trim content == [])) (other empty_content))
    kind ← lift (type_or parse_type RecordType.episodic (arg_str args (codes "type")))
    r ← on_store (Store.new_record sv fl kind scope agent_id content)
    tags ← lift (arg_str_list args (codes "tags"))
    entities ← lift (arg_str_list args (codes "entities"))
    let full = supplied args r tags entities
    store_record full (arg_str args (codes "supersedes"))
    pure (wrote full.id scope)

  unfoldable pub memory_write : Call
  unfolding write_checked own Scope.parse
  memory_write args = do
    scope ← lift (scope_or (own agent_id) (arg_str args (codes "scope")))
    write_checked args scope

  unfoldable pub memory_get : Call
  unfolding check req_str Store.get
  memory_get args = do
    id ← lift (req_str args (codes "id"))
    (p, r) ← on_store (Store.get sv fl id)
    check agent_id read r.scope
    pure (got r)

  unfoldable pub candidate_from_args : Value fl → Scope → Result (Candidate fl)
  unfolding req_str trim arg_str arg_str_list parse_candidate_type
  candidate_from_args args scope = build
    where
      build : Result (Candidate fl)
      build = then_with (req_str args (codes "content")) λ content.
          and_then (ensure (not (trim content == [])) (other empty_content)) (
            then_with
              (type_or parse_candidate_type RecordType.semantic (arg_str args (codes "type")))
              λ kind. then_with (arg_str_list args (codes "tags")) λ tags.
                then_with (arg_str_list args (codes "entities")) λ entities. ok (record {
                  kind = kind;
                  scope = scope;
                  body = content;
                  tags = or_else [] tags;
                  entities = or_else [] entities;
                  trust = ui.clamp (or_else fl.half (as_f64 (get_arg args (codes "trust"))));
                  corrects = arg_str args (codes "corrects");
                  trigger = arg_str args (codes "trigger");
                  version = as_i64 (get_arg args (codes "version"));
                }))

  unfoldable pub promote_into : Value fl → Scope → Exec (TuskContext fl sv) GateOutcome
  unfolding check_promote candidate_from_args submit
  promote_into args scope = do
    check_promote agent_id scope
    candidate ← lift (candidate_from_args args scope)
    on_gate (submit sv cf candidate agent_id)

  unfoldable pub memory_promote : Call
  unfolding req_str Scope.parse promote_into
  memory_promote args = do
    raw ← lift (req_str args (codes "target_scope"))
    scope ← lift (Scope.parse raw)
    outcome ← promote_into args scope
    pure (decided outcome)

  -- One candidate of a batch.
  unfoldable pub reflect_one : Scope → Value fl → Exec (TuskContext fl sv) GateOutcome
  unfolding arg_str Scope.parse promote_into
  reflect_one default args = do
    scope ← lift (
        scope_or default (elim (arg_str args (codes "scope")) [
          | none ↦ arg_str args (codes "target_scope")
          | some s ↦ some s
        ]))
    promote_into args scope

  -- An error of one candidate does not stop the others.
  unfoldable pub reflect_all :
      Scope → Items fl → TuskContext fl sv → List (Result GateOutcome) × TuskContext fl sv
  unfolding reflect_one
  reflect_all default no_items x = ([], x)
  reflect_all default (item args more) x =
      let first = reflect_one default args x in
      let rest = reflect_all default more first.1 in (first.0 ∷ rest.0, rest.1)

  abbrev items_of : Option (Value fl) → Result (Items fl)
  items_of (some (array items)) = ok items
  items_of _ = err (other (missing_arg (codes "candidates")))

  unfoldable pub memory_reflect : Call
  unfolding arg_str Scope.parse own reflect_all
  memory_reflect args = do
    items ← lift (items_of (get_arg args (codes "candidates")))
    default ← lift (scope_or (own agent_id) (arg_str args (codes "target_scope")))
    λ x. let (results, y) = reflect_all default items x in (ok (batch results), y)

  abbrev delta_of : Text → Result fl.F64
  delta_of outcome =
      if outcome == codes "success"
      then ok ui.one
      else if outcome == codes "failure"
      then ok fl.zero_f64
      else if outcome == codes "partial"
      then ok fl.half
      else err (other (bad_outcome outcome))

  unfoldable pub memory_feedback : Call
  unfolding check req_str Store.get Store.update_telemetry ingest_record
  memory_feedback args = do
    id ← lift (req_str args (codes "id"))
    outcome ← lift (req_str args (codes "outcome"))
    delta ← lift (delta_of outcome)
    (p, r) ← on_store (Store.get sv fl id)
    check agent_id read r.scope
    call ← gets (λ x. x.gate.vault.calls)
    on_store (λ v. (ok tt, record v { calls = suc call }))
    new ← on_store (Store.update_telemetry sv fl id (pos 1) delta (sv.now call))
    (path, again) ← on_store (Store.get sv fl id)
    ingest path new
    pure (updated new)

  -- Only the author, or the agent whose own scope it is, deletes a record.
  unfoldable pub memory_forget : Call
  unfolding req_str Store.get Store.forget own remove_id
  memory_forget args = do
    id ← lift (req_str args (codes "id"))
    (p, r) ← on_store (Store.get sv fl id)
    lift (ensure (r.scope == own agent_id || r.author == agent_id) (denied not_owner))
    on_store (Store.forget sv fl id)
    modify (λ x. record x { gate = record (x.gate) { rows = remove_id id x.gate.rows } })
    pure (forgotten id)
