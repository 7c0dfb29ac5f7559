-- ===== src/Tools/Corrections.antt =====
-- tools.rs and gate.rs: what a candidate that corrects a record does to that record.
use tuskd.Prelude.{ℕ, suc, true, false, Option, none, some, ◌≡◌, ◌≢◌, refl, ◌==◌, ◌||◌}
use tuskd.Text.{Text, Text_eq}
use tuskd.Errors.{Result, ok, err}
use tuskd.Exec.{Exec, Ends, Ends-bind}
use tuskd.Floats.{Floats}
use tuskd.Scope.{Scope}
use tuskd.Time.{IsWhole, trunc_ms}
use tuskd.Keyring.{can}
use tuskd.Keyring.Pattern.{promote, write}
use tuskd.Record.Kind.{RecordType, RecordType_eq}
use tuskd.Record.Fields.{Record}
use tuskd.Record.Markdown.{new_at}
use tuskd.Record.Roundtrip.{IsStorable}
use tuskd.Journal.{Services}
use tuskd.Vault.Paths.{file_name, path_for}
use tuskd.Vault.Store
use tuskd.Vault.Store.{VaultStore}
use tuskd.Vault.Files.{Alone}
use tuskd.Vault.Reads.{IsCalm}
use tuskd.Vault.Supersede.{Stored, ended, correction, written, get-supersede}
use tuskd.Gate.Commit.{Candidate, Gate, Config, auto, on_vault, commit, commit_record, version_of}
use tuskd.Index.Search.{search}
use tuskd.Gate.Submit.{existing, policy_of, near, top_of, probe, probed, unless_explicit, submit}
use package.tuskd.Tools.Args.{Value}
use package.tuskd.Tools.Handlers.{
  TuskContext, UnitInterval, check_promote, candidate_from_args, promote_into,
}

module _ {fl : Floats} {sv : Services} where
  lifted :
      {A : Type 0} (P : A → VaultStore → Type 0) (r : Result A × VaultStore) (g : Gate fl sv)
      → Ends P r
      → Ends {S = Gate fl sv} (λ a h. P a h.vault) (r.0, record g { vault = r.1 })
  lifted P (ok a, v) g h = h
  lifted P (err e, v) g h = h

  on_vault-Ends :
      {A : Type 0} (P : A → VaultStore → Type 0) (step : Exec VaultStore A) (g : Gate fl sv)
      → Ends P (step g.vault)
      → Ends {S = Gate fl sv} (λ a h. P a h.vault) (on_vault step g)
  unfolding on_vault
  on_vault-Ends P step g h = lifted P (step g.vault) g h

  gate_Ends :
      {A : Type 0} (P : A → Gate fl sv → Type 0) (r : Result A × Gate fl sv) (x : TuskContext fl sv)
      → Ends P r
      → Ends {S = TuskContext fl sv} (λ a y. P a y.gate) (r.0, record x { gate = r.1 })
  gate_Ends P (ok a, g) x h = h
  gate_Ends P (err e, g) x h = h

-- The record that `commit` makes of the candidate at a call of the clock.
abbrev pub made :
    {fl : Floats} (sv : Services) (cf : Config fl sv)
    → Candidate fl
    → Text
    → ℕ
    → Record fl sv.chrono
made {fl} sv cf c author n =
    let t = trunc_ms sv.chrono (sv.now n) in
    record (new_at fl sv.chrono (sv.ulid n t) c.kind c.scope author t c.body) {
      tags = c.tags;
      entities = c.entities;
      trust = c.trust;
      trigger = c.trigger;
      version = version_of sv cf c;
    }

-- The corrected record is got with an end of its validity.
abbrev pub IsEnded : {fl : Floats} (sv : Services) → Record fl sv.chrono → VaultStore → Type 0
IsEnded {fl} sv old v =
    (n : ℕ) × (Store.get sv fl old.id v
      ≡ (ok (path_for fl sv.chrono old, ended sv old (sv.now n)), v))

-- What a correction needs in order to be stored beside the record that it corrects: the old one can be
-- stored, stands in canonical text at its path and alone has its file name; the new one can be stored,
-- and no file elsewhere has its name, which is another; the clock's readings are whole milliseconds once
-- cut; and no write and no append to the journal fails.
pub record IsFiled {fl : Floats} (sv : Services) (new old : Record fl sv.chrono) (v : VaultStore)
    : Type 0 where
  pub stored : Stored sv old v.files
  pub storable : IsStorable (correction sv new old.id)
  pub alone : Alone (file_name new.id) (path_for fl sv.chrono new) v.files
  pub differs : file_name new.id ≢ file_name old.id
  pub whole : (n : ℕ) → IsWhole sv.chrono (trunc_ms sv.chrono (sv.now n))
  pub calm : IsCalm v

module _ {fl : Floats} (sv : Services) (cf : Config fl sv) (old : Record fl sv.chrono) where
  commit_record-IsEnded :
      (new : Record fl sv.chrono) (g : Gate fl sv)
      → IsFiled sv new old g.vault
      → Ends (λ o h. IsEnded sv old h.vault) (commit_record sv cf new (some old.id) g)
  unfolding commit_record on_vault
  commit_record-IsEnded new g f =
      Ends-bind _ _ (on_vault (Store.supersede sv fl new old.id) g) _
        (on_vault-Ends _ (Store.supersede sv fl new old.id) g
          (get-supersede sv new old g.vault f.stored f.storable f.alone f.differs f.whole f.calm))
        λ r h e. rw e.0 ((written sv new old.id g.vault).calls, e.0)

  commit-IsEnded :
      (c : Candidate fl) (author : Text) (g : Gate fl sv)
      → c.corrects ≡ some old.id
      → (c.kind == RecordType.skill) ≡ false
      → IsFiled sv
          (made sv cf c author g.vault.calls)
          old
          (record (g.vault) { calls = suc g.vault.calls })
      → Ends (λ o h. IsEnded sv old h.vault) (commit sv cf c author g)
  unfolding commit on_vault Store.new_record Store.now
  commit-IsEnded c author g e k f =
      let next = record g { vault = record (g.vault) { calls = suc g.vault.calls } } in
      let new = made sv cf c author g.vault.calls in
      Ends-bind _ _ (commit_record sv cf new c.corrects next) _
        (rw e (commit_record-IsEnded new next f)) λ o h z. rw k z

  explicit_same :
      (o : Option Text) (id : Text) (c d : Candidate fl)
      → o ≡ some id
      → unless_explicit sv cf o c d ≡ c
  explicit_same none id c d h = cc
  explicit_same (some j) id c d h = refl

  submit-auto :
      (c : Candidate fl) (author : Text) (g : Gate fl sv)
      → c.corrects ≡ some old.id
      → existing sv cf c g ≡ none
      → policy_of sv cf c ≡ auto
      → submit sv cf c author g ≡ commit sv cf c author g
  unfolding submit probe
  submit-auto c author g e n o =
      rw
        (
          n,
          explicit_same c.corrects old.id c
              (probed sv cf c (top_of sv cf (search cf.engine (near sv cf c) g.rows)) g) e,
          o,
        )
        refl

  promoted :
      (ui : UnitInterval fl) (agent_id : Text) (args : Value fl) (scope : Scope) (c : Candidate fl)
      (x : TuskContext fl sv)
      → (can agent_id promote scope x.keyring || can agent_id write scope x.keyring) ≡ true
      → candidate_from_args sv cf ui agent_id args scope ≡ ok c
      → promote_into sv cf ui agent_id args scope x ≡ (
        (submit sv cf c agent_id x.gate).0,
        record x { gate = (submit sv cf c agent_id x.gate).1 },
      )
  unfolding promote_into check_promote
  promoted ui agent_id args scope c x p a = rw (p, a) refl

  -- A correction that `promote` or `write` on the target scope allows, that is no duplicate, no skill and
  -- needs no review, succeeds and ends the record that it names at a reading of the clock, whatever the
  -- scope of that record is: nothing is asked about the agent's verbs on it. The condition is `IsFiled`:
  -- no write and no append to the journal fails, the old record can be stored, stands in canonical text at
  -- its path and alone has its file name, and the new record can be stored under a name that no file
  -- elsewhere has and that is not the old one's.
  pub promote_into-IsEnded :
      (ui : UnitInterval fl) (agent_id : Text) (args : Value fl) (scope : Scope) (c : Candidate fl)
      (x : TuskContext fl sv)
      → (can agent_id promote scope x.keyring || can agent_id write scope x.keyring) ≡ true
      → candidate_from_args sv cf ui agent_id args scope ≡ ok c
      → c.corrects ≡ some old.id
      → (c.kind == RecordType.skill) ≡ false
      → existing sv cf c x.gate ≡ none
      → policy_of sv cf c ≡ auto
      → IsFiled sv
          (made sv cf c agent_id x.gate.vault.calls)
          old
          (record (x.gate.vault) { calls = suc x.gate.vault.calls })
      → Ends (λ o y. IsEnded sv old y.gate.vault) (promote_into sv cf ui agent_id args scope x)
  promote_into-IsEnded ui agent_id args scope c x p a e k n o f =
      rw (promoted ui agent_id args scope c x p a, submit-auto c agent_id x.gate e n o)
        (gate_Ends (λ q h. IsEnded sv old h.vault) (commit sv cf c agent_id x.gate) x
          (commit-IsEnded c agent_id x.gate e k f))
