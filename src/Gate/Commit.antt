-- ===== src/Gate/Commit.antt =====
-- gate.rs: policies, candidates, the state of the gate, and the commit path.
use tuskd.Prelude.{
  Bool, true, false, Option, none, some, List, [], ◌∷◌, ◌++◌, map, ◌==◌, if◌then◌else◌, ℕ_eq,
}
use tuskd.Text.{Text, codes, Text_eq}
use tuskd.Text.Number.{ℤ, pos}
use tuskd.Errors.{Result, ok, err}
use tuskd.Exec.{Exec, pure, modify, ◌>>=◌, ◌>>◌}
use tuskd.Floats.{Floats}
use tuskd.Scope.{Scope, dashed}
use tuskd.Keyring.Pattern.{pattern_matches}
use tuskd.Record.Kind.{RecordType, RecordType_eq}
use tuskd.Record.Fields.{Record}
use tuskd.Frontmatter.Quoting.{newline}
use tuskd.Frontmatter.Parser.{str}
use tuskd.Frontmatter.Printer.{serialize}
use tuskd.Journal.{Services}
use tuskd.Vault.Paths.{FilePath}
use tuskd.Vault.Store.{VaultStore}
use tuskd.Vault.Store
use tuskd.Index.{Rows, ingest_record}
use tuskd.Index.Search.{Engine}
use package.tuskd.Gate.Words.{Unicode, first_line, skill_name}

pub data Policy : Type 0 where
  auto review_first : Policy

abbrev pub Policies : Type 0
Policies = List (Text × Policy)

abbrev default_policy : Scope → Policy
default_policy Scope.org = review_first
default_policy _ = auto

-- The first rule whose pattern matches, or the scope's default.
unfoldable pub policy_for : Policies → Scope → Policy
unfolding pattern_matches
policy_for [] scope = default_policy scope
policy_for ((pattern, policy) ∷ rules) scope =
    if pattern_matches pattern scope then policy else policy_for rules scope

pub record Candidate (fl : Floats) : Type 0 where
  pub kind : RecordType
  pub scope : Scope
  pub body : Text
  pub tags : List Text
  pub entities : List Text
  pub trust : fl.F64
  pub corrects : Option Text
  pub trigger : Option Text
  pub version : Option ℤ

pub data GateOutcome : Type 0 where
  committed : Text → GateOutcome
  superseded_existing : Text → Text → GateOutcome
  rejected_duplicate : Text → GateOutcome
  queued : Text → GateOutcome

pub record QueueItem (fl : Floats) : Type 0 where
  pub qid : Text
  pub author : Text
  pub submitted_at : Text
  pub candidate : Candidate fl

-- What the gate works on: the vault, the rows of the index, the file of the queue, and the files below
-- `skills`. The files share the vault's `writes`.
pub record Gate (fl : Floats) (sv : Services) : Type 0 where
  pub vault : VaultStore
  pub rows : Rows fl sv.chrono
  pub queue : List (QueueItem fl)
  pub skills : List (Text × Text)

-- The policies, the Unicode tables, and the engine of the index.
pub record Config (fl : Floats) (sv : Services) : Type 0 where
  pub policies : Policies
  pub unicode : Unicode fl
  pub sha256_hex : Text → Text
  pub engine : Engine fl sv.chrono

module _ {fl : Floats} {sv : Services} where
  -- An operation of the vault.
  unfoldable pub on_vault : {A : Type 0} → Exec VaultStore A → Exec (Gate fl sv) A
  on_vault step g = ((step g.vault).0, record g { vault = (step g.vault).1 })

  abbrev settle :
      (Gate fl sv → Gate fl sv)
      → Gate fl sv
      → Result (Unit {0}) × VaultStore
      → Result (Unit {0}) × Gate fl sv
  settle f g (ok u, v) = (ok tt, f (record g { vault = v }))
  settle f g (err e, v) = (err e, record g { vault = v })

  -- A file that is written, or a write that fails.
  unfoldable pub write_other : (Gate fl sv → Gate fl sv) → Exec (Gate fl sv) (Unit {0})
  unfolding Store.change
  write_other f g = settle f g (Store.change (λ files. files) g.vault)

  unfoldable pub save_queue : List (QueueItem fl) → Exec (Gate fl sv) (Unit {0})
  unfolding write_other
  save_queue items = write_other λ g. record g { queue = items }

module _ {fl : Floats} (sv : Services) (cf : Config fl sv) where
  abbrev spaced : Text → Text
  spaced s = map (λ c. if c == newline then b' ' else c) s

  abbrev description : Record fl sv.chrono → Text
  description r = spaced (elim r.trigger [ none ↦ first_line r.body | some t ↦ t ])

  unfoldable pub materialize_skill : Record fl sv.chrono → Exec (Gate fl sv) Text
  unfolding first_line skill_name serialize write_other dashed
  materialize_skill r = do
    let path = dashed r.scope ++ b'/' ∷ r.id ++ codes "/SKILL.md"
    let name = skill_name cf.unicode.to_lowercase r.id r.body
    let text =
        serialize fl ((codes "name", str name) ∷ (codes "description", str (description r)) ∷ [])
          r.body
    write_other (λ g. record g { skills = (path, text) ∷ g.skills })
    pure path

  abbrev pub version_of : Candidate fl → Option ℤ
  version_of c = elim c.version [
    | some v ↦ some v
    | none ↦ if c.kind == RecordType.skill then some (pos 1) else none
  ]

  abbrev ingest : FilePath → Record fl sv.chrono → Exec (Gate fl sv) (Unit {0})
  ingest p r = modify λ g. record g { rows = ingest_record p r g.rows }

  -- The record is written, what it corrects is ended, and both are indexed.
  unfoldable pub commit_record : Record fl sv.chrono → Option Text → Exec (Gate fl sv) GateOutcome
  unfolding on_vault Store.write Store.supersede Store.get ingest_record
  commit_record r none = do p ← on_vault (Store.write sv fl r); ingest p r; pure (committed r.id)
  commit_record r (some old_id) = do
    (p, new) ← on_vault (Store.supersede sv fl r old_id)
    ingest p new
    (old_path, old) ← on_vault (Store.get sv fl old_id)
    ingest old_path old
    pure (superseded_existing r.id old_id)

  abbrev materialize_if : Bool → Record fl sv.chrono → Exec (Gate fl sv) (Unit {0})
  materialize_if false r = pure tt
  materialize_if true r = do materialize_skill r; pure tt

  unfoldable pub commit : Candidate fl → Text → Exec (Gate fl sv) GateOutcome
  unfolding on_vault Store.new_record commit_record materialize_skill
  commit c author = do
    fresh ← on_vault (Store.new_record sv fl c.kind c.scope author c.body)
    let r = record fresh {
      tags = c.tags;
      entities = c.entities;
      trust = c.trust;
      trigger = c.trigger;
      version = version_of c;
    }
    outcome ← commit_record r c.corrects
    materialize_if (c.kind == RecordType.skill) r
    pure outcome
