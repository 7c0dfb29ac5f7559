-- ===== src/Gate/Graduate.antt =====
-- gate.rs: `graduate`, which makes skill candidates of proven procedural records.
pub mod Queued
use tuskd.Prelude.{
  ℕ, Bool, true, false, not, Option, none, some, List, [], ◌∷◌, ◌++◌, map, ◌==◌, ◌&&◌, ◌||◌, any,
  contains, if◌then◌else◌, ltb,
}
use tuskd.Text.{Text, Text_eq, codes, starts_with, trim_end}
use tuskd.Text.Number.{ℤ, pos, negsuc, show_i64}
use tuskd.Errors.{Result}
use tuskd.Exec.{Exec, pure, gets, ◌>>=◌, ◌>>◌}
use tuskd.Floats.{Floats}
use tuskd.Record.Kind.{RecordType, RecordType_eq}
use tuskd.Record.Fields.{Record}
use tuskd.Record.Markdown.{is_valid_now, success_rate}
use tuskd.Journal.{Services}
use tuskd.Vault.Paths.{FilePath}
use tuskd.Vault.Store
use package.tuskd.Gate.Words.{first_line}
use package.tuskd.Gate.Commit.{Candidate, GateOutcome, QueueItem, Gate, Config, on_vault}
use package.tuskd.Gate.Submit.{submit}

-- The thresholds, `{:.2}`, and a time by `%Y-%m-%d`.
pub record GraduationConfig (fl : Floats) (sv : Services) : Type 0 where
  pub min_uses : ℤ
  pub min_success_rate : fl.F64
  pub display_2 : fl.F64 → Text
  pub format_date : sv.chrono.DateTime → Text

-- `a < b`
abbrev pub int_lt : ℤ → ℤ → Bool
int_lt (pos m) (pos n) = ltb m n
int_lt (pos m) (negsuc n) = false
int_lt (negsuc m) (pos n) = true
int_lt (negsuc m) (negsuc n) = ltb n m

unfoldable pub marker : Text → Text
marker id = codes "from:" ++ id

unfoldable pub markers : List Text → List Text
unfolding starts_with
markers [] = []
markers (t ∷ tags) =
    let rest = markers tags in if starts_with (codes "from:") t then t ∷ rest else rest

module _ {fl : Floats} (sv : Services) (cf : Config fl sv) (gc : GraduationConfig fl sv) where
  abbrev queue_tags : List (QueueItem fl) → List Text
  queue_tags [] = []
  queue_tags (i ∷ items) = i.candidate.tags ++ queue_tags items

  abbrev record_tags : List (FilePath × Record fl sv.chrono) → List Text
  record_tags [] = []
  record_tags ((p, r) ∷ all) = r.tags ++ record_tags all

  unfoldable pub already : List (QueueItem fl) → List (FilePath × Record fl sv.chrono) → List Text
  unfolding markers
  already items all = markers (queue_tags items ++ record_tags all)

  -- Procedural, valid, proven, and not graduated before.
  unfoldable pub graduates : List Text → Record fl sv.chrono → Bool
  unfolding is_valid_now success_rate marker contains
  graduates seen r =
      r.kind == RecordType.procedural
      && is_valid_now fl sv.chrono r
      && not (int_lt r.uses gc.min_uses)
      && not (cf.engine.gt_f64 gc.min_success_rate (success_rate fl sv.chrono r))
      && not (contains (marker r.id) seen)

  unfoldable pub graduated_body : sv.chrono.DateTime → Record fl sv.chrono → Text
  unfolding trim_end show_i64 success_rate
  graduated_body t r =
      trim_end r.body
      ++ codes "\n\n---\nGraduated from procedural record "
      ++ r.id
      ++ codes " (uses="
      ++ show_i64 r.uses
      ++ codes ", success_rate="
      ++ gc.display_2 (success_rate fl sv.chrono r)
      ++ codes ") on "
      ++ gc.format_date t
      ++ codes ".\n"

  unfoldable pub skill_of : sv.chrono.DateTime → Record fl sv.chrono → Candidate fl
  unfolding graduated_body marker first_line
  skill_of t r = record {
    kind = RecordType.skill;
    scope = r.scope;
    body = graduated_body t r;
    tags = codes "graduated" ∷ marker r.id ∷ [];
    entities = r.entities;
    trust = r.trust;
    corrects = none;
    trigger = some (first_line r.body);
    version = some (pos 1);
  }

  unfoldable pub graduate_one : Record fl sv.chrono → Exec (Gate fl sv) GateOutcome
  unfolding on_vault Store.now skill_of submit
  graduate_one r = do t ← on_vault (Store.now sv); submit sv cf (skill_of t r) r.author

  abbrev pub with_outcome :
      Bool
      → Record fl sv.chrono
      → Exec (Gate fl sv) (List GateOutcome)
      → Exec (Gate fl sv) (List GateOutcome)
  with_outcome false r rest = rest
  with_outcome true r rest = do o ← graduate_one r; os ← rest; pure (o ∷ os)

  unfoldable pub graduate_all :
      List Text → List (FilePath × Record fl sv.chrono) → Exec (Gate fl sv) (List GateOutcome)
  unfolding graduates graduate_one
  graduate_all seen [] = pure []
  graduate_all seen ((p, r) ∷ all) = with_outcome (graduates seen r) r (graduate_all seen all)

  unfoldable pub graduate : Exec (Gate fl sv) (List GateOutcome)
  unfolding Store.walk already graduate_all
  graduate = do
    all ← gets (λ g. Store.walk sv fl g.vault.files)
    items ← gets (λ g. g.queue)
    graduate_all (already items all) all
