-- ===== src/Tests/Gates.antt =====
-- gate.rs at fixed inputs.
use tuskd.Prelude.{true, Every, ◌≡◌, ◌⊎◌, refl, none, [], ◌∷◌, ltb, false}
use tuskd.Text.{Text, codes, trim, trim_start, is_ascii_alphanumeric, is_whitespace}
use tuskd.Errors.{ok, err, not_found, no_queue_item}
use tuskd.Scope.{user}
use tuskd.Record.Kind.{RecordType, type_eq}
use tuskd.Record.Fields.{Record}
use tuskd.Record.Markdown.{is_valid_now}
use tuskd.Vault.Paths.{path_for}
use tuskd.Gate.Words.{Unicode, first_line, first_heading, collapse, trim_matches, skill_name}
use tuskd.Gate.Commit.{Candidate, QueueItem, Gate, Config, rejected_duplicate}
use tuskd.Gate.Submit.{submit, review}
use tuskd.Exec.Triples.{After}
use tuskd.Text.Number.{pos}
use tuskd.Gate.Graduate.{GraduationConfig, graduates, graduate}
use tuskd.Gate.Graduate.Queued.{IsPending, graduate-AllPending}
use tuskd.Tests.Records.{sample}
use tuskd.Gate.Review.{
  NoCommit, Untouched, Unqueued, Took, submit-skill, submit-duplicate, review-reject,
}
use tuskd.Tests.Values.{tenths, ticks, toy_engine}
use tuskd.Tests.Json.{toy_services}
use tuskd.Tests.Records.{sample}

abbrev letters : Unicode tenths
letters = record {
  is_alphanumeric = λ c. is_ascii_alphanumeric c;
  to_lowercase = λ t. t;
  gt = λ a b. ltb b a;
  threshold = 7;
}

abbrev pub config : Config tenths toy_services
config = record { policies = []; unicode = letters; sha256_hex = λ t. t; engine = toy_engine }

abbrev candidate : Candidate tenths
candidate = record {
  kind = RecordType.skill;
  scope = user;
  body = codes "# Deploy it";
  tags = [];
  entities = [];
  trust = 5;
  corrects = none;
  trigger = none;
  version = none;
}

abbrev item : QueueItem tenths
item = record {
  qid = codes "q-1";
  author = codes "claude";
  submitted_at = codes "1";
  candidate = candidate;
}

abbrev live : Record tenths ticks
live = record sample { invalid_at = none }

abbrev again : Candidate tenths
again = record candidate { scope = live.scope; body = codes "Body "; kind = RecordType.semantic }

abbrev pub gate : Gate tenths toy_services
gate = record {
  vault = record { files = []; journal = none; writes = []; calls = 0 };
  rows = (path_for tenths ticks live, live) ∷ [];
  queue = item ∷ [];
  skills = [];
}

submit-skill_example :
    NoCommit (submit toy_services config candidate (codes "claude") gate).0
    × Untouched gate (submit toy_services config candidate (codes "claude") gate).1
submit-skill_example = submit-skill toy_services config candidate (codes "claude") gate refl

submit-duplicate_example :
    (id : Text) × (submit toy_services config again (codes "claude") gate
      ≡ (ok (rejected_duplicate id), gate))
unfolding trim trim_start is_whitespace is_valid_now
submit-duplicate_example =
    submit-duplicate toy_services config again (codes "claude") gate [] []
      (path_for tenths ticks live) live refl refl refl refl

review-reject_example :
    (Unqueued (codes "q-1") gate.queue
      × (review toy_services config (codes "q-1") false gate
          ≡ (err (not_found (no_queue_item (codes "q-1"))), gate)))
    ⊎ ((found : QueueItem tenths) × Took
          (codes "q-1")
          gate.queue
          found
          (review toy_services config (codes "q-1") false gate).1.queue
        × ((review toy_services config (codes "q-1") false gate).0 ≡ ok none)
        × Untouched gate (review toy_services config (codes "q-1") false gate).1)
review-reject_example = review-reject toy_services config (codes "q-1") gate refl

-- The heading markers go, and what is not alphanumeric becomes one dash.
slug : skill_name (λ t. t) (codes "01A") (codes "\n## Deploy -- it!\nthen") ≡ codes "Deploy-it"
unfolding skill_name first_line first_heading collapse trim_matches trim trim_start is_whitespace
    is_ascii_alphanumeric
slug = refl

abbrev thresholds : GraduationConfig tenths toy_services
thresholds = record {
  min_uses = pos 5;
  min_success_rate = 8;
  display_2 = (λ f. []);
  format_date = λ t. [];
}

abbrev proven : Record tenths ticks
proven = record sample { invalid_at = none; successes = 60 }

-- Used seven times, six of them with success.
graduated_when_proven : graduates toy_services config thresholds [] proven ≡ true
unfolding graduates type_eq
graduated_when_proven = refl

not_twice : graduates toy_services config thresholds (codes "from:01A" ∷ []) proven ≡ false
unfolding graduates type_eq
not_twice = refl

not_proven : graduates toy_services config thresholds [] (record proven { successes = 50 }) ≡ false
unfolding graduates type_eq
not_proven = refl

graduate-AllPending_example :
    After
      (λ os h. Untouched gate h × Every IsPending os)
      (Untouched gate)
      (graduate toy_services config thresholds gate)
graduate-AllPending_example = graduate-AllPending toy_services config thresholds gate
