-- ===== src/Tests/Searches.antt =====
-- index.rs at fixed inputs.
use tuskd.Prelude.{◌≡◌, refl, none, some, List, [], ◌∷◌, map, true, false}
use tuskd.Text.{Text, codes}
use tuskd.Scope.{user, project}
use tuskd.Record.Fields.{Record}
use tuskd.Vault.Paths.{FilePath}
use tuskd.Index.{Rows}
use tuskd.Index.Terms.{terms}
use tuskd.Index.Search.{SearchQuery, search}
use tuskd.Index.Stats.{AuthorActivity, stats, created_per_day, author_activity}
use tuskd.Tests.Values.{tenths, ticks, toy_engine}
use tuskd.Tests.Records.{sample}

abbrev early : Record tenths ticks
early = record sample { id = codes "01B"; invalid_at = none; scope = user; tags = codes "a" ∷ [] }

abbrev late : Record tenths ticks
late = record early { id = codes "01C"; created_at = 5; valid_at = 5; tags = codes "b" ∷ [] }

abbrev somewhere : FilePath
somewhere = record { dirs = []; name = [] }

abbrev rows : Rows tenths ticks
rows =
    (somewhere, sample)
    ∷ (somewhere, early)
    ∷ (somewhere, late)
    ∷ (somewhere, record late { id = codes "01D" })
    ∷ []

abbrev everything : SearchQuery ticks
everything = record {
  query = [];
  scopes = none;
  kind = none;
  tags = none;
  as_of = none;
  include_invalid = false;
  k = 0;
}

abbrev ids : SearchQuery ticks → List Text
ids q = map (λ h. h.id) (search toy_engine q rows)

quotes : terms (codes " a\"b  c ") ≡ codes "\"a\"\"b\"" ∷ codes "\"c\"" ∷ []
unfolding terms
quotes = refl

-- Without terms: the valid records, the last created first.
newest : ids everything ≡ codes "01D" ∷ codes "01C" ∷ codes "01B" ∷ []
unfolding search
newest = refl

one_newest : ids (record everything { k = 1 }) ≡ codes "01D" ∷ []
unfolding search
one_newest = refl

with_tag : ids (record everything { tags = some (codes "a" ∷ []) }) ≡ codes "01B" ∷ []
unfolding search
with_tag = refl

at_two : ids (record everything { as_of = some 2 }) ≡ codes "01B" ∷ codes "01A" ∷ []
unfolding search
at_two = refl

nowhere : ids (record everything { scopes = some [] }) ≡ []
unfolding search
nowhere = refl

in_project :
    ids (record everything { scopes = some (project (codes "app") ∷ []); include_invalid = true })
    ≡ codes "01A" ∷ []
unfolding search
in_project = refl

ranked :
    ids (record everything { query = codes "x" }) ≡ codes "01B" ∷ codes "01C" ∷ codes "01D" ∷ []
unfolding search
ranked = refl

counts : (stats rows).by_scope ≡ (codes "project:app", 1) ∷ (codes "user", 3) ∷ []
unfolding stats
counts = refl

valid_count : (stats rows).valid ≡ 3
unfolding stats
valid_count = refl

per_day : created_per_day 2 rows ≡ (codes "5", 2) ∷ []
unfolding created_per_day
per_day = refl

abbrev only : AuthorActivity
only = record { author = codes "claude"; records = 4; valid = 3; last_created = codes "5" }

active : author_activity rows ≡ only ∷ []
unfolding author_activity
active = refl
