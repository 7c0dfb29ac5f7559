-- ===== src/Tests/Scopes.antt =====
-- scope.rs at fixed inputs.
use tuskd.Prelude.{◌≡◌, refl}
use tuskd.Text.{codes, strip_prefix, is_ascii_alphanumeric}
use tuskd.Errors.{ok, err, invalid_scope}
use tuskd.Scope.{Scope, agent, project, parse, to_string, dashed, valid_id}
use tuskd.Scope.Roundtrip.{parse-to_string, to_string-parse, IsValid}

parse_project : parse (codes "project:opentusk") ≡ ok (project (codes "opentusk"))
unfolding parse strip_prefix valid_id is_ascii_alphanumeric
parse_project = refl

parse_bad : parse (codes "agent:-x") ≡ err (invalid_scope (codes "agent:-x"))
unfolding parse strip_prefix valid_id is_ascii_alphanumeric
parse_bad = refl

dashed_project : dashed (project (codes "a.b")) ≡ codes "project-a.b"
unfolding dashed
dashed_project = refl

parse-to_string_example :
    parse (to_string (agent (codes "hermes-dev"))) ≡ ok (agent (codes "hermes-dev"))
parse-to_string_example =
    parse-to_string (agent (codes "hermes-dev")) (unfold valid_id is_ascii_alphanumeric in refl)

to_string-parse_example :
    (to_string (project (codes "opentusk")) ≡ codes "project:opentusk")
    × IsValid (project (codes "opentusk"))
to_string-parse_example =
    to_string-parse (codes "project:opentusk") (project (codes "opentusk")) parse_project

abbrev dotted : Scope
dotted = project (codes "a.b")

dotted-IsValid : IsValid dotted
dotted-IsValid = unfold valid_id is_ascii_alphanumeric in refl
