-- ===== src/Tests/Records.antt =====
-- record.rs at fixed inputs.
use tuskd.Prelude.{◌≡◌, refl, none, some, [], ◌∷◌, all, arith}
use tuskd.Text.{codes, Text_eq, is_ascii_alphanumeric}
use tuskd.Text.Number.{pos, show_i64, parse_i64}
use tuskd.Errors.{ok}
use tuskd.Floats.{Prints, is_number_char}
use tuskd.Scope.{project, valid_id, is_id_char}
use tuskd.Record.Kind.{RecordType}
use tuskd.Record.Fields.{Record}
use tuskd.Record.Markdown.{to_markdown, from_markdown}
use tuskd.Record.Roundtrip.{IsStorable, from-to_markdown}
use tuskd.Tests.Values.{tenths, ticks}

abbrev pub sample : Record tenths ticks
sample = record {
  id = codes "01A";
  kind = RecordType.procedural;
  scope = project (codes "app");
  author = codes "claude";
  created_at = 1;
  valid_at = 1;
  invalid_at = some 4;
  supersedes = none;
  entities = codes "a, b" ∷ [];
  tags = [];
  trust = 5;
  uses = pos 7;
  successes = 5;
  last_used = some 3;
  version = some (pos 2);
  trigger = some (codes "when: now");
  body = codes "Body\r\n";
}

half-Prints_again : Prints tenths 5
unfolding all is_number_char is_ascii_alphanumeric show_i64 parse_i64
half-Prints_again = record {
  display_chars = refl;
  display_nonempty = λ e. cc;
  display_parse = refl;
  display_1_chars = refl;
  display_1_nonempty = λ e. cc;
  display_1_float = refl;
  display_1_parse = λ z e. cc;
}

pub sample-IsStorable : IsStorable sample
unfolding all valid_id is_id_char is_ascii_alphanumeric
sample-IsStorable = record {
  id_plain = refl;
  scope_valid = refl;
  author_plain = refl;
  created_whole = record { read_back = refl; no_return = refl };
  valid_whole = record { read_back = refl; no_return = refl };
  invalid_whole = record { read_back = refl; no_return = refl };
  supersedes_plain = tt;
  entities_plain = (refl, tt);
  tags_plain = tt;
  trust_prints = half-Prints_again;
  uses_i64 = omega arith;
  successes_prints = half-Prints_again;
  last_used_whole = record { read_back = refl; no_return = refl };
  version_i64 = omega arith;
  trigger_plain = refl;
}

from-to_markdown_example : from_markdown tenths ticks (to_markdown tenths ticks sample) ≡ ok sample
from-to_markdown_example = from-to_markdown sample sample-IsStorable
