-- ===== src/Journal/Entries.antt =====
-- sync.rs: `entries` and `live_state`.
use tuskd.Prelude.{Option, none, some, List, [], ◌∷◌, ◌++◌}
use tuskd.Text.{Text, Text_eq}
use tuskd.Errors.{Result, ok, json, ok_or, ◌>>=◌}
use tuskd.BTreeMap.{BTreeMap, insert, remove}
use package.tuskd.Journal.{OpKind, JournalEntry, Services, Journal, bytes_of}
use package.tuskd.Journal.Lines.{split_tail}

-- `split(|b| *b == b'\n').filter(|l| !l.is_empty())`, from the pieces of `split`.
unfoldable pub nonempty : List Text → List Text
nonempty [] = []
nonempty ([] ∷ lines) = nonempty lines
nonempty ((c ∷ line) ∷ lines) = (c ∷ line) ∷ nonempty lines

unfoldable pub parse_all : Services → List Text → Result (List JournalEntry)
parse_all sv [] = ok []
parse_all sv (line ∷ lines) = do
  entry ← ok_or (sv.from_slice line) json
  entries ← parse_all sv lines
  ok (entry ∷ entries)

unfoldable pub entries : Services → Journal → Result (List JournalEntry)
unfolding nonempty parse_all
entries sv j =
    let (lines, torn) = split_tail (bytes_of j.file) in parse_all sv (nonempty (lines ++ torn ∷ []))

abbrev pub insert_some : Text → Option Text → BTreeMap Text → BTreeMap Text
insert_some path none live = live
insert_some path (some h) live = insert path h live

-- One round of the fold.
unfoldable pub apply_entry : JournalEntry → BTreeMap Text → BTreeMap Text
apply_entry e live = elim e.kind [
  | OpKind.tombstone ↦ remove e.path live
  | _ ↦ insert_some e.path e.content_hash live
]

unfoldable pub live_of : List JournalEntry → BTreeMap Text → BTreeMap Text
unfolding apply_entry
live_of [] live = live
live_of (e ∷ entries) live = live_of entries (apply_entry e live)

unfoldable pub live_state : Services → Journal → Result (BTreeMap Text)
unfolding entries live_of
live_state sv j = do all ← entries sv j; ok (live_of all [])
