-- ===== src/Tools/Args.antt =====
-- tools.rs: reading the arguments of a call.
use tuskd.Prelude.{Bool, Option, none, some, List, [], ◌∷◌, ◌==◌, if◌then◌else◌}
use tuskd.Text.{Text, codes, Text_eq}
use tuskd.Text.Number.{ℤ}
use tuskd.Errors.{Result, ok, err, other, missing_arg, not_strings, ok_or, ◌>>=◌}
use tuskd.Floats.{Floats}
use tuskd.Record.Kind.{RecordType, parse_type}

-- `serde_json::Value`; a number is an integer of i64 or a float.
mutual
  pub data Value (fl : Floats) : Type 0 where
    null : Value fl
    boolean : Bool → Value fl
    integer : ℤ → Value fl
    float : fl.F64 → Value fl
    string : Text → Value fl
    array : Items fl → Value fl
    object : Members fl → Value fl

  pub data Items (fl : Floats) : Type 0 where
    no_items : Items fl
    item : Value fl → Items fl → Items fl

  pub data Members (fl : Floats) : Type 0 where
    no_members : Members fl
    property : Text → Value fl → Members fl → Members fl

module _ {fl : Floats} where
  member : Text → Members fl → Option (Value fl)
  member key no_members = none
  member key (property k v fields) = if k == key then some v else member key fields

  -- `args.get(key)`
  unfoldable pub get_arg : Value fl → Text → Option (Value fl)
  unfolding member
  get_arg (object fields) key = member key fields
  get_arg _ key = none

  abbrev pub as_str : Option (Value fl) → Option Text
  as_str (some (string s)) = some s
  as_str _ = none

  abbrev pub as_i64 : Option (Value fl) → Option ℤ
  as_i64 (some (integer i)) = some i
  as_i64 _ = none

  abbrev pub as_f64 : Option (Value fl) → Option fl.F64
  as_f64 (some (integer i)) = some (fl.of_i64 i)
  as_f64 (some (float f)) = some f
  as_f64 _ = none

  unfoldable pub arg_str : Value fl → Text → Option Text
  unfolding get_arg
  arg_str args key = as_str (get_arg args key)

  unfoldable pub req_str : Value fl → Text → Result Text
  unfolding arg_str
  req_str args key = ok_or (arg_str args key) (other (missing_arg key))

  strings : Text → Items fl → Result (List Text)
  strings key no_items = ok []
  strings key (item (string s) items) = do rest ← strings key items; ok (s ∷ rest)
  strings key (item _ items) = err (other (not_strings key))

  unfoldable pub list_of : Text → Option (Value fl) → Result (Option (List Text))
  unfolding strings
  list_of key none = ok none
  list_of key (some null) = ok none
  list_of key (some (array items)) = do l ← strings key items; ok (some l)
  list_of key (some _) = err (other (not_strings key))

  unfoldable pub arg_str_list : Value fl → Text → Result (Option (List Text))
  unfolding list_of get_arg
  arg_str_list args key = list_of key (get_arg args key)

-- The names of candidate types, and the record types.
unfoldable pub parse_candidate_type : Text → Result RecordType
unfolding parse_type
parse_candidate_type raw =
    if raw == codes "fact"
    then ok RecordType.semantic
    else if raw == codes "correction"
    then ok RecordType.semantic
    else if raw == codes "procedure"
    then ok RecordType.procedural
    else parse_type raw
