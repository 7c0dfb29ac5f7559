-- ===== src/Record/Kind.antt =====
-- record.rs: the types of records.
use tuskd.Prelude.{Bool, true, false, ◌≡◌, refl, ◌↔◌, ◌==◌, if◌then◌else◌, PartialEq, arith}
use tuskd.Text.{Text, codes, Text_eq}
use tuskd.Errors.{Result, ok, err, frontmatter, unknown_record_type}

pub data RecordType : Type 0 where
  episodic semantic procedural skill profile : RecordType

unfoldable pub parse_type : Text → Result RecordType
parse_type s =
    if s == codes "episodic"
    then ok episodic
    else if s == codes "semantic"
    then ok semantic
    else if s == codes "procedural"
    then ok procedural
    else if s == codes "skill"
    then ok skill
    else if s == codes "profile"
    then ok profile
    else err (frontmatter (unknown_record_type s))

unfoldable pub type_to_string : RecordType → Text
type_to_string episodic = codes "episodic"
type_to_string semantic = codes "semantic"
type_to_string procedural = codes "procedural"
type_to_string skill = codes "skill"
type_to_string profile = codes "profile"

-- Every type is parsed back from its text.
pub parse_type-type_to_string : (k : RecordType) → parse_type (type_to_string k) ≡ ok k
unfolding parse_type type_to_string
parse_type-type_to_string episodic = refl
parse_type-type_to_string semantic = refl
parse_type-type_to_string procedural = refl
parse_type-type_to_string skill = refl
parse_type-type_to_string profile = refl

unfoldable pub type_eq : RecordType → RecordType → Bool
type_eq episodic episodic = true
type_eq semantic semantic = true
type_eq procedural procedural = true
type_eq skill skill = true
type_eq profile profile = true
type_eq _ _ = false

pub type_eq_iff : (a b : RecordType) → (type_eq a b ≡ true) ↔ (a ≡ b)
unfolding type_eq
type_eq_iff a b = ground arith

instance abbrev pub RecordType_eq : PartialEq RecordType
RecordType_eq = record { eq = type_eq; eq_iff = type_eq_iff }
