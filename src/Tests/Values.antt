-- ===== src/Tests/Values.antt =====
-- Stand-ins for what lies outside of the model: numbers in tenths, a toy hash and its encoding.
use tuskd.Prelude.{
  ℕ, ◌+◌, ◌*◌, ◌/◌, ◌%◌, refl, Option, none, some, [], ◌∷◌, ◌++◌, if◌then◌else◌, ◌==◌, ℕ_eq,
  list_eq_iff, ◌-◌, leb, ltb, suc, List, Every, Every-of_In, In,
}
use tuskd.Text.{Text, Text_eq, codes}
use tuskd.Text.Number.{ℤ, pos, negsuc, show_i64}
use tuskd.Floats.{Floats}
use tuskd.Record.Fields.{Record}
use tuskd.Vault.Paths.{FilePath}
use tuskd.Index.{Rows}
use tuskd.Index.Search.{Engine, Ranked}
use tuskd.Index.Search.Found.{EngineLaws}
use tuskd.Keyring.{Crypto}
use tuskd.Keyring.Tokens.{CryptoLaws}
use tuskd.Time.{Chrono}

-- The hash of a text is the text, and bytes are their own digits.
abbrev pub toy_crypto : Crypto
toy_crypto = record {
  sha256 = λ t. t;
  hex_encode = λ b. b;
  hex_decode = λ t. some t;
  ct_eq = λ a b. a == b;
}

pub toy_laws : CryptoLaws toy_crypto
toy_laws = record { hex_round = λ b. refl; ct_eq_iff = λ a b h. list_eq_iff a b }

abbrev tenths_display_1 : ℕ → Text
tenths_display_1 n = show_i64 (pos (n / 10)) ++ b'.' ∷ (b'0' + n % 10) ∷ []

abbrev tenths_display : ℕ → Text
tenths_display n = if n % 10 == 0 then show_i64 (pos (n / 10)) else tenths_display_1 n

-- Reads the texts of 0.0, 0.5, 1.0 and 0.
abbrev tenths_parse : Text → Option ℕ
tenths_parse t =
    if t == codes "0.5"
    then some 5
    else if t == codes "0.0"
    then some 0
    else if t == codes "1.0"
    then some 10
    else if t == codes "0"
    then some 0
    else none

abbrev tenths_of : ℤ → ℕ
tenths_of (pos n) = n * 10
tenths_of (negsuc n) = 0

abbrev pub tenths : Floats
tenths = record {
  F64 = ℕ;
  parse_f64 = tenths_parse;
  display = tenths_display;
  display_1 = tenths_display_1;
  of_i64 = tenths_of;
  half = 5;
  zero_f64 = 0;
  add_f64 = λ a b. a + b;
  div_f64 = λ a b. a * 10 / b;
}

-- Times 0 to 9, written as their digit.
abbrev digit_time : Text → Option ℕ
digit_time (c ∷ []) = some (c - b'0')
digit_time _ = none

abbrev pub ticks : Chrono
ticks = record {
  DateTime = ℕ;
  le = leb;
  lt = ltb;
  timestamp_millis = λ t. pos t;
  timestamp_millis_opt = λ z. elim z [ pos n ↦ some n | negsuc n ↦ none ];
  to_rfc3339 = λ t. (b'0' + t) ∷ [];
  parse_from_rfc3339 = digit_time;
}

-- A full text that every row matches, the first row best.
abbrev place_of : ℕ → Rows tenths ticks → List (Ranked tenths ticks)
place_of n [] = []
place_of n (row ∷ rows) = (n, row) ∷ place_of (suc n) rows

abbrev pub toy_engine : Engine tenths ticks
toy_engine = record {
  matches = λ text rows. place_of 0 rows;
  neg_f64 = λ a. 1000 - a;
  mul_f64 = λ a b. a * b / 10;
  ln_f64 = λ a. a;
  gt_f64 = λ a b. ltb b a;
  one_f64 = 10;
  uses_weight = 3;
  trust_weight = 2;
}

place_of-rows :
    (n : ℕ) (rows : Rows tenths ticks) (P : FilePath × Record tenths ticks → Type 0)
    → Every P rows
    → Every (λ m. P m.1) (place_of n rows)
place_of-rows n [] P h = tt
place_of-rows n (row ∷ rows) P h = (h.0, place_of-rows (suc n) rows P h.1)

pub toy_engine-Laws : EngineLaws toy_engine
toy_engine-Laws = record {
  of_rows = λ text rows.
      place_of-rows 0 rows (λ row. In row rows)
        (Every-of_In (λ row. In row rows) rows (λ row i. i));
}
