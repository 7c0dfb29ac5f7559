-- ===== src/Record/Rows.antt =====
-- record.rs: fields and optional fields in a row.
use tuskd.Prelude.{
  Bool, true, false, Option, none, some, List, [], ◌∷◌, ◌≡◌, refl, ap, ap₂, sym, ◌∙◌, ◌==◌,
  if◌then◌else◌, ℕ_eq, any, arith, ==-refl, Bool-cases, inl, inr,
}
use tuskd.Text.{Text, Text_eq, text_eq_iff}
use tuskd.Floats.{Floats}
use tuskd.Frontmatter.Parser.{FmValue, Fields, has_key, valid_key}
use tuskd.Frontmatter.Roundtrip.{norm_fields, AreFields}
use tuskd.Frontmatter.Roundtrip.Values.{IsWritable, norm_value}
use tuskd.Record.Fields.{push_opt, field}
use mathlib.Core.Bool.{false≢true}

no_fields : (fl : Floats) (j : Text) → has_key fl j [] ≡ false
unfolding any
no_fields fl j = refl

module _ {fl : Floats} where
  -- Fields that a document can hold and that are read back unchanged.
  abbrev pub Kept : Fields fl → Type 0
  Kept [] = Unit {0}
  Kept ((key, v) ∷ fields) =
      (valid_key key ≡ true)
      × (has_key fl key fields ≡ false)
      × IsWritable v
      × (norm_value v ≡ v)
      × Kept fields

  pub Kept-AreFields : (fields : Fields fl) → Kept fields → AreFields fields
  Kept-AreFields [] k = tt
  Kept-AreFields ((key, v) ∷ fields) k = (k.0, k.1, k.2, Kept-AreFields fields k.4)

  pub norm_fields_id : (fields : Fields fl) → Kept fields → norm_fields fields ≡ fields
  unfolding norm_fields
  norm_fields_id [] k = refl
  norm_fields_id ((key, v) ∷ fields) k =
      ap₂ (λ (w : FmValue fl) (rest : Fields fl). (key, w) ∷ rest) k.3 (norm_fields_id fields k.4)

  abbrev pub KeptValue : Option (FmValue fl) → Type 0
  KeptValue none = Unit {0}
  KeptValue (some v) = IsWritable v × (norm_value v ≡ v)

  Kept-push_opt :
      (key : Text) (o : Option (FmValue fl)) (rest : Fields fl)
      → valid_key key ≡ true
      → has_key fl key rest ≡ false
      → KeptValue o
      → Kept rest
      → Kept (push_opt fl key o rest)
  unfolding push_opt
  Kept-push_opt key none rest v h o k = k
  Kept-push_opt key (some w) rest v h o k = (v, h, o.0, o.1, k)

  field-push_opt :
      (j key : Text) (o : Option (FmValue fl)) (rest : Fields fl)
      → (key == j) ≡ false
      → field fl j (push_opt fl key o rest) ≡ field fl j rest
  unfolding push_opt field
  field-push_opt j key none rest h = refl
  field-push_opt j key (some w) rest h = rw h

  field-push_opt_self :
      (key : Text) (o : Option (FmValue fl)) (rest : Fields fl)
      → field fl key rest ≡ none
      → field fl key (push_opt fl key o rest) ≡ o
  unfolding push_opt field
  field-push_opt_self key none rest h = h
  field-push_opt_self key (some w) rest h = rw (==-refl key)

  has_key-push_opt :
      (j key : Text) (o : Option (FmValue fl)) (rest : Fields fl)
      → (key == j) ≡ false
      → has_key fl j rest ≡ false
      → has_key fl j (push_opt fl key o rest) ≡ false
  unfolding push_opt any
  has_key-push_opt j key none rest h k = k
  has_key-push_opt j key (some w) rest h k = rw h k

-- The name differs from all of these.
abbrev pub differs : Text → List Text → Bool
differs j [] = true
differs j (n ∷ names) = if n == j then false else differs j names

differs-cons :
    (j n : Text) (names : List Text)
    → differs j (n ∷ names) ≡ true
    → ((n == j) ≡ false) × (differs j names ≡ true)
differs-cons j n names h = elim (Bool-cases (n == j)) [
  | inl e ↦ absurd (false≢true (rw e at h))
  | inr e ↦ (e, rw e at h)
]

-- Optional fields in a row, and the fields behind them.
module _ {fl : Floats} where
  abbrev pub push_all : List (Text × Option (FmValue fl)) → Fields fl → Fields fl
  push_all [] rest = rest
  push_all ((key, o) ∷ opts) rest = push_opt fl key o (push_all opts rest)

  abbrev pub names : List (Text × Option (FmValue fl)) → List Text
  names [] = []
  names ((key, o) ∷ opts) = key ∷ names opts

  absent :
      (j : Text) (opts : List (Text × Option (FmValue fl))) (rest : Fields fl)
      → differs j (names opts) ≡ true
      → has_key fl j rest ≡ false
      → has_key fl j (push_all opts rest) ≡ false
  absent j [] rest h k = k
  absent j ((key, o) ∷ opts) rest h k =
      let (n, m) = differs-cons j key (names opts) h in
      has_key-push_opt j key o (push_all opts rest) n (absent j opts rest m k)

  absent-field :
      (j : Text) (fields : Fields fl) → has_key fl j fields ≡ false → field fl j fields ≡ none
  unfolding any field
  absent-field j [] h = refl
  absent-field j ((key, v) ∷ fields) h = ground (arith, absent-field j fields)

  -- Rows of distinct valid names with kept values.
  abbrev pub KeptOpts : List (Text × Option (FmValue fl)) → Type 0
  KeptOpts [] = Unit {0}
  KeptOpts ((key, o) ∷ opts) =
      (valid_key key ≡ true) × (differs key (names opts) ≡ true) × KeptValue o × KeptOpts opts

  pub Kept-push_all :
      (opts : List (Text × Option (FmValue fl))) → KeptOpts opts → Kept (push_all opts [])
  Kept-push_all [] k = tt
  Kept-push_all ((key, o) ∷ opts) k =
      Kept-push_opt key o (push_all opts []) k.0 (absent key opts [] k.1 (no_fields fl key)) k.2
        (Kept-push_all opts k.3)

  abbrev pub row : Text → List (Text × Option (FmValue fl)) → Option (FmValue fl)
  row j [] = none
  row j ((key, o) ∷ opts) = if key == j then o else row j opts

  pub field-rows :
      (j : Text) (opts : List (Text × Option (FmValue fl)))
      → KeptOpts opts
      → field fl j (push_all opts []) ≡ row j opts
  unfolding field
  field-rows j [] k = refl
  field-rows j ((key, o) ∷ opts) k = elim (Bool-cases (key == j)) [
    | inl e ↦
        let same = (text_eq_iff key j).0 e in
        ap (λ i. field fl i (push_opt fl key o (push_all opts []))) (sym same)
        ∙ field-push_opt_self key o (push_all opts [])
            (absent-field key (push_all opts []) (absent key opts [] k.1 (no_fields fl key)))
        ∙ rw e
    | inr e ↦ field-push_opt j key o (push_all opts []) e ∙ field-rows j opts k.3 ∙ rw e
  ]
