-- ===== src/Tests/Json.antt =====
-- A stand-in for serde_json on the entries of the journal, with the laws that the model asks for.
use tuskd.Prelude.{
  ℕ, ◌+◌, ◌-◌, Bool, true, not, Option, none, some, [], ◌∷◌, ◌++◌, map, ◌≡◌, refl, ◌==◌,
  if◌then◌else◌, ℕ_eq, all, all-append, arith, ap₂,
}
use tuskd.Text.{Text, Text_eq, split_once}
use tuskd.Text.Lines.{split_once-append}
use tuskd.Frontmatter.Quoting.{newline}
use tuskd.Journal.{OpKind, JournalEntry, Services}
use tuskd.Journal.Chain.{JsonLaws}
use tuskd.Journal.Tamper.{SeedLaws}
use tuskd.Tests.Values.{toy_crypto, ticks}

abbrev pub enc : Text → Text → Text
enc s rest = map (λ c. c + 11) s ++ 0 ∷ rest

abbrev pub and_some : {A B : Type 0} → Option A → (A → Option B) → Option B
and_some none f = none
and_some (some a) f = f a

abbrev pub dec : Text → Option (Text × Text)
dec t = and_some (split_once 0 t) λ r. some (map (λ c. c - 11) r.0, r.1)

high : (s : Text) → all (λ c. not (c == 0)) (map (λ c. c + 11) s) ≡ true
unfolding all
high [] = refl
high (c ∷ s) = ground (arith, high s)

plus_minus : (c : ℕ) → c + 11 - 11 ≡ c
plus_minus c = omega arith

back : (s : Text) → map (λ c. c - 11) (map (λ c. c + 11) s) ≡ s
back [] = refl
back (c ∷ s) = ap₂ ◌∷◌ (plus_minus c) (back s)

pub dec-enc : (s rest : Text) → dec (enc s rest) ≡ some (s, rest)
dec-enc s rest = rw (split_once-append 0 (map (λ c. c + 11) s) rest (high s), back s) refl

abbrev kind_code : OpKind → ℕ
kind_code OpKind.put = 1
kind_code OpKind.patch = 2
kind_code OpKind.tombstone = 3

abbrev to_kind : ℕ → OpKind
to_kind n = if n == 1 then OpKind.put else if n == 2 then OpKind.patch else OpKind.tombstone

abbrev enc_hash : Option Text → Text → Text
enc_hash none rest = 1 ∷ rest
enc_hash (some h) rest = 2 ∷ enc h rest

abbrev dec_hash : Text → Option (Option Text × Text)
dec_hash [] = none
dec_hash (c ∷ t) = if c == 1 then some (none, t) else and_some (dec t) λ r. some (some r.0, r.1)

dec-enc_hash : (o : Option Text) (rest : Text) → dec_hash (enc_hash o rest) ≡ some (o, rest)
dec-enc_hash none rest = refl
dec-enc_hash (some h) rest = rw (dec-enc h rest) refl

abbrev write_entry : JournalEntry → Text
write_entry e =
    b'{'
    ∷ kind_code e.kind
    ∷ enc e.op_id (enc e.path (enc_hash e.content_hash (enc e.ts (enc e.prev []))))

-- No characters may trail.
abbrev at_end : Text → JournalEntry → Option JournalEntry
at_end [] e = some e
at_end (c ∷ t) e = none

abbrev read_fields : OpKind → Text → Option JournalEntry
read_fields k t = and_some (dec t) λ op_id. and_some (dec op_id.1) λ path.
    and_some (dec_hash path.1) λ hash. and_some (dec hash.1) λ ts. and_some (dec ts.1) λ prev.
      at_end prev.1 (record {
        op_id = op_id.0;
        kind = k;
        path = path.0;
        content_hash = hash.0;
        ts = ts.0;
        prev = prev.0;
      })

abbrev read_entry : Text → Option JournalEntry
read_entry (c ∷ k ∷ t) = if c == b'{' then read_fields (to_kind k) t else none
read_entry _ = none

to_kind-code : (k : OpKind) → to_kind (kind_code k) ≡ k
to_kind-code OpKind.put = refl
to_kind-code OpKind.patch = refl
to_kind-code OpKind.tombstone = refl

read-write : (e : JournalEntry) → read_entry (write_entry e) ≡ some e
read-write e =
    rw
      (
        dec-enc e.op_id (enc e.path (enc_hash e.content_hash (enc e.ts (enc e.prev [])))),
        dec-enc e.path (enc_hash e.content_hash (enc e.ts (enc e.prev []))),
        dec-enc_hash e.content_hash (enc e.ts (enc e.prev [])),
        dec-enc e.ts (enc e.prev []),
        dec-enc e.prev [],
        to_kind-code e.kind,
      )
      refl

abbrev flat : Text → Bool
flat = all (λ c. not (c == newline))

flat_shift : (s : Text) → flat (map (λ c. c + 11) s) ≡ true
unfolding all
flat_shift [] = refl
flat_shift (c ∷ s) = ground (arith, flat_shift s)

flat-enc : (s rest : Text) → flat rest ≡ true → flat (enc s rest) ≡ true
unfolding all
flat-enc s rest h =
    rw (all-append (λ c. not (c == newline)) (map (λ c. c + 11) s) (0 ∷ rest), flat_shift s) h

flat-enc_hash : (o : Option Text) (rest : Text) → flat rest ≡ true → flat (enc_hash o rest) ≡ true
unfolding all
flat-enc_hash none rest h = h
flat-enc_hash (some s) rest h = flat-enc s rest h

flat-kind : (k : OpKind) (rest : Text) → flat rest ≡ true → flat (kind_code k ∷ rest) ≡ true
unfolding all
flat-kind OpKind.put rest h = h
flat-kind OpKind.patch rest h = h
flat-kind OpKind.tombstone rest h = h

flat-write : (e : JournalEntry) → flat (write_entry e) ≡ true
unfolding all
flat-write e =
    let prev = enc e.prev [] in
    let ts = enc e.ts prev in
    let hash = enc_hash e.content_hash ts in
    let path = enc e.path hash in
    flat-kind e.kind (enc e.op_id path) (
      flat-enc e.op_id path (
        flat-enc e.path hash
          (flat-enc_hash e.content_hash ts (flat-enc e.ts prev (flat-enc e.prev [] refl)))))

abbrev pub toy_services : Services
toy_services = record {
  crypto = toy_crypto;
  chrono = ticks;
  to_json = write_entry;
  from_slice = read_entry;
  now = λ n. n;
  ulid = λ n t. n ∷ [];
}

pub toy-JsonLaws : JsonLaws toy_services
toy-JsonLaws = record { read_back = read-write; empty_none = refl; single = flat-write }

-- A hash that takes all texts to one value.
abbrev pub flat_services : Services
flat_services = record toy_services { crypto = record toy_crypto { sha256 = λ t. [] } }

pub flat-SeedLaws : SeedLaws flat_services
flat-SeedLaws = record { seed_no_line = λ s. refl }
