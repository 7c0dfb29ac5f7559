-- ===== src/Tests/Clouds.antt =====
-- A stand-in for the cloud: blobs and a log in memory, and ciphers that only mark what they sealed.
use tuskd.Prelude.{
  ℕ, zero, suc, Bool, true, false, Option, none, some, List, [], ◌∷◌, ◌++◌, ◌≡◌, refl, subst, ◌==◌,
  ℕ_eq, ltb, if◌then◌else◌, length, take, drop, Bool-cases, inl, inr,
}
use tuskd.Text.{Text, Text_eq, codes}
use tuskd.Text.Number.{ℤ, pos, negsuc}
use tuskd.BTreeMap.{BTreeMap, lookup, insert, remove, into_keys}
use tuskd.BTreeMap.Order.{IsSorted, insert-IsSorted}
use tuskd.SyncErrors.{SyncResult, ok, err, not_found}
use tuskd.Cloud.Crypto.{Ciphers, ObjectEntry, KeyTable}
use tuskd.Cloud.Service.{Cloud, CloudOp, OpPayload}
use tuskd.Cloud.Crypto.Opened.{TableLaws}
use tuskd.Tests.Values.{toy_crypto}
use tuskd.Tests.Json.{enc, dec, and_some}

abbrev pub write_table : KeyTable → Text
write_table [] = 1 ∷ []
write_table ((rel, e) ∷ table) = 2 ∷ enc rel (enc e.blob (enc e.dek (write_table table)))

abbrev pub add_entry : Text → ObjectEntry → Option KeyTable → Option KeyTable
add_entry rel e none = none
add_entry rel e (some table) = some (insert rel e table)

abbrev pub read_table : ℕ → Text → Option KeyTable
read_table zero t = none
read_table (suc n) [] = none
read_table (suc n) (c ∷ t) =
    let rest = and_some (dec t) (λ rel. and_some (dec rel.1) λ blob.
      and_some (dec blob.1)
        λ dek. add_entry rel.0 (record { blob = blob.0; dek = dek.0 }) (read_table n dek.1)) in
    if c == 1 then some [] else rest

abbrev write_names : List Text → Text → Text
write_names [] rest = 1 ∷ rest
write_names (name ∷ names) rest = 2 ∷ enc name (write_names names rest)

abbrev read_names : ℕ → Text → Option (List Text × Text)
read_names zero t = none
read_names (suc n) [] = none
read_names (suc n) (c ∷ t) =
    let rest =
      and_some (dec t)
        (λ name. and_some (read_names n name.1) λ names. some (name.0 ∷ names.0, names.1)) in
    if c == 1 then some ([], t) else rest

abbrev write_payload : OpPayload → Text
write_payload p = p.v ∷ (if p.manifest then 1 else 0) ∷ write_names p.put (write_names p.del [])

abbrev read_payload : Text → Option OpPayload
read_payload (v ∷ m ∷ t) = and_some (read_names (length t) t) λ put.
    and_some (read_names (length t) put.1)
      λ del. some (record { v = v; put = put.0; del = del.0; manifest = m == 1 })
read_payload _ = none

-- The service: its blobs, and its log with the newest operation last.
pub record Shelf : Type 0 where
  pub blobs : BTreeMap Text
  pub log : List CloudOp

abbrev pub replicate : ℕ → List ℕ
replicate zero = []
replicate (suc n) = 7 ∷ replicate n

abbrev pub mark : List ℕ
mark = replicate 16

abbrev pub above : ℤ → ℤ → Bool
above (pos m) (pos n) = ltb m n
above (negsuc m) (pos n) = true
above _ (negsuc n) = false

abbrev pub newer : ℤ → List CloudOp → List CloudOp
newer seq [] = []
newer seq (op ∷ log) = if above seq op.seq then op ∷ newer seq log else newer seq log

abbrev pub cut : Option ℕ → List CloudOp → List CloudOp
cut none ops = ops
cut (some n) ops = take n ops

abbrev pub found : Text → Option Text → SyncResult Text
found name none = err (not_found name)
found name (some bytes) = ok bytes

abbrev pub toy_ciphers : Ciphers Shelf
toy_ciphers = record {
  hex = toy_crypto;
  encrypt = λ key nonce aad message. some (mark ++ message);
  decrypt = λ key nonce aad sealed. some (drop 16 sealed);
  hkdf = λ ikm info. some ikm;
  hmac = λ key message. some (key ++ message);
  as_bytes = λ t. t;
  fill_bytes = λ n w. (replicate n, w);
  to_vec = λ table. some (write_table table);
  from_slice = λ t. read_table (length t) t;
}

abbrev pub toy_cloud : Cloud
toy_cloud = record {
  World = Shelf;
  ciphers = toy_ciphers;
  storage = record {
    put = λ name bytes w. (ok tt, record w { blobs = insert name bytes w.blobs });
    get = λ name w. (found name (lookup name w.blobs), w);
    delete = λ name w. (ok tt, record w { blobs = remove name w.blobs });
    list = λ w. (ok (into_keys w.blobs), w);
  };
  ops_since = λ seq limit w. (ok (cut limit (newer seq w.log)), w);
  append_op = λ payload w. (
    ok (pos (suc (length w.log))),
    record w {
      log =
          w.log
          ++ record {
            seq = pos (suc (length w.log));
            device_id = codes "desk";
            payload = payload;
            signature = replicate 64;
          }
            ∷ [];
    },
  );
  list_devices =
      λ w. (ok (record { device_id = codes "desk"; ed25519_pubkey = replicate 32 } ∷ []), w);
  VerifyingKey = List ℕ;
  decode_base64 = λ t. some t;
  key_from_bytes = λ bytes. some bytes;
  verify = λ key message signature. true;
  payload_to_vec = λ p. some (write_payload p);
  payload_from_slice = read_payload;
}

add_entry-IsSorted :
    (rel : Text) (e : ObjectEntry) (o : Option KeyTable)
    → ((t : KeyTable) → o ≡ some t → IsSorted t)
    → (table : KeyTable) → add_entry rel e o ≡ some table
    → IsSorted table
add_entry-IsSorted rel e none h table k = cc
add_entry-IsSorted rel e (some t) h table k =
    let p : insert rel e t ≡ table = cc in subst IsSorted p (insert-IsSorted rel e t (h t refl))

and_some-eq :
    {A B : Type 0} (o : Option A) (f : A → Option B) {b : B}
    → and_some o f ≡ some b
    → (a : A) × (o ≡ some a) × (f a ≡ some b)
and_some-eq none f h = cc
and_some-eq (some a) f h = (a, refl, h)

pub read_table-IsSorted :
    (n : ℕ) (t : Text) (table : KeyTable) → read_table n t ≡ some table → IsSorted table
read_table-IsSorted zero t table h = cc
read_table-IsSorted (suc n) [] table h = cc
read_table-IsSorted (suc n) (c ∷ t) table h = elim (Bool-cases (c == 1)) [
  | inl e ↦ empty (rw e at h)
  | inr e ↦
      let (rel, r, h1) = and_some-eq (dec t) entry_of (rw e at h) in
      let (blob, b, h2) = and_some-eq (dec rel.1) (after_rel rel) h1 in
      let (dek, d, h3) = and_some-eq (dec blob.1) (after_blob rel blob) h2 in
      add_entry-IsSorted rel.0 (record { blob = blob.0; dek = dek.0 }) (read_table n dek.1)
        (λ t k. read_table-IsSorted n dek.1 t k) table h3
]
  where
    empty : some [] ≡ some table → IsSorted table
    empty h = let e : [] ≡ table = cc in subst IsSorted e tt

    after_blob : Text × Text → Text × Text → Text × Text → Option KeyTable
    after_blob rel blob dek =
        add_entry rel.0 (record { blob = blob.0; dek = dek.0 }) (read_table n dek.1)

    after_rel : Text × Text → Text × Text → Option KeyTable
    after_rel rel blob =
        and_some (dec blob.1)
          (λ dek. add_entry rel.0 (record { blob = blob.0; dek = dek.0 }) (read_table n dek.1))

    entry_of : Text × Text → Option KeyTable
    entry_of rel = and_some (dec rel.1) (λ blob.
        and_some (dec blob.1)
          (λ dek. add_entry rel.0 (record { blob = blob.0; dek = dek.0 }) (read_table n dek.1)))

pub toy-TableLaws : TableLaws toy_ciphers
toy-TableLaws = record { sorted = λ t table h. read_table-IsSorted (length t) t table h }
