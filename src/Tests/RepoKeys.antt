-- ===== src/Tests/RepoKeys.antt =====
-- sync_cloud.rs at fixed inputs: ciphers that know their key, and a service with two devices.
use mathlib.Core.Bool.{false≢true}
use tuskd.Prelude.{
  ℕ, zero, suc, ◌+◌, ◌≤◌, ◌<◌, true, false, Option, none, some, List, [], ◌∷◌, ◌++◌, ◌≡◌, refl, ap,
  sym, ◌∙◌, subst, length, length-append, drop, map, ◌==◌, ==-refl, ℕ_eq, if◌then◌else◌, arith,
  Bool-cases, inl, inr, ◌≢◌, In,
}
use tuskd.Text.{Text, Text_eq, text_eq_iff, codes, is_whitespace, split_once}
use tuskd.BTreeMap.{insert, lookup, text_lt, lookup-insert}
use tuskd.BTreeMap.Order.{IsSorted, Above, text_lt_irrefl}
use tuskd.SyncErrors
use tuskd.Cloud.Crypto.{Ciphers, ObjectEntry, KeyTable}
use tuskd.Cloud.Crypto.Opened.{CipherLaws, SerdeLaws}
use tuskd.Cloud.Service.{Cloud}
use tuskd.SyncErrors.{SyncResult, SyncError}
use tuskd.Errors.{ok, err, other, sync}
use tuskd.Text.Number.{ℤ, pos}
use tuskd.Cloud.Crypto.{seal}
use tuskd.Cloud.SecretKey.{to_otsk}
use tuskd.Cloud.Wrap.{DeviceWrap}
use tuskd.Worker.State.{CloudConfig, manifest_name}
use tuskd.RepoKey.{Plane, Machine, WireDevice, is_i32, current_rmk, revoke, approve, listed_pem}
use tuskd.RepoKey.Revoke.{CrateLaws, revoke-current_rmk}
use tuskd.RepoKey.Steady.{PlaneLaws}
use tuskd.RepoKey.Approve.{HandedOver, Owns, approve-Unwraps}
use tuskd.Tests.Json.{enc, dec, dec-enc, and_some}
use tuskd.Tests.Keys.{toy, toy-HexLaws, read-write}
use tuskd.Tests.Wraps.{length-replicate, first, toy_curve, toy-CurveLaws, shelf}
use tuskd.Tests.Clouds.{
  Shelf, replicate, mark, toy_ciphers, toy_cloud, write_table, read_table, read_table-IsSorted,
}

abbrev if_key : Text → Option (Text × Text) → Option Text
if_key key none = none
if_key key (some (k, message)) = if k == key then some message else none

abbrev ciphers : Ciphers Shelf
ciphers = record toy_ciphers {
  hex = toy;
  encrypt = λ key nonce aad message. some (mark ++ enc key message);
  decrypt = λ key nonce aad sealed. if_key key (dec (drop 16 sealed));
}

abbrev service : Cloud
service = record toy_cloud { ciphers = ciphers }

length-map : (s : Text) → length (map (λ c. c + 11) s) ≡ length s
length-map [] = refl
length-map (c ∷ s) = ap suc (length-map s)

length-enc : (s rest : Text) → length (enc s rest) ≡ length s + suc (length rest)
length-enc s rest =
    length-append (map (λ c. c + 11) s) (0 ∷ rest) ∙ ap (λ n. n + suc (length rest)) (length-map s)

keyed-CipherLaws : CipherLaws ciphers
keyed-CipherLaws = record {
  opens = λ key nonce aad message sealed h.
      (let e : mark ++ enc key message ≡ sealed = cc in
        subst (λ s. if_key key (dec (drop 16 s)) ≡ some message) e
          (rw (dec-enc key message, ==-refl key) refl));
  tagged = λ key nonce aad message sealed h.
      (let e : mark ++ enc key message ≡ sealed = cc in
        let l : length (mark ++ enc key message) ≡ 16 + length (enc key message) =
          length-append mark (enc key message) in
        let k = length-enc key message in
        subst (λ s. length message + 16 ≤ length s) e (omega arith));
  filled = λ n w. length-replicate n;
  hex_round = read-write;
}

not_same : (j k : Text) → text_lt j k ≡ true → (j == k) ≡ false
not_same j k h = elim (Bool-cases (j == k)) [
  | inl e ↦
      let l : text_lt j j ≡ true =
        subst (λ k. text_lt j k ≡ true) (sym ((text_eq_iff j k).0 e)) h in
      cc (text_lt_irrefl j)
  | inr e ↦ e
]

insert_first :
    (rel : Text) (e : ObjectEntry) (table : KeyTable)
    → Above rel table
    → insert rel e table ≡ (rel, e) ∷ table
unfolding insert
insert_first rel e [] h = refl
insert_first rel e ((j, f) ∷ table) h = rw (not_same rel j h.0, h.0) refl

none_below : (n : ℕ) → ¬ (n < 0)
none_below n = omega arith

read-write_table :
    (n : ℕ) (table : KeyTable)
    → length table < n
    → IsSorted table
    → read_table n (write_table table) ≡ some table
read-write_table zero table l s = absurd (none_below (length table) l)
read-write_table (suc n) [] l s = refl
read-write_table (suc n) ((rel, e) ∷ table) l s =
    rw
      (
        dec-enc rel (enc e.blob (enc e.dek (write_table table))),
        dec-enc e.blob (enc e.dek (write_table table)),
        dec-enc e.dek (write_table table),
        read-write_table n table (omega arith) s.1,
      )
      (ap some (insert_first rel e table s.0))

short_table : (table : KeyTable) → length table < length (write_table table)
short_table [] = omega arith
short_table ((rel, e) ∷ table) =
    let a = length-enc rel (enc e.blob (enc e.dek (write_table table))) in
    let b = length-enc e.blob (enc e.dek (write_table table)) in
    let c = length-enc e.dek (write_table table) in let d = short_table table in omega arith

keyed-SerdeLaws : SerdeLaws ciphers
keyed-SerdeLaws = record {
  read_back = λ table bytes s h.
      (let e : write_table table ≡ bytes = cc in
        subst (λ t. read_table (length t) t ≡ some table) e
          (read-write_table (length (write_table table)) table (short_table table) s));
}

crates : CrateLaws service
crates = record {
  cipher = keyed-CipherLaws;
  table = record { sorted = λ t table h. read_table-IsSorted (length t) t table h };
  serde = keyed-SerdeLaws;
  hex = toy-HexLaws;
}

abbrev write_wrap : DeviceWrap → Text
write_wrap b = b.v ∷ enc b.ephemeral_pub b.sealed

abbrev wrap_of : ℕ → Text × Text → Option DeviceWrap
wrap_of v r = some (record { v = v; ephemeral_pub = r.0; sealed = r.1 })

abbrev read_wrap : Text → Option DeviceWrap
read_wrap [] = none
read_wrap (v ∷ t) = and_some (dec t) (wrap_of v)

read-write_wrap : (b : DeviceWrap) (t : Text) → some (write_wrap b) ≡ some t → read_wrap t ≡ some b
read-write_wrap b t h =
    let e : write_wrap b ≡ t = cc in
    subst (λ t. read_wrap t ≡ some b) e (rw (dec-enc b.ephemeral_pub b.sealed) refl)

-- A device that waits for approval, and one that has it.
abbrev phone : WireDevice
phone = record {
  device_id = codes "ph";
  name = codes "phone";
  status = codes "pending";
  ed25519_pubkey = 5 ∷ replicate 31;
  x25519_pubkey = [];
  fingerprint = codes "ab";
}

abbrev desk : WireDevice
desk = record {
  device_id = codes "desk";
  name = codes "desk";
  status = codes "approved";
  ed25519_pubkey = 3 ∷ replicate 31;
  x25519_pubkey = [];
  fingerprint = codes "cd";
}

abbrev plane : Plane service
plane = record {
  curve = toy_curve;
  list_wire = λ w. (SyncErrors.ok (desk ∷ phone ∷ []), w);
  fetch_wrap = λ w. (SyncErrors.err (SyncError.http 404 []), w);
  revoke_device = λ id w. (SyncErrors.ok (pos 2), w);
  approve_device = λ id wrap g w. (SyncErrors.ok tt, record w { blobs = insert id wrap w.blobs });
  push_wrap = λ id wrap g w. (SyncErrors.ok tt, w);
  to_public_key_pem = λ key. some key;
  wrap_to_vec = λ b. some (write_wrap b);
  wrap_from_slice = read_wrap;
}

two_is_i32 : (g : ℤ) → SyncErrors.ok (pos 2) ≡ SyncErrors.ok g → is_i32 g ≡ true
two_is_i32 g h = let e : pos 2 ≡ g = cc in subst (λ g. is_i32 g ≡ true) e refl

plane-PlaneLaws : PlaneLaws plane
plane-PlaneLaws = record {
  put_get = λ bytes w h. rw (lookup-insert manifest_name manifest_name bytes w.blobs) refl;
  steady_get = λ w. refl;
  steady_append = λ payload w. refl;
  steady_list = λ w. refl;
  steady_push = λ id wrap g w. refl;
  steady_revoke = λ id w. refl;
  steady_random = λ n w. refl;
  steady_secret = λ w. refl;
  counts_i32 = λ id w g h. two_is_i32 g h;
}

abbrev old_key : List ℕ
old_key = 1 ∷ replicate 31

abbrev repo : CloudConfig
repo = record { repo_id = codes "r"; device_id = codes "lap" }

abbrev bytes_or_nil : SyncResult Text → Text
bytes_or_nil (SyncErrors.ok bytes) = bytes
bytes_or_nil (SyncErrors.err e) = []

-- A table of one file, sealed under the old key, which the machine has in its files.
abbrev old_manifest : Text
unfolding seal
old_manifest =
    bytes_or_nil
      (seal ciphers ((codes "a", record { blob = codes "ka"; dek = replicate 32 }) ∷ []) old_key
        (codes "r") shelf).0

abbrev laptop : Machine service
unfolding to_otsk
laptop = record {
  world = record { blobs = (manifest_name, old_manifest) ∷ []; log = [] };
  rmk_file = some (to_otsk toy old_key);
  gen_file = some (codes "1");
  device_pem = none;
  writes = [];
}

current : (current_rmk plane repo laptop).0 ≡ ok (old_key, pos 1)
unfolding current_rmk old_manifest laptop lookup is_whitespace split_once
current = refl

revoked : (revoke plane repo (codes "desk") laptop).0 ≡ ok (replicate 32)
unfolding revoke old_manifest laptop lookup is_whitespace split_once insert
revoked = refl

revoke-current_rmk_example :
    (g : ℤ) × ((current_rmk plane repo (revoke plane repo (codes "desk") laptop).1).0
      ≡ ok (replicate 32, g))
revoke-current_rmk_example =
    revoke-current_rmk plane repo plane-PlaneLaws crates (codes "desk") laptop (replicate 32)
      revoked

-- A service whose log takes nothing: the manifest is sealed under a key that is in no file by then.
abbrev deaf : Cloud
deaf = record service { append_op = λ payload w. (SyncErrors.err (SyncError.http 503 []), w) }

abbrev deaf_plane : Plane deaf
deaf_plane = record {
  curve = plane.curve;
  list_wire = plane.list_wire;
  fetch_wrap = plane.fetch_wrap;
  revoke_device = plane.revoke_device;
  approve_device = plane.approve_device;
  push_wrap = plane.push_wrap;
  to_public_key_pem = plane.to_public_key_pem;
  wrap_to_vec = plane.wrap_to_vec;
  wrap_from_slice = plane.wrap_from_slice;
}

abbrev deaf_laptop : Machine deaf
unfolding laptop
deaf_laptop = record {
  world = laptop.world;
  rmk_file = laptop.rmk_file;
  gen_file = laptop.gen_file;
  device_pem = none;
  writes = [];
}

-- After the failed command not even this machine has a key.
locked_out :
    (current_rmk deaf_plane repo (revoke deaf_plane repo (codes "desk") deaf_laptop).1).0
    ≡ err (other (sync (SyncError.http 404 [])))
unfolding revoke old_manifest laptop deaf_laptop lookup is_whitespace split_once insert
locked_out = refl

-- The private key of the phone.
abbrev private_key : Text
private_key = 5 ∷ replicate 31

approved : (approve plane repo (codes "ph") (codes "ab") laptop).0 ≡ ok tt
unfolding approve old_manifest laptop lookup is_whitespace split_once insert
approved = refl

other_id : codes "desk" ≢ codes "ph"
other_id e = false≢true ((text_eq_iff (codes "desk") (codes "ph")).1 e)

phone-Owns :
    Owns plane repo keyed-CipherLaws toy-CurveLaws read-write_wrap private_key private_key refl
      phone
unfolding listed_pem
phone-Owns pem h =
    let e : 5 ∷ replicate 31 ≡ pem = cc in
    subst (λ p. some (first p ∷ replicate 31) ≡ some (5 ∷ replicate 31)) e refl

only_phone : (d : WireDevice) → In d (desk ∷ phone ∷ []) → d.device_id ≡ codes "ph" → phone ≡ d
only_phone d (inl p) e = absurd (other_id (sym (ap (λ (d : WireDevice). d.device_id) p) ∙ e))
only_phone d (inr (inl p)) e = sym p
only_phone d (inr (inr p)) e = absurd p

approve-Unwraps_example :
    HandedOver plane repo keyed-CipherLaws toy-CurveLaws read-write_wrap private_key private_key
      refl
      (codes "ph")
      (codes "ab")
      laptop
      (approve plane repo (codes "ph") (codes "ab") laptop).1
approve-Unwraps_example =
    approve-Unwraps plane repo keyed-CipherLaws toy-CurveLaws read-write_wrap private_key
      private_key refl (codes "ph") (codes "ab") laptop tt
      (λ w devices d e c.
        (let q : desk ∷ phone ∷ [] ≡ devices = cc in
          let p : phone ≡ d = only_phone d (subst (λ l. In d l) (sym q) c.0) c.1 in
          subst
            (λ d.
              Owns plane repo keyed-CipherLaws toy-CurveLaws read-write_wrap private_key private_key
                refl d)
            p phone-Owns))
      approved
