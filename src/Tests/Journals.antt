-- ===== src/Tests/Journals.antt =====
-- sync.rs at fixed inputs.
use tuskd.Prelude.{◌≡◌, refl, none, some, List, [], ◌∷◌, arith, true, ℕ, ◌⊎◌, ◌++◌}
use tuskd.Text.{Text, codes, split_once}
use tuskd.Errors.{ok, err, journal, unparseable_line}
use tuskd.Exec.{Ends}
use tuskd.BTreeMap.{Distinct, lookup, insert}
use tuskd.Frontmatter.Quoting.{newline}
use tuskd.Journal.{
  OpKind, Journal, Fault, fine, short, genesis_hash, content_hash, verify, open_raw, append,
  bytes_of, write_all,
}
use tuskd.Journal.Chain.{IsChained, entry}
use tuskd.Journal.Crash.{append-IsChained}
use tuskd.Journal.Tamper.{verify_unique, Collision}
use tuskd.Journal.Reconcile.{reconcile}
use tuskd.Journal.InSync.{InSync, reconcile-InSync, reconcile_again}
use tuskd.Tests.Json.{toy_services, toy-JsonLaws, flat_services, flat-SeedLaws}
use tuskd.Journal.Lines.{join_lines, split_tail}
use tuskd.Time.{trunc_ms, fmt_ts}
use tuskd.Journal.Entries.{live_state, entries, nonempty, parse_all, live_of, apply_entry}
use tuskd.Journal.Torn.{open-append_joined}

abbrev vault_id : Text
vault_id = codes "01V"

abbrev fresh : List Fault → Journal
fresh faults = record {
  file = none;
  last_hash = genesis_hash toy_services vault_id;
  calls = 0;
  faults = faults;
}

fresh-IsChained : (faults : List Fault) → IsChained toy_services vault_id (fresh faults)
unfolding verify join_lines
fresh-IsChained faults = record { lines = []; whole = tt; content = refl; verified = refl }

abbrev one : List Fault → Journal
one faults =
    (append toy_services OpKind.put (codes "memory/user/01A.md") (some (codes "h1"))
      (fresh (fine ∷ faults))).1

one-IsChained : (faults : List Fault) → IsChained toy_services vault_id (one faults)
one-IsChained faults =
    append-IsChained toy-JsonLaws vault_id OpKind.put (codes "memory/user/01A.md")
      (some (codes "h1")) _ (λ n e. cc) (fresh-IsChained _)

one-faults : (faults : List Fault) → (one faults).faults ≡ faults
unfolding append write_all
one-faults faults = refl

-- Under a hash with one value, an empty file and one of one line verify up to the same hash.
abbrev seed : Text
unfolding genesis_hash
seed = genesis_hash flat_services vault_id

abbrev line : Text
line = flat_services.to_json (
    entry flat_services OpKind.put (codes "memory/user/01A.md") (some (codes "h1"))
      (record (fresh []) { last_hash = seed }))

line_verified : verify flat_services 0 (genesis_hash flat_services vault_id) (line ∷ []) ≡ ok seed
unfolding verify genesis_hash content_hash split_once trunc_ms fmt_ts
line_verified = refl

nothing_verified : verify flat_services 0 (genesis_hash flat_services vault_id) [] ≡ ok seed
unfolding verify genesis_hash
nothing_verified = refl

verify_unique_example : ((line ∷ []) ≡ []) ⊎ Collision flat_services
verify_unique_example =
    verify_unique flat-SeedLaws vault_id seed (line ∷ []) [] line_verified nothing_verified

abbrev disk : List (Text × Text)
disk = (codes "memory/org/01B.md", codes "h7") ∷ (codes "memory/user/01A.md", codes "h9") ∷ []

disk-Distinct : Distinct disk
unfolding lookup
disk-Distinct = (refl, (refl, tt))

reconcile-InSync_example :
    Ends (λ n. InSync toy_services vault_id disk) (reconcile toy_services disk (one []))
reconcile-InSync_example =
    reconcile-InSync toy-JsonLaws vault_id disk disk-Distinct (one []) (one-IsChained [])
      (one-faults [])

abbrev same_disk : List (Text × Text)
same_disk = (codes "memory/user/01A.md", codes "h1") ∷ []

one-live : live_state toy_services (one []) ≡ ok same_disk
unfolding live_state entries nonempty parse_all live_of apply_entry insert split_tail split_once
    append write_all content_hash trunc_ms fmt_ts genesis_hash
one-live = refl

one-InSync : InSync toy_services vault_id same_disk (one [])
one-InSync = record {
  live = same_disk;
  tracks = record { chained = one-IsChained []; readable = one-live; calm = one-faults [] };
  same = λ p. refl;
}

reconcile_again_example : reconcile toy_services same_disk (one []) ≡ (ok 0, one [])
unfolding lookup
reconcile_again_example =
    reconcile_again toy_services vault_id same_disk (one []) (refl, tt) one-InSync

abbrev joined : Journal
joined = one (short 5 ∷ [])

abbrev torn_one : Journal
unfolding append write_all split_once trunc_ms fmt_ts content_hash
torn_one = (append toy_services OpKind.put (codes "memory/org/01B.md") (some (codes "h2")) joined).1

open-append_joined_example :
    ((append toy_services OpKind.put (codes "memory/org/01C.md") (some (codes "h3")) torn_one).0
      ≡ ok (entry toy_services OpKind.put (codes "memory/org/01C.md") (some (codes "h3")) torn_one))
    × ((m : ℕ) × (open_raw toy_services vault_id true (
            some (
              bytes_of
                (append toy_services OpKind.put
                  (codes "memory/org/01C.md")
                  (some (codes "h3"))
                  torn_one).1.file
              ++ line
              ++ newline ∷ []))
          ≡ err (journal (unparseable_line m))))
unfolding append write_all split_once trunc_ms fmt_ts content_hash genesis_hash seed torn_one
open-append_joined_example =
    open-append_joined toy-JsonLaws vault_id true OpKind.put OpKind.put (codes "memory/org/01B.md")
      (codes "memory/org/01C.md") (some (codes "h2")) (some (codes "h3")) (line ++ newline ∷ [])
      joined 5 (one-IsChained (short 5 ∷ [])) refl (omega arith) refl refl
