-- ===== src/Tests/Workers.antt =====
-- sync_worker.rs at fixed inputs.
use tuskd.Prelude.{
  ℕ, zero, suc, Bool, true, false, none, some, [], ◌∷◌, ◌≡◌, refl, sym, subst, take, drop,
  if◌then◌else◌, arith,
}
use tuskd.Text.{codes, split_once}
use tuskd.Text.Number.{ℤ, pos}
use tuskd.BTreeMap.{lookup, text_lt}
use tuskd.BTreeMap.Order.{IsSorted}
use tuskd.Journal.{content_hash}
use tuskd.Errors.{ok}
use tuskd.Cloud.Crypto.{KeyTable}
use tuskd.Cloud.Service.{CloudOp}
use tuskd.Worker.Cycle.{last_seq, latest_seq}
use tuskd.Worker.Cycle.Latest.{LogLaws, latest_seq-newest}
use tuskd.Worker.State.{Session, Device, nothing_done}
use tuskd.Worker.Pull.{pull_phase, is_clean}
use tuskd.Worker.Push.{push_phase}
use tuskd.Worker.Pull.Collected.{pull_phase-There}
use tuskd.Worker.Push.InSync.{push_phase-InSync, InSync}
use tuskd.Worker.Push.Again.{push_again}
use tuskd.Tests.Json.{toy_services}
use tuskd.Tests.Clouds.{Shelf, above, newer, replicate, toy_cloud, toy-TableLaws}
use tuskd.Worker.Pull.Authors.{AllSigned, pull_phase-Signed}

abbrev session : Session
session = record {
  config = record { repo_id = codes "r"; device_id = codes "lap" };
  rmk = codes "k";
  generation = pos 1;
}

-- One file that was never synced, and one that was synced and deleted since.
abbrev laptop : Device toy_cloud
laptop = record {
  world = record { blobs = []; log = [] };
  files = (codes "a", codes "x") ∷ (codes "lock", codes "1") ∷ [];
  writes = [];
  saved = none;
  state = record {
    cursor = pos 0;
    generation = pos 1;
    files = (codes "b", record { hash = codes "y"; blob = codes "kb" }) ∷ [];
  };
  report = nothing_done;
}

abbrev table : KeyTable
table = (codes "a", record { blob = codes "ka"; dek = replicate 32 }) ∷ []

-- The file goes up, and the deleted one had no entry to remove.
pushed : (push_phase toy_cloud toy_services session none laptop).0 ≡ ok (some table)
unfolding push_phase
pushed = refl

laptop-IsSorted : IsSorted laptop.files
unfolding text_lt
laptop-IsSorted = ((refl, tt), (tt, tt))

push_phase-InSync_example :
    InSync toy_cloud toy_services session laptop
      (push_phase toy_cloud toy_services session none laptop).1
push_phase-InSync_example =
    push_phase-InSync toy_cloud toy_services session none (some table) laptop laptop-IsSorted pushed

same_generation :
    (push_phase toy_cloud toy_services session none laptop).1.state.generation ≡ session.generation
unfolding push_phase
same_generation = refl

push_again_example :
    push_phase toy_cloud toy_services session none
      (push_phase toy_cloud toy_services session none laptop).1
    ≡ (ok none, (push_phase toy_cloud toy_services session none laptop).1)
push_again_example =
    push_again toy_cloud toy_services session none (some table) none laptop laptop-IsSorted pushed
      same_generation

-- Another device put the file `a`, which has changed here since it was synced.
abbrev after_push : Shelf
unfolding push_phase
after_push = (push_phase toy_cloud toy_services session none laptop).1.world

abbrev edited : Device toy_cloud
edited = record laptop {
  world = after_push;
  files = (codes "a", codes "z") ∷ [];
  state = record {
    cursor = pos 0;
    generation = pos 1;
    files = (codes "a", record { hash = codes "w"; blob = codes "ka" }) ∷ [];
  };
}

pull_phase-There_example :
    lookup (codes "a") (pull_phase toy_cloud toy_services session edited).1.files ≡ some (codes "z")
unfolding lookup is_clean content_hash
pull_phase-There_example =
    pull_phase-There toy_cloud toy-TableLaws toy_services session (codes "a") (codes "z") edited
      refl refl

-- Where it has not changed, it is replaced.
abbrev clean : Device toy_cloud
clean = record edited {
  state = record {
    cursor = pos 0;
    generation = pos 1;
    files = (codes "a", record { hash = codes "z"; blob = codes "ka" }) ∷ [];
  };
}

pulled :
    lookup (codes "a") (pull_phase toy_cloud toy_services session clean).1.files ≡ some (codes "x")
unfolding pull_phase after_push split_once
pulled = refl

pull_phase-Signed_example : AllSigned toy_cloud session after_push after_push.log
unfolding pull_phase after_push split_once
pull_phase-Signed_example =
    pull_phase-Signed toy_cloud session toy_services clean (some table) after_push.log refl refl

abbrev first_op : CloudOp
first_op = record { seq = pos 1; device_id = codes "desk"; payload = []; signature = [] }

abbrev one_op : Shelf
one_op = record { blobs = []; log = first_op ∷ [] }

one_op-next :
    (b : Bool) (n : ℕ) (last : ℤ)
    → last_seq (take n (if b then first_op ∷ [] else [])) ≡ some last
    → newer last (first_op ∷ []) ≡ drop n (if b then first_op ∷ [] else [])
one_op-next false zero last h = cc
one_op-next false (suc n) last h = cc
one_op-next true zero last h = cc
one_op-next true (suc zero) last h =
    let e : last ≡ pos 1 = cc in subst (λ l. newer l (first_op ∷ []) ≡ []) (sym e) refl
one_op-next true (suc (suc n)) last h =
    let e : last ≡ pos 1 = cc in subst (λ l. newer l (first_op ∷ []) ≡ []) (sym e) refl

abbrev one_op-Laws : LogLaws toy_cloud one_op
one_op-Laws = record {
  past = λ seq. newer seq (first_op ∷ []);
  page = λ seq n. refl;
  next = λ seq n last. one_op-next (above seq (pos 1)) n last;
}

latest_seq-newest_example :
    latest_seq toy_cloud 2 (record laptop { world = one_op })
    ≡ (ok (pos 1), record laptop { world = one_op })
latest_seq-newest_example =
    latest_seq-newest toy_cloud 2 (record laptop { world = one_op }) one_op-Laws (omega arith)
