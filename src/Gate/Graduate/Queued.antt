-- ===== src/Gate/Graduate/Queued.antt =====
-- gate.rs: what a graduation does to the vault, the index and the queue.
use tuskd.Prelude.{Bool, true, false, List, [], ◌∷◌, refl, ◌∙◌, Every}
use tuskd.Text.{Text}
use tuskd.Errors.{Result, ok, err}
use tuskd.Exec.{Exec}
use tuskd.Exec.Triples.{After, Triple, >>=-Triple, pure-Triple}
use tuskd.Floats.{Floats}
use tuskd.Record.Fields.{Record}
use tuskd.Journal.{Services}
use tuskd.Vault.Paths.{FilePath}
use tuskd.Vault.Store
use package.tuskd.Gate.Commit.{GateOutcome, Gate, Config, on_vault}
use package.tuskd.Gate.Submit.{submit}
use package.tuskd.Gate.Review.{NoCommit, Untouched, submit-skill}
use package.tuskd.Gate.Graduate.{
  GraduationConfig, skill_of, graduates, graduate_one, with_outcome, graduate_all, graduate,
  already,
}

-- The outcome is not a commit.
abbrev pub IsPending : GateOutcome → Type 0
IsPending o = NoCommit (ok o)

module _ {fl : Floats} (sv : Services) (cf : Config fl sv) (gc : GraduationConfig fl sv)
    (g : Gate fl sv) where
  trans : (h i : Gate fl sv) → Untouched g h → Untouched h i → Untouched g i
  trans h i u v = record {
    files = v.files ∙ u.files;
    rows = v.rows ∙ u.rows;
    skills = v.skills ∙ u.skills;
  }

  abbrev Pending : GateOutcome → Gate fl sv → Type 0
  Pending o h = Untouched g h × IsPending o

  after_lem :
      (r : Result GateOutcome × Gate fl sv)
      → NoCommit r.0
      → Untouched g r.1
      → After Pending (Untouched g) r
  after_lem (ok o, h) n u = (u, n)
  after_lem (err e, h) n u = u

  submit-Triple :
      (r : Record fl sv.chrono) (t : sv.chrono.DateTime)
      → Triple (Untouched g) (submit sv cf (skill_of sv cf gc t r) r.author) Pending (Untouched g)
  unfolding skill_of
  submit-Triple r t = record {
    at = λ h u.
        let (n, v) = submit-skill sv cf (skill_of sv cf gc t r) r.author h refl in
        after_lem _ n (trans h _ u v);
  }

  now-Triple : Triple (Untouched g) (on_vault (Store.now sv)) (λ t. Untouched g) (Untouched g)
  unfolding on_vault Store.now
  now-Triple = record { at = λ h u. record { files = u.files; rows = u.rows; skills = u.skills } }

  one-Triple :
      (r : Record fl sv.chrono)
      → Triple (Untouched g) (graduate_one sv cf gc r) Pending (Untouched g)
  unfolding graduate_one
  one-Triple r = >>=-Triple now-Triple (submit-Triple r)

  abbrev AllPending : List GateOutcome → Gate fl sv → Type 0
  AllPending os h = Untouched g h × Every IsPending os

  carried :
      (o : GateOutcome) (rest : Exec (Gate fl sv) (List GateOutcome))
      → Triple (Untouched g) rest AllPending (Untouched g)
      → Triple (Pending o) rest (λ os h. AllPending os h × IsPending o) (Untouched g)
  carried o rest t = record { at = λ h u. with_fact (rest h) u.1 (t.at h u.0) }
    where
      with_fact :
          (r : Result (List GateOutcome) × Gate fl sv)
          → IsPending o
          → After AllPending (Untouched g) r
          → After (λ os h. AllPending os h × IsPending o) (Untouched g) r
      with_fact (ok os, h) p a = (a, p)
      with_fact (err e, h) p a = a

  with_outcome-Triple :
      (b : Bool) (r : Record fl sv.chrono) (rest : Exec (Gate fl sv) (List GateOutcome))
      → Triple (Untouched g) rest AllPending (Untouched g)
      → Triple (Untouched g) (with_outcome sv cf gc b r rest) AllPending (Untouched g)
  with_outcome-Triple false r rest t = t
  with_outcome-Triple true r rest t =
      >>=-Triple (one-Triple r)
        λ o. >>=-Triple (carried o rest t) λ os. pure-Triple (o ∷ os) (λ h a. (a.0.0, (a.1, a.0.1)))

  all-Triple :
      (seen : List Text) (all : List (FilePath × Record fl sv.chrono))
      → Triple (Untouched g) (graduate_all sv cf gc seen all) AllPending (Untouched g)
  unfolding graduate_all
  all-Triple seen [] = pure-Triple [] (λ h u. (u, tt))
  all-Triple seen ((p, r) ∷ all) =
      with_outcome-Triple (graduates sv cf gc seen r) r (graduate_all sv cf gc seen all)
        (all-Triple seen all)

  -- A graduation commits nothing: each of its candidates is queued for review or rejected as a duplicate,
  -- and whether it succeeds or fails, the records, the index and the skills stay as they were.
  pub graduate-AllPending :
      After (λ os h. Untouched g h × Every IsPending os) (Untouched g) (graduate sv cf gc g)
  unfolding graduate
  graduate-AllPending =
      (all-Triple (already sv cf gc g.queue (Store.walk sv fl g.vault.files))
          (Store.walk sv fl g.vault.files)).at
        g (record { files = refl; rows = refl; skills = refl })
