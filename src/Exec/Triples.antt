-- ===== src/Exec/Triples.antt =====
-- What holds after a method: `Q` of its value and state where it returns, `R` where it fails.
use tuskd.Prelude.{◌≡◌, refl, subst}
use tuskd.Errors.{Result, ok, err}
use package.tuskd.Exec.{Exec, resume, pure, lift, gets, ◌>>=◌, ◌>>◌}
use package.tuskd.Exec.Keeps.{Keeps}

abbrev pub After : {S A : Type 0} → (A → S → Type 0) → (S → Type 0) → Result A × S → Type 0
After Q R (ok a, s) = Q a s
After Q R (err e, s) = R s

pub record Triple {S A : Type 0} (P : S → Type 0) (m : Exec S A) (Q : A → S → Type 0)
    (R : S → Type 0) : Type 0 where
  pub at : (s : S) → P s → After Q R (m s)

module _ {S A B : Type 0} {Q : A → S → Type 0} {T : B → S → Type 0} {R : S → Type 0} where
  resume-After :
      (r : Result A × S) (f : A → Exec S B)
      → After Q R r
      → ((a : A) → Triple (Q a) (f a) T R)
      → After T R (resume f r.0 r.1)
  resume-After (ok a, s) f h k = (k a).at s h
  resume-After (err e, s) f h k = h

module _ {S A : Type 0} {R : S → Type 0} where
  keep_both :
      (Q : S → Type 0) (r : Result A × S) → Q r.1 → ((s : S) → Q s → R s) → After (λ a. Q) R r
  keep_both Q (ok a, s) h k = h
  keep_both Q (err e, s) h k = k s h

module _ {S A B : Type 0} {P : S → Type 0} {Q : A → S → Type 0} {T : B → S → Type 0}
    {R : S → Type 0} where
  pub >>=-Triple :
      {m : Exec S A} {f : A → Exec S B}
      → Triple P m Q R
      → ((a : A) → Triple (Q a) (f a) T R)
      → Triple P (m >>= f) T R
  >>=-Triple {m} {f} tm tf = record { at = λ s h. resume-After (m s) f (tm.at s h) tf }

module _ {S A B : Type 0} {P M : S → Type 0} {T : B → S → Type 0} {R : S → Type 0} where
  pub >>-Triple :
      {m : Exec S A} {n : Exec S B} → Triple P m (λ _. M) R → Triple M n T R → Triple P (m >> n) T R
  >>-Triple {m} {n} tm tn = record {
    at = λ s h. resume-After {Q = λ _. M} (m s) (λ _. n) (tm.at s h) (λ _. tn);
  }

module _ {S A : Type 0} {P R : S → Type 0} where
  pub Keeps-Triple : {m : Exec S A} → Keeps P m → ((s : S) → P s → R s) → Triple P m (λ a. P) R
  Keeps-Triple {m} k w = record { at = λ s h. keep_both P (m s) (k.at s h) w }

  pub pure-Triple : {Q : A → S → Type 0} (a : A) → ((s : S) → P s → Q a s) → Triple P (pure a) Q R
  pure-Triple a k = record { at = k }

  pub gets-Triple : (f : S → A) → Triple P (gets f) (λ a s. P s × (a ≡ f s)) R
  gets-Triple f = record { at = λ s h. (h, refl) }

  lift-After :
      (r : Result A) (s : S)
      → P s
      → ((s : S) → P s → R s)
      → After (λ a s. P s × (r ≡ ok a)) R (r, s)
  lift-After (ok a) s h k = (h, refl)
  lift-After (err e) s h k = k s h

  pub lift-Triple :
      (r : Result A) → ((s : S) → P s → R s) → Triple P (lift r) (λ a s. P s × (r ≡ ok a)) R
  lift-Triple r k = record { at = λ s h. lift-After r s h k }

pub After-ok :
    {S A : Type 0} (Q : A → S → Type 0) (R : S → Type 0) (r : Result A × S) {a : A}
    → After Q R r
    → r.0 ≡ ok a
    → Q a r.1
After-ok Q R (ok b, s) {a} h e = (let k : b ≡ a = cc in subst (λ b. Q b s) k h)
After-ok Q R (err f, s) h e = cc

module _ {S A B : Type 0} {P : S → Type 0} {T : B → S → Type 0} {R : S → Type 0} where
  check-After :
      (r : Result A) (n : Exec S B) (s : S)
      → P s
      → ((s : S) → P s → R s)
      → ((a : A) → Triple (λ s. P s × (r ≡ ok a)) n T R)
      → After T R (resume (λ _. n) r s)
  check-After (ok a) n s h k t = (t a).at s (h, refl)
  check-After (err e) n s h k t = k s h

  -- What follows a check knows that it was passed.
  pub check-Triple :
      (r : Result A) {n : Exec S B}
      → ((s : S) → P s → R s)
      → ((a : A) → Triple (λ s. P s × (r ≡ ok a)) n T R)
      → Triple P (lift r >> n) T R
  check-Triple r {n} k t = record { at = λ s h. check-After r n s h k t }

abbrev pub Anything : {S : Type 0} → S → Type 0
Anything s = Unit {0}

any_outcome : {S A : Type 0} (r : Result A × S) → After (λ a s. Unit {0}) Anything r
any_outcome (ok a, s) = tt
any_outcome (err e, s) = tt

pub trivially : {S A : Type 0} (m : Exec S A) → Triple Anything m (λ a. Anything) Anything
trivially m = record { at = λ s h. any_outcome (m s) }

pub returns_lem :
    {S A : Type 0} (Q : A → S → Type 0) (r : Result A) (s : S)
    → ((a : A) → r ≡ ok a → Q a s)
    → After Q Anything (r, s)
returns_lem Q (ok a) s k = k a refl
returns_lem Q (err e) s k = tt

-- What is known of the run where it returns.
pub returns-Triple :
    {S A : Type 0} {P : S → Type 0} {Q : A → S → Type 0} (m : Exec S A)
    → ((s : S) → P s → (a : A) → (m s).0 ≡ ok a → Q a (m s).1)
    → Triple P m Q Anything
returns-Triple {Q} m k = record { at = λ s h. returns_lem Q (m s).0 (m s).1 (k s h) }

-- A fact beside the state.
pub with-Triple :
    {S A F : Type 0} {P : S → Type 0} {Q : A → S → Type 0} {R : S → Type 0} {m : Exec S A}
    → (F → Triple P m Q R)
    → Triple (λ s. P s × F) m Q R
with-Triple t = record { at = λ s h. (t h.1).at s h.0 }

-- A fact that a method cannot change.
pub carry : {S A F : Type 0} (m : Exec S A) → Triple (λ s. F) m (λ _ _. F) Anything
carry {S} {A} {F} m = record { at = λ s f. kept f (m s) }
  where
    kept : F → (r : Result A × S) → After (λ _ _. F) Anything r
    kept f (ok a, s) = f
    kept f (err e, s) = tt
