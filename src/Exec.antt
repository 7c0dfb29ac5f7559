-- ===== src/Exec.antt =====
-- Methods that change a state and may fail: what was written before an early return stays written,
-- so the state comes back beside the error too.
pub mod Keeps
pub mod Triples
use tuskd.Prelude.{◌≡◌, refl}
use tuskd.Errors.{CoreError, Result, ok, err}

abbrev pub Exec {ℓ} : Type ℓ → Type ℓ → Type ℓ
Exec S A = S → Result A × S

abbrev pub modify : {S : Type 0} → (S → S) → Exec S (Unit {0})
modify f s = (ok tt, f s)

module _ {ℓ} {S A : Type ℓ} where
  abbrev pub pure : A → Exec S A
  pure value state = (ok value, state)

  -- An early return of a result that no state was needed for.
  abbrev pub lift : Result A → Exec S A
  lift result state = (result, state)

  abbrev pub raise : CoreError → Exec S A
  raise e = lift (err e)

  abbrev pub gets : (S → A) → Exec S A
  gets read state = (ok (read state), state)

module _ {ℓ} {S A B : Type ℓ} where
  -- What follows a step that ended in `state`.
  abbrev pub resume : (A → Exec S B) → Result A → Exec S B
  resume rest (err e) state = (err e, state)
  resume rest (ok value) state = rest value state

  infixl 5 ◌>>=◌ ◌>>◌
  abbrev pub ◌>>=◌ : Exec S A → (A → Exec S B) → Exec S B
  ◌>>=◌ step rest state = resume rest (step state).0 (step state).1

  abbrev pub ◌>>◌ : Exec S A → Exec S B → Exec S B
  ◌>>◌ step rest state = resume (λ _. rest) (step state).0 (step state).1

-- What holds of the value and the state where a method returns `Ok`; it does return `Ok`.
abbrev pub Ends : {S A : Type 0} → (A → S → Type 0) → Result A × S → Type 0
Ends P (ok value, state) = P value state
Ends P (err e, state) = ⊥

pub Ends-bind :
    {S A B : Type 0} (P : A → S → Type 0) (Q : B → S → Type 0) (step : Result A × S)
    (rest : A → Exec S B)
    → Ends P step
    → ((value : A) (state : S) → P value state → Ends Q (rest value state))
    → Ends Q (resume rest step.0 step.1)
Ends-bind P Q (ok value, state) rest h k = k value state h
Ends-bind P Q (err e, state) rest h k = absurd h

pub Ends-mono :
    {S A : Type 0} (P Q : A → S → Type 0) (r : Result A × S)
    → Ends P r
    → ((value : A) (state : S) → P value state → Q value state)
    → Ends Q r
Ends-mono P Q (ok value, state) h k = k value state h
Ends-mono P Q (err e, state) h k = absurd h

-- What holds at the end holds of the state in which the step ended.
pub Ends-state :
    {S A : Type 0} (P : A → S → Type 0) (r : Result A × S)
    → Ends P r
    → Ends (λ a s. P a s × (s ≡ r.1)) r
Ends-state P (ok value, state) h = (h, refl)
Ends-state P (err e, state) h = absurd h
