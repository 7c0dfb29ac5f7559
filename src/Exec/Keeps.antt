-- ===== src/Exec/Keeps.antt =====
-- Predicates that a method keeps, whether it returns or fails.
use tuskd.Prelude.{Bool, true, false, if◌then◌else◌}
use tuskd.Errors.{Result, ok, err}
use package.tuskd.Exec.{Exec, resume, pure, lift, gets, ◌>>=◌, ◌>>◌}

pub record Keeps {S A : Type 0} (P : S → Type 0) (m : Exec S A) : Type 0 where
  pub at : (s : S) → P s → P (m s).1

module _ {S A B : Type 0} {P : S → Type 0} where
  resume-keeps :
      (r : Result A) (f : A → Exec S B) (s : S)
      → P s
      → ((a : A) → Keeps P (f a))
      → P (resume f r s).1
  resume-keeps (ok a) f s h k = (k a).at s h
  resume-keeps (err e) f s h k = h

  pub >>=-Keeps :
      {m : Exec S A} {f : A → Exec S B} → Keeps P m → ((a : A) → Keeps P (f a)) → Keeps P (m >>= f)
  >>=-Keeps {m} {f} km kf = record { at = λ s h. resume-keeps (m s).0 f (m s).1 (km.at s h) kf }

  pub >>-Keeps : {m : Exec S A} {n : Exec S B} → Keeps P m → Keeps P n → Keeps P (m >> n)
  >>-Keeps {m} {n} km kn = record {
    at = λ s h. resume-keeps (m s).0 (λ _. n) (m s).1 (km.at s h) (λ a. kn);
  }

module _ {S A : Type 0} {P : S → Type 0} where
  pub pure-Keeps : (a : A) → Keeps P (pure a)
  pure-Keeps a = record { at = λ s h. h }

  pub lift-Keeps : (r : Result A) → Keeps P (lift r)
  lift-Keeps r = record { at = λ s h. h }

  pub gets-Keeps : (f : S → A) → Keeps P (gets f)
  gets-Keeps f = record { at = λ s h. h }

  pub if-Keeps : (b : Bool) {m n : Exec S A} → Keeps P m → Keeps P n → Keeps P (if b then m else n)
  if-Keeps true km kn = km
  if-Keeps false km kn = kn

pub ruleset keeps_rules = (>>=-Keeps, >>-Keeps, pure-Keeps, lift-Keeps, gets-Keeps, if-Keeps)
