-- ===== src/Prelude/Gives.antt =====
-- What is true of the value of an action, when it gives one.
use mathlib.Core.Path.{◌≡◌, subst}
use cryptobot_v.Prelude.Result.{Result, ok, raised, ok-inj}
use cryptobot_v.Prelude.Exec.{Exec, resume, ◌>>=◌}

module _ {S : Type 0} where
  abbrev pub ValueOf : {A : Type 0} → (A → Type 0) → Result A × S → Type 0
  ValueOf Q (ok a, s) = Q a
  ValueOf Q (raised e, s) = Unit {0}

  abbrev pub Gives : {A : Type 0} → (A → Type 0) → Exec S A → Type 0
  Gives Q m = (s : S) → ValueOf Q (m s)

  ValueOf-resume :
      {A B : Type 0} (Q : A → Type 0) (R : B → Type 0) (x : Result A × S) (k : A → Exec S B)
      → ValueOf Q x
      → ((a : A) → Q a → Gives R (k a))
      → ValueOf R (resume x k)
  ValueOf-resume Q R (ok a, s) k q h = h a q s
  ValueOf-resume Q R (raised e, s) k q h = tt

  pub Gives-bind :
      {A B : Type 0} (Q : A → Type 0) (R : B → Type 0) (m : Exec S A) (k : A → Exec S B)
      → Gives Q m
      → ((a : A) → Q a → Gives R (k a))
      → Gives R (m >>= k)
  Gives-bind Q R m k q h s = ValueOf-resume Q R (m s) k (q s) h

  -- An action of which nothing is known.
  pub Gives-any : {A : Type 0} (m : Exec S A) → Gives (λ a. Unit {0}) m
  Gives-any {A = A} m s = holds (m s)
    where
      holds : (x : Result A × S) → ValueOf (λ a. Unit {0}) x
      holds (ok a, t) = tt
      holds (raised e, t) = tt

  -- A property of the value, for the one that is given.
  pub value-Gives :
      {A : Type 0} (Q : A → Type 0) (x : Result A × S) (a : A) → ValueOf Q x → x.0 ≡ ok a → Q a
  value-Gives Q (ok b, s) a q e = subst Q (ok-inj e) q
  value-Gives Q (raised x, s) a q e = cc

  ValueOf-weaken :
      {A : Type 0} (Q R : A → Type 0) (x : Result A × S)
      → ((a : A) → Q a → R a)
      → ValueOf Q x
      → ValueOf R x
  ValueOf-weaken Q R (ok a, s) h q = h a q
  ValueOf-weaken Q R (raised e, s) h q = tt

  pub Gives-weaken :
      {A : Type 0} (Q R : A → Type 0) (m : Exec S A) → ((a : A) → Q a → R a) → Gives Q m → Gives R m
  Gives-weaken Q R m h q s = ValueOf-weaken Q R (m s) h (q s)
