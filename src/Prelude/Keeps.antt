-- ===== src/Prelude/Keeps.antt =====
-- Invariants of actions that may raise: what holds before holds after, and something weaker holds when
-- an exception ends the action.
use cryptobot_v.Prelude.Result.{Result, ok, raised}
use cryptobot_v.Prelude.Exec.{Exec, pure, lift, resume, ◌>>=◌}

pub record Rule (S : Type 0) : Type 1 where
  pub Good : S → Type 0
  -- what an exception leaves
  pub Left : S → Type 0
  pub weaken : (s : S) → Good s → Left s

module _ {S : Type 0} (rule : Rule S) where
  abbrev pub Outcome : {A : Type 0} → Result A × S → Type 0
  Outcome (ok a, s) = rule.Good s
  Outcome (raised e, s) = rule.Left s

  abbrev pub Keeps : {A : Type 0} → Exec S A → Type 0
  Keeps m = (s : S) → rule.Good s → Outcome (m s)

  pub Keeps-pure : {A : Type 0} (a : A) → Keeps (pure a)
  Keeps-pure a s i = i

  pub Keeps-lift : {A : Type 0} (r : Result A) → Keeps (lift r)
  Keeps-lift (ok a) s i = i
  Keeps-lift (raised e) s i = rule.weaken s i

  Outcome-resume :
      {A B : Type 0} (x : Result A × S) (k : A → Exec S B)
      → Outcome x
      → ((a : A) → Keeps (k a))
      → Outcome (resume x k)
  Outcome-resume (ok a, s) k i h = h a s i
  Outcome-resume (raised e, s) k i h = i

  pub Keeps-bind :
      {A B : Type 0} (m : Exec S A) (k : A → Exec S B)
      → Keeps m
      → ((a : A) → Keeps (k a))
      → Keeps (m >>= k)
  Keeps-bind m k h hs s i = Outcome-resume (m s) k (h s i) hs

  -- The same, with a property of the value.
  abbrev pub OutcomeOf : {A : Type 0} → (A → Type 0) → Result A × S → Type 0
  OutcomeOf Q (ok a, s) = rule.Good s × Q a
  OutcomeOf Q (raised e, s) = rule.Left s

  abbrev pub Yields : {A : Type 0} → (A → Type 0) → Exec S A → Type 0
  Yields Q m = (s : S) → rule.Good s → OutcomeOf Q (m s)

  pub Yields-bind :
      {A B : Type 0} (Q : B → Type 0) (m : Exec S A) (k : A → Exec S B)
      → Keeps m
      → ((a : A) → Yields Q (k a))
      → Yields Q (m >>= k)
  Yields-bind {A = A} Q m k h hs s i = after (m s) (h s i)
    where
      after : (x : Result A × S) → Outcome x → OutcomeOf Q (resume x k)
      after (ok a, t) j = hs a t j
      after (raised e, t) j = j

  pub Keeps-bind_of :
      {A B : Type 0} (Q : A → Type 0) (m : Exec S A) (k : A → Exec S B)
      → Yields Q m
      → ((a : A) → Q a → Keeps (k a))
      → Keeps (m >>= k)
  Keeps-bind_of {A = A} Q m k h hs s i = after (m s) (h s i)
    where
      after : (x : Result A × S) → OutcomeOf Q x → Outcome (resume x k)
      after (ok a, t) (j, q) = hs a q t j
      after (raised e, t) j = j
