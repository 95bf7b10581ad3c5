-- ===== src/Prelude/Exec.antt =====
-- Methods that change a state and may raise: what was changed before an exception stays changed.
use cryptobot_v.Prelude.Result.{Result, ok, raised}

abbrev pub Exec : Type 0 → Type 0 → Type 0
Exec S A = S → Result A × S

module _ {S : Type 0} where
  abbrev pub pure : {A : Type 0} → A → Exec S A
  pure a s = (ok a, s)

  abbrev pub lift : {A : Type 0} → Result A → Exec S A
  lift r s = (r, s)

  abbrev pub get_state : Exec S S
  get_state s = (ok s, s)

  abbrev pub modify : (S → S) → Exec S (Unit {0})
  modify f s = (ok tt, f s)

  -- What follows an action that has run.
  abbrev pub resume : {A B : Type 0} → Result A × S → (A → Exec S B) → Result B × S
  resume (ok a, s) f = f a s
  resume (raised e, s) f = (raised e, s)

  infixl 5 ◌>>=◌ ◌>>◌
  abbrev pub ◌>>=◌ : {A B : Type 0} → Exec S A → (A → Exec S B) → Exec S B
  ◌>>=◌ m f s = resume (m s) f

  abbrev pub ◌>>◌ : {B : Type 0} → Exec S (Unit {0}) → Exec S B → Exec S B
  m >> k = m >>= λ _. k
