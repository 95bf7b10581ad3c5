-- ===== src/Prelude/Result.antt =====
-- Exceptions as values, and actions on a state that may raise.
use mathlib.Core.Path.{◌≡◌, refl, subst}
use mathlib.Core.Logic.{◌⊎◌, inl, inr}
use mathlib.Core.Bool.{Bool, true, false}

-- The Python exception that is raised; each message is a constructor of its own.
pub data Error : Type 0 where
  value_error type_error index_error lookup_error zero_division port_error : Error

pub data Result {ℓ} (A : Type ℓ) : Type ℓ where
  ok : A → Result A
  raised : Error → Result A

infixl 5 ◌>>=◌ ◌>>◌
abbrev pub ◌>>=◌ {ℓ κ} : {A : Type ℓ} {B : Type κ} → Result A → (A → Result B) → Result B
ok a >>= f = f a
raised e >>= f = raised e

abbrev pub ◌>>◌ {ℓ} : {B : Type ℓ} → Result (Unit {0}) → Result B → Result B
m >> k = m >>= λ _. k

-- `if test: raise e`
abbrev pub raise_if : Bool → Error → Result (Unit {0})
raise_if true e = raised e
raise_if false e = ok tt

pub Result-cases {ℓ} :
    {A : Type ℓ} (r : Result A) → ((a : A) × (r ≡ ok a)) ⊎ ((e : Error) × (r ≡ raised e))
Result-cases (ok a) = inl (a, refl)
Result-cases (raised e) = inr (e, refl)

pub ok-inj {ℓ} : {A : Type ℓ} {a b : A} → ok a ≡ ok b → a ≡ b
ok-inj e = cc

-- What is true of a value, when there is one.
abbrev pub WhenOk {ℓ κ} : {A : Type ℓ} → (A → Type κ) → Result A → Type κ
WhenOk P (ok a) = P a
WhenOk P (raised e) = Unit

pub WhenOk-bind {ℓ κ μ} :
    {A : Type ℓ} {B : Type κ} (P : B → Type μ) (m : Result A) (k : A → Result B)
    → ((a : A) → m ≡ ok a → WhenOk P (k a))
    → WhenOk P (m >>= k)
WhenOk-bind P (ok a) k h = h a refl
WhenOk-bind P (raised e) k h = tt

pub value-WhenOk {ℓ κ} :
    {A : Type ℓ} (P : A → Type κ) (m : Result A) (a : A) → WhenOk P m → m ≡ ok a → P a
value-WhenOk P (ok b) a p e = subst P (ok-inj e) p
value-WhenOk P (raised x) a p e = cc
