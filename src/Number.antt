-- ===== src/Number.antt =====
-- The numbers of the program: Python's `float` (prices of candles, indicators, thresholds) and
-- `decimal.Decimal` (money and quantities). Both are types with the operations below; how a result is
-- rounded is left open. Comparisons are separate tests, so a float may be NaN. Each use of `/` in the
-- program that may meet a zero divisor is modelled with the exception that it raises.
pub mod Laws
pub mod Fixed
use cryptobot_v.Prelude.{ℕ, Bool, List, if◌then◌else◌}

pub record Num (D : Type 0) : Type 0 where
  -- an `int` or a literal as a number of this type
  pub of_ℕ : ℕ → D
  pub add : D → D → D
  pub sub : D → D → D
  pub mul : D → D → D
  pub div : D → D → D
  pub neg : D → D
  pub lt : D → D → Bool
  pub le : D → D → Bool
  pub eq : D → D → Bool
  -- `to_integral_value(rounding=ROUND_DOWN)`
  pub trunc : D → D
  -- the built-in `sum`
  pub sum : List D → D

module _ {D : Type 0} ⦃num : Num D⦄ where
  infixl 65 ◌⊕◌ ◌⊖◌
  infixl 70 ◌⊗◌ ◌⊘◌
  infix 50 ◌≺◌ ◌≼◌ ◌≈◌
  abbrev pub ◌⊕◌ : D → D → D
  a ⊕ b = num.add a b

  abbrev pub ◌⊖◌ : D → D → D
  a ⊖ b = num.sub a b

  abbrev pub ◌⊗◌ : D → D → D
  a ⊗ b = num.mul a b

  abbrev pub ◌⊘◌ : D → D → D
  a ⊘ b = num.div a b

  abbrev pub ◌≺◌ : D → D → Bool
  a ≺ b = num.lt a b

  abbrev pub ◌≼◌ : D → D → Bool
  a ≼ b = num.le a b

  abbrev pub ◌≈◌ : D → D → Bool
  a ≈ b = num.eq a b

  abbrev pub nought : D
  nought = num.of_ℕ 0

  -- the built-in `abs`
  abbrev pub abs : D → D
  abs a = if a ≺ nought then num.neg a else a

  -- the built-in `max` of two: the first of equal ones
  abbrev pub max_of : D → D → D
  max_of a b = if a ≺ b then b else a
