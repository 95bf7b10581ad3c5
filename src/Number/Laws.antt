-- ===== src/Number/Laws.antt =====
-- What the proofs use of the numbers, in named sets of laws.
use cryptobot_v.Prelude.{ℕ, ◌≡◌, true}
use cryptobot_v.Number.{Num}

module _ (D : Type 0) ⦃num : Num D⦄ where
  -- Signs and order. They hold of rounded results too.
  pub record IsSigned : Type 0 where
    pub le_trans : (a b c : D) → num.le a b ≡ true → num.le b c ≡ true → num.le a c ≡ true
    pub le_of_lt : (a b : D) → num.lt a b ≡ true → num.le a b ≡ true
    pub of_ℕ_nonneg : (n : ℕ) → num.le (num.of_ℕ 0) (num.of_ℕ n) ≡ true
    pub add_nonneg :
        (a b : D)
        → num.le (num.of_ℕ 0) a ≡ true
        → num.le (num.of_ℕ 0) b ≡ true
        → num.le (num.of_ℕ 0) (num.add a b) ≡ true
    pub mul_nonneg :
        (a b : D)
        → num.le (num.of_ℕ 0) a ≡ true
        → num.le (num.of_ℕ 0) b ≡ true
        → num.le (num.of_ℕ 0) (num.mul a b) ≡ true
    pub div_nonneg :
        (a b : D)
        → num.le (num.of_ℕ 0) a ≡ true
        → num.le (num.of_ℕ 0) b ≡ true
        → num.le (num.of_ℕ 0) (num.div a b) ≡ true
