-- ===== src/Number/Fixed.antt =====
-- The laws can be met: signed decimals with eight digits behind the point, as whole multiples of
-- 10 ^ -8. Products and quotients are rounded towards zero.
use Prim.Native.Nat.{◌/◌}
use cryptobot_v.Prelude.{
  ℕ, suc, ◌+◌, ◌-◌, ◌*◌, ◌≡◌, Bool, true, List, [], ◌∷◌, arith, ltb, leb, ◌==◌, if◌then◌else◌,
}
use cryptobot_v.Number.{Num}
use cryptobot_v.Number.Laws.{IsSigned}

-- `negsuc n` is -(n + 1).
pub data ℤ : Type 0 where
  pos : ℕ → ℤ
  negsuc : ℕ → ℤ

abbrev pub pos_part : ℤ → ℕ
pos_part (pos n) = n
pos_part (negsuc n) = 0

abbrev pub neg_part : ℤ → ℕ
neg_part (pos n) = 0
neg_part (negsuc n) = suc n

-- 1 in multiples of 10 ^ -8
abbrev pub unit : ℕ
unit = 100_000_000

-- a - b, as an integer.
abbrev pub sub_ℕ : ℕ → ℕ → ℤ
sub_ℕ a b = if leb b a then pos (a - b) else negsuc (b - a - 1)

unfoldable pub ◌+ℤ◌ : ℤ → ℤ → ℤ
◌+ℤ◌ a b = sub_ℕ (pos_part a + pos_part b) (neg_part a + neg_part b)

unfoldable pub ◌-ℤ◌ : ℤ → ℤ → ℤ
◌-ℤ◌ a b = sub_ℕ (pos_part a + neg_part b) (neg_part a + pos_part b)

unfoldable pub ◌*ℤ◌ : ℤ → ℤ → ℤ
◌*ℤ◌ a b =
    sub_ℕ ((pos_part a * pos_part b + neg_part a * neg_part b) / unit)
      ((pos_part a * neg_part b + neg_part a * pos_part b) / unit)

-- One of the parts of each operand is 0.
unfoldable pub ◌/ℤ◌ : ℤ → ℤ → ℤ
◌/ℤ◌ a b =
    sub_ℕ (pos_part a * unit / pos_part b + neg_part a * unit / neg_part b)
      (pos_part a * unit / neg_part b + neg_part a * unit / pos_part b)

abbrev pub lt_ℤ : ℤ → ℤ → Bool
lt_ℤ a b = ltb (pos_part a + neg_part b) (pos_part b + neg_part a)

abbrev pub le_ℤ : ℤ → ℤ → Bool
le_ℤ a b = leb (pos_part a + neg_part b) (pos_part b + neg_part a)

abbrev pub eq_ℤ : ℤ → ℤ → Bool
eq_ℤ a b = (pos_part a + neg_part b) == (pos_part b + neg_part a)

unfoldable pub trunc_ℤ : ℤ → ℤ
trunc_ℤ a = sub_ℕ (pos_part a / unit * unit) (neg_part a / unit * unit)

unfoldable pub sum_ℤ : List ℤ → ℤ
unfolding ◌+ℤ◌
sum_ℤ [] = pos 0
sum_ℤ (x ∷ xs) = ◌+ℤ◌ x (sum_ℤ xs)

instance abbrev pub fixed : Num ℤ
fixed = record {
  of_ℕ = λ n. pos (n * unit);
  add = ◌+ℤ◌;
  sub = ◌-ℤ◌;
  mul = ◌*ℤ◌;
  div = ◌/ℤ◌;
  neg = ◌-ℤ◌ (pos 0);
  lt = lt_ℤ;
  le = le_ℤ;
  eq = eq_ℤ;
  trunc = trunc_ℤ;
  sum = sum_ℤ;
}

add_nonneg :
    (a b : ℤ) → le_ℤ (pos 0) a ≡ true → le_ℤ (pos 0) b ≡ true → le_ℤ (pos 0) (◌+ℤ◌ a b) ≡ true
unfolding ◌+ℤ◌
add_nonneg (pos a) (pos b) h k = ground arith
add_nonneg _ _ h k = ground arith

mul_nonneg :
    (a b : ℤ) → le_ℤ (pos 0) a ≡ true → le_ℤ (pos 0) b ≡ true → le_ℤ (pos 0) (◌*ℤ◌ a b) ≡ true
unfolding ◌*ℤ◌
mul_nonneg (pos a) (pos b) h k = ground arith
mul_nonneg _ _ h k = ground arith

div_nonneg :
    (a b : ℤ) → le_ℤ (pos 0) a ≡ true → le_ℤ (pos 0) b ≡ true → le_ℤ (pos 0) (◌/ℤ◌ a b) ≡ true
unfolding ◌/ℤ◌
div_nonneg (pos a) (pos b) h k = ground arith
div_nonneg _ _ h k = ground arith

pub ℤ-IsSigned : IsSigned ℤ
ℤ-IsSigned = record {
  le_trans = λ a b c h k. ground arith;
  le_of_lt = λ a b h. ground arith;
  of_ℕ_nonneg = λ n. ground arith;
  add_nonneg = add_nonneg;
  mul_nonneg = mul_nonneg;
  div_nonneg = div_nonneg;
}
