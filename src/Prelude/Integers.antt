-- ===== src/Prelude/Integers.antt =====
-- Integers over the native naturals.
use Prim.Native.Nat.{ℕ, zero, suc}

pub data ℤ : Type 0 where
  pos : ℕ → ℤ
  -- `negsuc n` is `- n - 1`
  negsuc : ℕ → ℤ

-- `n - 1`
abbrev pub before : ℕ → ℤ
before zero = negsuc 0
before (suc n) = pos n
