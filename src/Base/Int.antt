-- ===== src/Base/Int.antt =====
-- Signed integers of any size over the native numbers, and what the program does with them: division
-- by a positive number, which rounds towards zero, and the magnitude.
use Prim.Native.Nat.{ℕ, zero, suc, ◌/◌}

pub data ℤ : Type 0 where
  pos : ℕ → ℤ
  negsuc : ℕ → ℤ  -- negsuc n is -(n + 1)

abbrev pub nat_abs : ℤ → ℕ
nat_abs (pos n) = n
nat_abs (negsuc n) = suc n

abbrev pub neg_ℤ : ℤ → ℤ
neg_ℤ (pos zero) = pos zero
neg_ℤ (pos (suc n)) = negsuc n
neg_ℤ (negsuc n) = pos (suc n)

abbrev pub tdiv : ℤ → ℕ → ℤ
tdiv (pos n) g = pos (n / g)
tdiv (negsuc n) g = neg_ℤ (pos (suc n / g))
