-- ===== src/Base/Int.antt =====
-- Python's signed integers over the native numbers.
use Prim.Native.Nat.{ℕ}

-- `negsuc n` is -(n + 1).
pub data ℤ : Type 0 where
  pos : ℕ → ℤ
  negsuc : ℕ → ℤ

-- `max(0, value)`
abbrev pub nonneg_part : ℤ → ℕ
nonneg_part (pos n) = n
nonneg_part (negsuc n) = 0
