-- ===== src/Base/Integers.antt =====
-- Go's integers that may be negative.
use Prim.Native.Nat.{ℕ}

-- Go's `int`; `negsuc n` is -(n + 1).
pub data ℤ : Type 0 where
  pos : ℕ → ℤ
  negsuc : ℕ → ℤ
