-- ===== src/Base/Int.antt =====
-- Signed integers, as far as the C interface returns them.
use Prim.Native.Nat.{ℕ}

-- `negsuc n` is -(n + 1)
pub data ℤ : Type 0 where
  pos : ℕ → ℤ
  negsuc : ℕ → ℤ
