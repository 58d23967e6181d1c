-- ===== src/Base/Integers.antt =====
-- Integers over the native numbers, for the results of `atoi` and `stoi`.
use Prim.Native.Nat.{ℕ}

-- `negsuc n` is -(n + 1).
pub data ℤ : Type 0 where
  pos negsuc : ℕ → ℤ
