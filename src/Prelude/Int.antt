-- ===== src/Prelude/Int.antt =====
-- The signed 64-bit integers, as the integers they stand for.
use Prim.Native.Nat.{ℕ}

-- `negsuc n` is -(n + 1).
pub data ℤ : Type 0 where
  pos : ℕ → ℤ
  negsuc : ℕ → ℤ
