-- ===== src/Base/Ints.antt =====
-- The signed numbers of the source, over the native numbers.
use Prim.Native.Nat.{ℕ}

-- An `i32`: no operation of the program brings one out of its range.
pub data ℤ : Type 0 where
  pos negsuc : ℕ → ℤ
