-- ===== src/Prelude/Int.antt =====
-- Signed numbers of the source, where -1 stands for "none" and the sign is tested.
use Prim.Native.Nat.{ℕ}

-- `negsuc n` is -(n + 1).
pub data ℤ : Type 0 where
  pos : ℕ → ℤ
  negsuc : ℕ → ℤ
