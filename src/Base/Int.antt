-- ===== src/Base/Int.antt =====
-- Go's int where its sign matters.
use Prim.Native.Nat.{ℕ}

pub data ℤ : Type 0 where
  pos : ℕ → ℤ
  -- `negsuc n` is - (n + 1).
  negsuc : ℕ → ℤ
