-- ===== src/Prelude/Int.antt =====
-- Signed numbers: Rust's `i64`, in range.
use Prim.Native.Nat.{ℕ}

-- `negsuc n` is -(n + 1).
pub data ℤ : Type 0 where
  pos : ℕ → ℤ
  negsuc : ℕ → ℤ
