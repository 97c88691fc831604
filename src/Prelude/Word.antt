-- ===== src/Prelude/Word.antt =====
-- Rust's fixed-width unsigned arithmetic: `saturating_*`, and `as` between widths.
use Prim.Native.Nat.{ℕ, ◌+◌, ◌-◌, ◌*◌, ◌%◌, ◌^◌, min}

abbrev pub u32_max : ℕ
u32_max = 2 ^ 32 - 1

abbrev pub u64_max : ℕ
u64_max = 2 ^ 64 - 1

-- u64::saturating_add
abbrev pub saturating_add : ℕ → ℕ → ℕ
saturating_add a b = min (a + b) u64_max

-- u32::saturating_add
abbrev pub saturating_add_u32 : ℕ → ℕ → ℕ
saturating_add_u32 a b = min (a + b) u32_max

-- u64::saturating_mul
abbrev pub saturating_mul : ℕ → ℕ → ℕ
saturating_mul a b = min (a * b) u64_max

-- u64::saturating_sub: subtraction on ℕ stops at 0 as this does.
abbrev pub saturating_sub : ℕ → ℕ → ℕ
saturating_sub a b = a - b

-- x as u32
abbrev pub as_u32 : ℕ → ℕ
as_u32 x = x % 2 ^ 32

-- x as u64
abbrev pub as_u64 : ℕ → ℕ
as_u64 x = x % 2 ^ 64
