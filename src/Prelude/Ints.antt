-- ===== src/Prelude/Ints.antt =====
-- Signed words: `i32` and `i64` as integers in range, and the bit patterns that `as` and
-- `to_le_bytes` give them.
use Prim.Native.Nat.{ℕ, ◌+◌, ◌-◌, ◌%◌, ◌^◌, ◌<◌}
use mathlib.Core.Path.{◌≡◌}
use mathlib.Core.Bool.{Bool, false}
use native.Mathlib.Omega.{arith}
use mirrorscope.Prelude.Tests.{ltb, ◌==◌, if◌then◌else◌}

-- `negsuc n` is -(n + 1).
pub data ℤ : Type 0 where
  pos : ℕ → ℤ
  negsuc : ℕ → ℤ

-- The values of an `i32` and of an `i64`.
abbrev pub IsI32 : ℤ → Type 0
IsI32 (pos n) = n < 2 ^ 31
IsI32 (negsuc n) = n < 2 ^ 31

abbrev pub IsI64 : ℤ → Type 0
IsI64 (pos n) = n < 2 ^ 63
IsI64 (negsuc n) = n < 2 ^ 63

-- The two's complement pattern, `z as u64`, in `w` bits.
abbrev pub to_bits : ℕ → ℤ → ℕ
to_bits w (pos n) = n % 2 ^ w
to_bits w (negsuc n) = 2 ^ w - 1 - n % 2 ^ w

-- `n as i64`: the integer of a pattern of `w` bits.
abbrev pub of_bits : ℕ → ℕ → ℤ
of_bits w n = if ltb (n + n) (2 ^ w) then pos n else negsuc (2 ^ w - 1 - n)

abbrev pub eq_ℤ : ℤ → ℤ → Bool
eq_ℤ (pos a) (pos b) = a == b
eq_ℤ (negsuc a) (negsuc b) = a == b
eq_ℤ _ _ = false

pub of_bits-to_bits_32 : (z : ℤ) → IsI32 z → of_bits 32 (to_bits 32 z) ≡ z
of_bits-to_bits_32 (pos n) h = ground arith
of_bits-to_bits_32 (negsuc n) h = ground arith

pub of_bits-to_bits_64 : (z : ℤ) → IsI64 z → of_bits 64 (to_bits 64 z) ≡ z
of_bits-to_bits_64 (pos n) h = ground arith
of_bits-to_bits_64 (negsuc n) h = ground arith

pub to_bits-lt : (z : ℤ) → (to_bits 32 z < 2 ^ 32) × (to_bits 64 z < 2 ^ 64)
to_bits-lt (pos n) = omega arith
to_bits-lt (negsuc n) = omega arith

pub to_bits-of_bits_32 : (n : ℕ) → n < 2 ^ 32 → to_bits 32 (of_bits 32 n) ≡ n
to_bits-of_bits_32 n h = ground arith

pub to_bits-of_bits_64 : (n : ℕ) → n < 2 ^ 64 → to_bits 64 (of_bits 64 n) ≡ n
to_bits-of_bits_64 n h = ground arith
