-- ===== src/Prelude/Bits.antt =====
-- Low bits of a word, and shifts, in arithmetic: `x & 7`, `x & !7`, `x << k` and single bits.
use Prim.Native.Nat.{ℕ, zero, suc, ◌*◌, ◌/◌, ◌%◌, ◌^◌, ◌<◌}
use mathlib.Core.Path.{◌≡◌}
use mathlib.Core.Bool.{Bool, true, false, not}
use native.Mathlib.Omega.{arith}
use mirrorscope.Prelude.Tests.{◌==◌, if◌then◌else◌}

-- `x & (2^k - 1)` and `x & !(2^k - 1)`.
abbrev pub low_bits : ℕ → ℕ → ℕ
low_bits x k = x % 2 ^ k

abbrev pub clear_low_bits : ℕ → ℕ → ℕ
clear_low_bits x k = x / 2 ^ k * 2 ^ k

abbrev pub shl : ℕ → ℕ → ℕ
shl x k = x * 2 ^ k

-- Bit `i` of a word, and the field of `w` bits from bit `i` on.
abbrev pub bit : ℕ → ℕ → Bool
bit x i = x / 2 ^ i % 2 == 1

abbrev pub field : ℕ → ℕ → ℕ → ℕ
field x i w = x / 2 ^ i % 2 ^ w

-- `(0..bound).all(test)`, by counting the bound down.
unfoldable pub every_below : (ℕ → Bool) → ℕ → Bool
every_below test zero = true
every_below test (suc top) = if test top then every_below test top else false

pub every_below_lem :
    (test : ℕ → Bool) (bound i : ℕ) → i < bound → every_below test bound ≡ true → test i ≡ true
unfolding every_below
every_below_lem test zero i below all = absurd (omega arith)
every_below_lem test (suc top) i below all = ground (arith, every_below_lem test top i)

abbrev pub eq_Bool : Bool → Bool → Bool
eq_Bool true b = b
eq_Bool false b = not b

pub eq_Bool→eq : (a b : Bool) → eq_Bool a b ≡ true → a ≡ b
eq_Bool→eq a b h = ground arith
