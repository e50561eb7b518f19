-- ===== src/Replay/Watchpoint.antt =====
-- crates/replay/src/watchpoint.rs: which watchpoints the hardware can take, and the words for its
-- debug registers.
pub mod Encoding
use Prim.Native.Nat.{bit_or, bit_and}
use mirrorscope.Prelude.{
  ℕ, ◌+◌, ◌-◌, ◌%◌, ◌^◌, ◌==◌, leb, ◌&&◌, ◌||◌, if◌then◌else◌, Bool, Result, ok, err, ◌>>=◌, ◌>>◌,
  guard,
}
use mirrorscope.Prelude.Bits.{low_bits, clear_low_bits, shl}

pub data WatchKind : Type 0 where
  write read_write : WatchKind

pub data WatchpointError : Type 0 where
  invalid_len : (len : ℕ) → WatchpointError
  misaligned : (addr len : ℕ) → WatchpointError

unfoldable pub is_valid_len : ℕ → Bool
is_valid_len len = len == 1 || (len == 2 || (len == 4 || len == 8))

unfoldable pub fits_in_granule : ℕ → ℕ → Bool
fits_in_granule addr len = let offset = low_bits addr 3 in leb (offset + len) 8

unfoldable pub validate : ℕ → ℕ → Result WatchpointError (Unit {0})
unfolding is_valid_len fits_in_granule
validate addr len = do
  guard (is_valid_len len) (invalid_len len)
  guard (addr % len == 0 && fits_in_granule addr len) (misaligned addr len)

unfoldable pub x86_len_bits : ℕ → Result WatchpointError ℕ
x86_len_bits len =
    if len == 1
    then ok 0
    else if len == 2
    then ok 1
    else if len == 8
    then ok 2
    else if len == 4
    then ok 3
    else err (invalid_len len)

unfoldable pub x86_rw_bits : WatchKind → ℕ
x86_rw_bits write = 1
x86_rw_bits read_write = 3

unfoldable pub x86_dr7 : WatchKind → ℕ → Result WatchpointError ℕ
unfolding x86_len_bits x86_rw_bits
x86_dr7 kind len = do
  len_bits ← x86_len_bits len
  let rw_bits = x86_rw_bits kind
  ok (bit_or (bit_or 1 (shl rw_bits 16)) (shl len_bits 18))

unfoldable pub aarch64_lsc : WatchKind → ℕ
aarch64_lsc write = 2
aarch64_lsc read_write = 3

unfoldable pub aarch64_bas : ℕ → ℕ → ℕ
aarch64_bas addr len =
    let offset = low_bits addr 3 in shl (bit_and (shl 1 len - 1) 0xff) offset % 2 ^ 32

-- The aligned address, and the control word.
unfoldable pub aarch64_control : ℕ → ℕ → WatchKind → Result WatchpointError (ℕ × ℕ)
unfolding is_valid_len aarch64_lsc aarch64_bas
aarch64_control addr len kind = do
  guard (is_valid_len len) (invalid_len len)
  let aligned = clear_low_bits addr 3
  let enable : ℕ = 1
  let pac = shl 2 1
  let lsc = shl (aarch64_lsc kind) 3
  let bas = shl (aarch64_bas addr len) 5 % 2 ^ 32
  ok (aligned, bit_or (bit_or (bit_or enable pac) lsc) bas)
