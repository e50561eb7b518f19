-- ===== src/Prelude/Bytes.antt =====
-- Byte slices and the little-endian forms of unsigned words: what the program uses of `u16`, `u32`
-- and `u64` (`to_le_bytes`, `from_le_bytes`), of slices (`get`, indexing) and of `checked_add`.
use mirrorscope.Prelude.Lists.{
  length, take, drop, All, drop-length_append, take-length_append, take-length,
}
use mirrorscope.Prelude.Lists.{length-append, length-drop, drop-drop}
use mirrorscope.Prelude.Tests.{ltb, leb, le→leb, if◌then◌else◌}
use Prim.Native.Nat.{ℕ, zero, suc, ◌+◌, ◌-◌, ◌*◌, ◌/◌, ◌%◌, ◌^◌, ◌≤◌, ◌<◌}
use mathlib.Core.Path.{◌≡◌, refl, ap, sym, ◌∙◌}
use mathlib.Core.Bool.{◌&&◌}
use mathlib.Core.List.{List, [], ◌∷◌, ◌++◌}
use mathlib.Core.Option.{Option, none, some}
use native.Mathlib.Nat.{pow-suc}
use native.Mathlib.Omega.{arith}

abbrev pub Bytes : Type 0
Bytes = List ℕ

abbrev pub IsByte : ℕ → Type 0
IsByte b = b < 256

-- `v.to_le_bytes()` of a word of `w` bytes.
abbrev pub le_bytes : ℕ → ℕ → Bytes
le_bytes zero v = []
le_bytes (suc w) v = (v % 256) ∷ le_bytes w (v / 256)

-- `from_le_bytes`
abbrev pub from_le : Bytes → ℕ
from_le [] = 0
from_le (b ∷ bs) = b + 256 * from_le bs

pub length-le_bytes : (w v : ℕ) → length (le_bytes w v) ≡ w
length-le_bytes zero v = refl
length-le_bytes (suc w) v = ap suc (length-le_bytes w (v / 256))

pub le_bytes-IsByte : (w v : ℕ) → All IsByte (le_bytes w v)
le_bytes-IsByte zero v = tt
le_bytes-IsByte (suc w) v = (omega arith, le_bytes-IsByte w (v / 256))

low_digit : (b n : ℕ) → b < 256 → (b + 256 * n) % 256 ≡ b
low_digit b n h = omega arith

high_digits : (b n : ℕ) → b < 256 → (b + 256 * n) / 256 ≡ n
high_digits b n h = omega arith

pub from_le-le_bytes : (w v : ℕ) → v < 256 ^ w → from_le (le_bytes w v) ≡ v
from_le-le_bytes zero v h = omega arith
from_le-le_bytes (suc w) v h =
    omega (arith, from_le-le_bytes w (v / 256) (omega (arith, pow-suc 256 w)))

pub from_le-lt : (bs : Bytes) → All IsByte bs → from_le bs < 256 ^ length bs
from_le-lt [] h = omega arith
from_le-lt (b ∷ bs) h = omega (arith, from_le-lt bs h.1, pow-suc 256 (length bs))

pub le_bytes-from_le : (bs : Bytes) → All IsByte bs → le_bytes (length bs) (from_le bs) ≡ bs
le_bytes-from_le [] h = refl
le_bytes-from_le (b ∷ bs) h =
    rw (low_digit b (from_le bs) h.0, high_digits b (from_le bs) h.0, le_bytes-from_le bs h.1)

-- `buf.get(start..end)`
abbrev pub get_range : Bytes → ℕ → ℕ → Option Bytes
get_range buf start end =
    if leb start end && leb end (length buf)
    then some (take (end - start) (drop start buf))
    else none

-- `a.checked_add(b)` on a 64-bit `usize`.
abbrev pub checked_add : ℕ → ℕ → Option ℕ
checked_add a b = if ltb (a + b) (2 ^ 64) then some (a + b) else none

-- A read of the part `mid` of a buffer that goes on with `mid` at `start`.
pub get_range-drop :
    (buf mid rest : Bytes) (start : ℕ)
    → start ≤ length buf
    → drop start buf ≡ mid ++ rest
    → get_range buf start (start + length mid) ≡ some mid
get_range-drop buf mid rest start h e = rw (
  le→leb start (start + length mid) (omega arith),
  le→leb (start + length mid) (length buf) bound,
  add_sub start (length mid),
  e,
  take-length_append mid rest,
)
  where
    bound : start + length mid ≤ length buf
    bound = omega (arith, ap length e, length-drop start buf, length-append mid rest)

    add_sub : (a b : ℕ) → a + b - a ≡ b
    add_sub a b = omega arith

-- `buf[start..]`
pub get_range-suffix :
    (buf rest : Bytes) (start : ℕ)
    → start ≤ length buf
    → drop start buf ≡ rest
    → get_range buf start (length buf) ≡ some rest
get_range-suffix buf rest start h e = rw (
  le→leb start (length buf) h,
  le→leb (length buf) (length buf) (omega arith),
  e,
  ← cut,
  take-length rest,
)
  where
    cut : length rest ≡ length buf - start
    cut = omega (arith, ap length e, length-drop start buf)

-- What is left behind that part.
pub drop-length_mid :
    (buf mid rest : Bytes) (start : ℕ)
    → drop start buf ≡ mid ++ rest
    → drop (start + length mid) buf ≡ rest
drop-length_mid buf mid rest start e =
    sym (drop-drop start (length mid) buf) ∙ rw e (drop-length_append mid rest)
