-- ===== src/Prelude/Utf8.antt =====
-- `String::from_utf8`: which byte sequences are UTF-8 (the standard's table of well-formed
-- sequences). A Rust `String` is a list of bytes that passes this test.
use mirrorscope.Prelude.Tests.{leb, ltb, ◌==◌, if◌then◌else◌}
use mirrorscope.Prelude.Bytes.{Bytes}
use Prim.Native.Nat.{ℕ, zero, suc}
use mathlib.Core.Bool.{Bool, true, false, ◌&&◌}
use mathlib.Core.List.{[], ◌∷◌}
use mathlib.Core.Option.{Option, none, some}

-- Between two characters, or inside one: the range of the next byte, and how many follow it.
pub data Utf8State : Type 0 where
  boundary : Utf8State
  inside : ℕ → ℕ → ℕ → Utf8State

unfoldable pub lead_byte : ℕ → Option Utf8State
lead_byte b =
    if ltb b 0x80
    then some boundary
    else if leb 0xc2 b && leb b 0xdf
    then some (inside 0x80 0xbf 0)
    else if b == 0xe0
    then some (inside 0xa0 0xbf 1)
    else if b == 0xed
    then some (inside 0x80 0x9f 1)
    else if leb 0xe1 b && leb b 0xef
    then some (inside 0x80 0xbf 1)
    else if b == 0xf0
    then some (inside 0x90 0xbf 2)
    else if leb 0xf1 b && leb b 0xf3
    then some (inside 0x80 0xbf 2)
    else if b == 0xf4
    then some (inside 0x80 0x8f 2)
    else none

abbrev next_state : ℕ → Utf8State
next_state zero = boundary
next_state (suc n) = inside 0x80 0xbf n

unfoldable pub utf8_step : Utf8State → ℕ → Option Utf8State
unfolding lead_byte
utf8_step boundary b = lead_byte b
utf8_step (inside lo hi n) b = if leb lo b && leb b hi then some (next_state n) else none

unfoldable pub utf8_from : Utf8State → Bytes → Bool
unfolding utf8_step
utf8_from boundary [] = true
utf8_from (inside lo hi n) [] = false
utf8_from s (b ∷ bs) = elim (utf8_step s b) [ none ↦ false | some s' ↦ utf8_from s' bs ]

unfoldable pub is_utf8 : Bytes → Bool
unfolding utf8_from
is_utf8 bs = utf8_from boundary bs
