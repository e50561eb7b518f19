-- ===== src/Dap/Text.antt =====
-- `str::trim` and `trim_end`, on the bytes of a text: what crates/dap/src/transport.rs uses of them.
use mirrorscope.Prelude.{
  ℕ, zero, suc, ◌≡◌, ◌≤◌, ◌<◌, arith, refl, leb, ◌==◌, if◌then◌else◌, Bool, false, ◌||◌, ◌&&◌,
  Option, none, some, [], ◌∷◌, ◌++◌, length, length-append, All,
}
use mirrorscope.Prelude.Bytes.{Bytes}

abbrev pub is_ascii_space : ℕ → Bool
is_ascii_space c = leb 9 c && leb c 13 || c == 32

-- The other characters with the property `White_Space`, by their bytes: U+0085 and U+00A0, then
-- U+1680, U+2000 to U+200A, U+2028, U+2029, U+202F, U+205F and U+3000.
abbrev two_byte_space : ℕ → ℕ → Bool
two_byte_space c d = c == 0xc2 && (d == 0x85 || d == 0xa0)

abbrev general_space : ℕ → Bool
general_space e = leb 0x80 e && leb e 0x8a || e == 0xa8 || e == 0xa9 || e == 0xaf

abbrev three_byte_space : ℕ → ℕ → ℕ → Bool
three_byte_space c d e =
    c == 0xe1 && d == 0x9a && e == 0x80
    || c == 0xe2 && d == 0x80 && general_space e
    || c == 0xe2 && d == 0x81 && e == 0x9f
    || c == 0xe3 && d == 0x80 && e == 0x80

-- The text behind a white character.
unfoldable pub skip_space : Bytes → Option Bytes
skip_space [] = none
skip_space (c ∷ []) = if is_ascii_space c then some [] else none
skip_space (c ∷ d ∷ []) =
    if is_ascii_space c then some (d ∷ []) else if two_byte_space c d then some [] else none
skip_space (c ∷ d ∷ e ∷ rest) =
    if is_ascii_space c
    then some (d ∷ e ∷ rest)
    else if two_byte_space c d
    then some (e ∷ rest)
    else if three_byte_space c d e
    then some rest
    else none

-- The length of the text is fuel enough, as each white character takes a byte at least.
unfoldable pub trim_start_from : (fuel : ℕ) → Bytes → Bytes
unfolding skip_space
trim_start_from zero text = text
trim_start_from (suc fuel) text = elim (skip_space text) [
  | none ↦ text
  | some rest ↦ trim_start_from fuel rest
]

unfoldable pub trim_start : Bytes → Bytes
unfolding trim_start_from
trim_start text = trim_start_from (length text) text

unfoldable pub is_blank : Bytes → Bool
unfolding trim_start
is_blank text = length (trim_start text) == 0

-- Cut at the first position behind which all is white. No white character starts inside another
-- character.
unfoldable pub trim_end : Bytes → Bytes
unfolding is_blank
trim_end [] = []
trim_end (c ∷ cs) = let rest = trim_end cs in if is_blank (c ∷ cs) then [] else c ∷ rest

unfoldable pub trim : Bytes → Bytes
unfolding trim_start trim_end
trim text = trim_end (trim_start text)

-- A visible ASCII character.
abbrev pub IsVisible : ℕ → Type 0
IsVisible c = (33 ≤ c) × (c < 127)

abbrev pub IsAscii : ℕ → Type 0
IsAscii c = c < 127

skip_space-IsVisible : (c : ℕ) (rest : Bytes) → IsVisible c → skip_space (c ∷ rest) ≡ none
unfolding skip_space
skip_space-IsVisible c [] h = ground arith
skip_space-IsVisible c (d ∷ []) h = ground arith
skip_space-IsVisible c (d ∷ e ∷ rest) h = ground arith

skip_space-IsAscii :
    (c : ℕ) (rest : Bytes)
    → IsAscii c
    → skip_space (c ∷ rest) ≡ (if is_ascii_space c then some rest else none)
unfolding skip_space
skip_space-IsAscii c [] h = refl
skip_space-IsAscii c (d ∷ []) h = ground arith
skip_space-IsAscii c (d ∷ e ∷ rest) h = ground arith

trim_start_from-visible :
    (fuel : ℕ) (xs : Bytes) (c : ℕ) (rest : Bytes)
    → All IsAscii xs
    → IsVisible c
    → 0 < length (trim_start_from fuel (xs ++ c ∷ rest))
unfolding trim_start_from
trim_start_from-visible zero xs c rest ascii h = omega (arith, length-append xs (c ∷ rest))
trim_start_from-visible (suc fuel) [] c rest ascii h = ground (arith, skip_space-IsVisible c rest h)
trim_start_from-visible (suc fuel) (x ∷ xs) c rest ascii h = ground (
  arith,
  skip_space-IsAscii x (xs ++ c ∷ rest) ascii.0,
  trim_start_from-visible fuel xs c rest ascii.1 h,
)

is_blank-visible :
    (xs : Bytes) (c : ℕ) (rest : Bytes)
    → All IsAscii xs
    → IsVisible c
    → is_blank (xs ++ c ∷ rest) ≡ false
unfolding is_blank trim_start
is_blank-visible xs c rest ascii h =
    ground (arith, trim_start_from-visible (length (xs ++ c ∷ rest)) xs c rest ascii h)

-- White space behind a visible character is cut off.
pub trim_end-visible :
    (xs : Bytes) (c : ℕ) (rest : Bytes)
    → All IsAscii xs
    → IsVisible c
    → trim_end rest ≡ []
    → trim_end (xs ++ c ∷ rest) ≡ xs ++ c ∷ []
unfolding trim_end
trim_end-visible [] c rest ascii h blank = ground (arith, is_blank-visible [] c rest tt h)
trim_end-visible (x ∷ xs) c rest ascii h blank =
    ground
      (arith, is_blank-visible (x ∷ xs) c rest ascii h, trim_end-visible xs c rest ascii.1 h blank)

pub trim_start-visible : (c : ℕ) (rest : Bytes) → IsVisible c → trim_start (c ∷ rest) ≡ c ∷ rest
unfolding trim_start trim_start_from
trim_start-visible c rest h = ground (arith, skip_space-IsVisible c rest h)

-- A space in front of a visible character is dropped.
pub trim_start-space :
    (c : ℕ) (rest : Bytes) → IsVisible c → trim_start (b' ' ∷ c ∷ rest) ≡ c ∷ rest
unfolding trim_start trim_start_from
trim_start-space c rest h =
    ground (arith, skip_space-IsAscii 32 (c ∷ rest) (omega arith), skip_space-IsVisible c rest h)
