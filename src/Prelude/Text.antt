-- ===== src/Prelude/Text.antt =====
-- Text as the program uses it: literals as bytes, `format!` of numbers in decimal and hexadecimal,
-- `str::parse` of an unsigned number, and prefixes.
use Prim.Native.Char.{code}
use Prim.Native.String.{String}
use Prim.Native.Nat.{ℕ, zero, suc, ◌+◌, ◌-◌, ◌*◌, ◌/◌, ◌%◌, ◌^◌, ◌≤◌, ◌<◌}
use mathlib.Core.Path.{◌≡◌, refl, ◌∙◌}
use mathlib.Core.Bool.{Bool, true, false, ◌&&◌}
use mathlib.Core.List.{[], ◌∷◌, ◌++◌}
use mathlib.Core.Option.{Option, none, some}
use native.Mathlib.Nat.{pow-suc}
use native.Mathlib.Omega.{arith}
use mirrorscope.Prelude.Tests.{ltb, leb, ◌==◌, if◌then◌else◌}
use mirrorscope.Prelude.Lists.{length, length-append, All, All-append}
use mirrorscope.Prelude.Bytes.{Bytes}

-- The bytes of an ASCII literal.
abbrev pub codes : String → Bytes
codes String.[] = []
codes (String.◌∷◌ c s) = code c ∷ codes s

abbrev pub eq_Bytes : Bytes → Bytes → Bool
eq_Bytes [] [] = true
eq_Bytes [] (y ∷ ys) = false
eq_Bytes (x ∷ xs) [] = false
eq_Bytes (x ∷ xs) (y ∷ ys) = let rest = eq_Bytes xs ys in if x == y then rest else false

pub eq_Bytes-refl : (xs : Bytes) → eq_Bytes xs xs ≡ true
eq_Bytes-refl [] = refl
eq_Bytes-refl (x ∷ xs) = ground (arith, eq_Bytes-refl xs)

pub eq_Bytes→eq : (xs ys : Bytes) → eq_Bytes xs ys ≡ true → xs ≡ ys
eq_Bytes→eq [] [] h = refl
eq_Bytes→eq [] (y ∷ ys) h = ground arith
eq_Bytes→eq (x ∷ xs) [] h = ground arith
eq_Bytes→eq (x ∷ xs) (y ∷ ys) h = ground (arith, eq_Bytes→eq xs ys)

-- `str::strip_prefix`
abbrev pub strip_prefix : Bytes → Bytes → Option Bytes
strip_prefix [] text = some text
strip_prefix (p ∷ ps) [] = none
strip_prefix (p ∷ ps) (c ∷ text) = let rest = strip_prefix ps text in if p == c then rest else none

pub strip_prefix-append : (prefix text : Bytes) → strip_prefix prefix (prefix ++ text) ≡ some text
strip_prefix-append [] text = refl
strip_prefix-append (p ∷ ps) text = ground (arith, strip_prefix-append ps text)

-- `format!("{n}")` and `format!("{n:x}")`, with fuel for the digits: a 64-bit number has at most
-- 20 decimal and 16 hexadecimal ones.
abbrev pub hex_digit : ℕ → ℕ
hex_digit d = if ltb d 10 then b'0' + d else b'a' + (d - 10)

unfoldable pub digits : (base fuel n : ℕ) → Bytes
digits base zero n = []
digits base (suc fuel) n =
    let front = digits base fuel (n / base) in
    if ltb n base then hex_digit n ∷ [] else front ++ hex_digit (n % base) ∷ []

unfoldable pub decimal : ℕ → Bytes
unfolding digits
decimal n = digits 10 20 n

unfoldable pub hex : ℕ → Bytes
unfolding digits
hex n = digits 16 16 n

abbrev pub is_ascii_digit : ℕ → Bool
is_ascii_digit c = leb b'0' c && leb c b'9'

-- The digits of `str::parse` for an unsigned type whose values lie below `limit`.
unfoldable pub parse_digits : (limit acc : ℕ) → Bytes → Option ℕ
parse_digits limit acc [] = some acc
parse_digits limit acc (c ∷ cs) =
    let next = 10 * acc + (c - b'0') in
    let rest = parse_digits limit next cs in
    if is_ascii_digit c && ltb next limit then rest else none

-- `str::parse`: an optional `+`, then at least one digit.
unfoldable pub parse_unsigned : (limit : ℕ) → Bytes → Option ℕ
unfolding parse_digits
parse_unsigned limit [] = none
parse_unsigned limit (c ∷ []) = parse_digits limit 0 (c ∷ [])
parse_unsigned limit (c ∷ d ∷ cs) =
    if c == b'+' then parse_digits limit 0 (d ∷ cs) else parse_digits limit 0 (c ∷ d ∷ cs)

parse_digits-snoc :
    (limit acc n c : ℕ) (xs : Bytes)
    → parse_digits limit acc xs ≡ some n
    → is_ascii_digit c ≡ true
    → 10 * n + (c - b'0') < limit
    → parse_digits limit acc (xs ++ c ∷ []) ≡ some (10 * n + (c - b'0'))
unfolding parse_digits
parse_digits-snoc limit acc n c [] h d lt = ground arith
parse_digits-snoc limit acc n c (x ∷ xs) h d lt =
    ground (arith, parse_digits-snoc limit (10 * acc + (x - b'0')) n c xs)

abbrev pub IsDigit : ℕ → Type 0
IsDigit c = (b'0' ≤ c) × (c ≤ b'9')

pub digits-IsDigit : (fuel n : ℕ) → All IsDigit (digits 10 fuel n)
unfolding digits
digits-IsDigit zero n = tt
digits-IsDigit (suc fuel) n =
    let last : All IsDigit (hex_digit (n % 10) ∷ []) = (ground arith, tt) in
    ground (
      arith,
      All-append IsDigit (digits 10 fuel (n / 10)) (hex_digit (n % 10) ∷ [])
          (digits-IsDigit fuel (n / 10)) last,
    )

parse_digits-digits :
    (limit fuel n : ℕ)
    → n < limit
    → n < 10 ^ fuel
    → parse_digits limit 0 (digits 10 fuel n) ≡ some n
unfolding digits parse_digits
parse_digits-digits limit zero n lt enough = ground arith
parse_digits-digits limit (suc fuel) n lt enough =
    let small : n / 10 < 10 ^ fuel = omega (arith, enough, pow-suc 10 fuel) in
    let last : (hex_digit (n % 10) ≡ b'0' + n % 10) = ground arith in
    let front = parse_digits-digits limit fuel (n / 10) (omega (arith, lt)) small in
    ground (
      arith,
      last,
      parse_digits-snoc limit 0 (n / 10) (hex_digit (n % 10)) (digits 10 fuel (n / 10)) front
          (ground arith) (ground arith),
    )

digits-pos : (base fuel n : ℕ) → 0 < length (digits base (suc fuel) n)
unfolding digits
digits-pos base fuel n =
    ground (arith, length-append (digits base fuel (n / base)) (hex_digit (n % base) ∷ []))

parse_unsigned-IsDigit :
    (limit : ℕ) (xs : Bytes)
    → All IsDigit xs
    → 0 < length xs
    → parse_unsigned limit xs ≡ parse_digits limit 0 xs
unfolding parse_unsigned
parse_unsigned-IsDigit limit [] ds h = absurd (omega arith)
parse_unsigned-IsDigit limit (c ∷ []) ds h = refl
parse_unsigned-IsDigit limit (c ∷ d ∷ cs) ds h = ground (arith, ds.0)

pub decimal-IsDigit : (n : ℕ) → All IsDigit (decimal n) × (0 < length (decimal n))
unfolding decimal
decimal-IsDigit n = (digits-IsDigit 20 n, digits-pos 10 19 n)

pub parse_unsigned-decimal :
    (limit n : ℕ) → n < limit → n < 2 ^ 64 → parse_unsigned limit (decimal n) ≡ some n
unfolding decimal
parse_unsigned-decimal limit n lt word =
    parse_unsigned-IsDigit limit (digits 10 20 n) (digits-IsDigit 20 n) (digits-pos 10 19 n)
    ∙ parse_digits-digits limit 20 n lt (omega arith)
