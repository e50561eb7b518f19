-- ===== src/Decoder/Go/Version/RoundTrip.antt =====
-- The version that a printed version (crates/decoder/src/go/version.rs) parses to.
use mirrorscope.Prelude.{ℕ, ◌≡◌, ◌<◌, ◌^◌, arith, refl, some, [], ◌∷◌, ◌++◌, All}
use mirrorscope.Prelude.Bytes.{Bytes}
use mirrorscope.Prelude.Text.{
  codes, decimal, decimal-IsDigit, parse_unsigned-decimal, IsDigit, strip_prefix-append,
}
use mirrorscope.Decoder.Go.Version.{
  GoVersion, split, leading_digits, parse_leading_number, patch_of, parse_parts, parse,
}

split-IsDigit :
    (xs rest : Bytes)
    → All IsDigit xs
    → split b'.' (xs ++ b'.' ∷ rest) ≡ (xs, (split b'.' rest).0 ∷ (split b'.' rest).1)
unfolding split
split-IsDigit [] rest h = refl
split-IsDigit (c ∷ xs) rest h = ground (arith, split-IsDigit xs rest h.1, h.0)

split-last : (xs : Bytes) → All IsDigit xs → split b'.' xs ≡ (xs, [])
unfolding split
split-last [] h = refl
split-last (c ∷ xs) h = ground (arith, split-last xs h.1, h.0)

leading_digits-IsDigit : (xs : Bytes) → All IsDigit xs → leading_digits xs ≡ xs
unfolding leading_digits
leading_digits-IsDigit [] h = refl
leading_digits-IsDigit (c ∷ xs) h = ground (arith, leading_digits-IsDigit xs h.1, h.0)

parse_leading_number-decimal : (n : ℕ) → n < 2 ^ 16 → parse_leading_number (decimal n) ≡ some n
unfolding parse_leading_number
parse_leading_number-decimal n h =
    let (digit, some_digit) = decimal-IsDigit n in
    rw (leading_digits-IsDigit (decimal n) digit)
      (ground (arith, some_digit, parse_unsigned-decimal (2 ^ 16) n h (omega (arith, h))))

-- The text of a version, as the toolchain embeds it.
abbrev pub version_text : GoVersion → Bytes
version_text v = codes "go" ++ decimal v.major ++ b'.' ∷ (decimal v.minor ++ b'.' ∷ decimal v.patch)

-- A version whose numbers are 16-bit is parsed from its text "go<major>.<minor>.<patch>".
pub parse-version_text :
    (v : GoVersion)
    → v.major < 2 ^ 16
    → v.minor < 2 ^ 16
    → v.patch < 2 ^ 16
    → parse (version_text v) ≡ some v
unfolding parse parse_parts patch_of
parse-version_text v h1 h2 h3 =
    rw
      (
        strip_prefix-append (codes "go")
            (decimal v.major ++ b'.' ∷ (decimal v.minor ++ b'.' ∷ decimal v.patch)),
        split-IsDigit (decimal v.major) (decimal v.minor ++ b'.' ∷ decimal v.patch)
            (decimal-IsDigit v.major).0,
        split-IsDigit (decimal v.minor) (decimal v.patch) (decimal-IsDigit v.minor).0,
        split-last (decimal v.patch) (decimal-IsDigit v.patch).0,
      )
      (ground (
        arith,
        parse_leading_number-decimal v.major h1,
        parse_leading_number-decimal v.minor h2,
        parse_leading_number-decimal v.patch h3,
      ))
