-- ===== src/Decoder/Go/Version.antt =====
-- crates/decoder/src/go/version.rs: the version of the Go toolchain, from its text and from the
-- bytes of a program.
pub mod RoundTrip
use mirrorscope.Prelude.{
  ℕ, zero, suc, ◌+◌, ◌^◌, ◌==◌, if◌then◌else◌, Option, none, some, List, [], ◌∷◌, length, take,
  drop,
}
use mirrorscope.Prelude.Bytes.{Bytes}
use mirrorscope.Prelude.Utf8.{is_utf8}
use mirrorscope.Prelude.Text.{codes, strip_prefix, is_ascii_digit, parse_unsigned}

pub record GoVersion : Type 0 where
  pub major : ℕ
  pub minor : ℕ
  pub patch : ℕ

-- `text.split(sep)`, its first piece apart.
unfoldable pub split : ℕ → Bytes → Bytes × List Bytes
split sep [] = ([], [])
split sep (c ∷ cs) =
    let (piece, pieces) = split sep cs in
    if c == sep then ([], piece ∷ pieces) else (c ∷ piece, pieces)

unfoldable pub leading_digits : Bytes → Bytes
leading_digits [] = []
leading_digits (c ∷ cs) = let rest = leading_digits cs in if is_ascii_digit c then c ∷ rest else []

-- With no digit at the front there is nothing to parse.
unfoldable pub parse_leading_number : Bytes → Option ℕ
unfolding leading_digits parse_unsigned
parse_leading_number s =
    if length (leading_digits s) == 0 then none else parse_unsigned (2 ^ 16) (leading_digits s)

abbrev unwrap_or {ℓ} : {A : Type ℓ} → A → Option A → A
unwrap_or a none = a
unwrap_or a (some b) = b

unfoldable pub patch_of : List Bytes → ℕ
unfolding parse_leading_number
patch_of [] = 0
patch_of (third ∷ rest) = unwrap_or 0 (parse_leading_number third)

unfoldable pub parse_parts : Bytes → List Bytes → Option GoVersion
unfolding parse_leading_number patch_of
parse_parts first [] = none
parse_parts first (second ∷ rest) = elim (parse_leading_number first) [
  | none ↦ none
  | some major ↦ elim (parse_leading_number second) [
    | none ↦ none
    | some minor ↦ some (record { major = major; minor = minor; patch = patch_of rest })
  ]
]

unfoldable pub parse : Bytes → Option GoVersion
unfolding split parse_parts
parse text =
    let digits = unwrap_or text (strip_prefix (codes "go") text) in
    let (first, rest) = split b'.' digits in parse_parts first rest

-- `find_subslice(image, b"go1.")`
unfoldable pub find_marker : Bytes → Option ℕ
find_marker [] = none
find_marker (c ∷ cs) =
    let later = find_marker cs in
    elim (strip_prefix (codes "go1.") (c ∷ cs)) [
      | some rest ↦ some 0
      | none ↦ elim later [ none ↦ none | some pos ↦ some (suc pos) ]
    ]

-- The text of at most 16 bytes that a marker starts.
unfoldable pub candidate : Bytes → Option GoVersion
unfolding parse is_utf8
candidate image = let text = take 16 image in if is_utf8 text then parse text else none

-- The search goes on behind a marker that starts no version. Each round drops some of the image,
-- whose length is fuel enough.
unfoldable pub detect_from : (fuel : ℕ) → Bytes → Option GoVersion
unfolding find_marker candidate
detect_from zero image = none
detect_from (suc fuel) image = elim (find_marker image) [
  | none ↦ none
  | some pos ↦ elim (candidate (drop pos image)) [
    | some version ↦ some version
    | none ↦ detect_from fuel (drop (pos + 4) image)
  ]
]

unfoldable pub detect_in_bytes : Bytes → Option GoVersion
unfolding detect_from
detect_in_bytes image = detect_from (length image) image
