-- ===== src/Decoder/AsyncRust/Versions.antt =====
-- crates/decoder/src/async_rust: the versions of rustc (rustc_version.rs) and of tokio
-- (enumerate/layout.rs), and the layout that goes with a version of tokio.
use mirrorscope.Prelude.{
  ℕ, zero, suc, ◌+◌, ◌^◌, ◌==◌, leb, if◌then◌else◌, Bool, ◌&&◌, ◌||◌, Option, none, some, List, [],
  ◌∷◌, length, take, drop, Result, ok, err,
}
use mirrorscope.Prelude.Bytes.{Bytes}
use mirrorscope.Prelude.Utf8.{is_utf8}
use mirrorscope.Prelude.Text.{codes, strip_prefix, is_ascii_digit, parse_unsigned}
use mirrorscope.Decoder.Go.Version.{split, parse_leading_number, patch_of}
use mirrorscope.Decoder.AsyncRust.Layout.{before}
use mirrorscope.Decoder.AsyncRust.Owned.{
  TokioVersion, TokioRuntimeLayout, EnumerateError, unsupported_tokio_version,
}

-- What stands behind the first occurrence of a text.
unfoldable pub behind_first : Bytes → Bytes → Option Bytes
behind_first sep [] = none
behind_first sep (c ∷ cs) =
    let later = behind_first sep cs in
    elim (strip_prefix sep (c ∷ cs)) [ some rest ↦ some rest | none ↦ later ]

pub record RustcVersion : Type 0 where
  pub major : ℕ
  pub minor : ℕ
  pub patch : ℕ

unfoldable pub rustc_of_parts : Bytes → List Bytes → Option RustcVersion
unfolding parse_leading_number patch_of
rustc_of_parts first [] = none
rustc_of_parts first (second ∷ rest) = elim (parse_leading_number first) [
  | none ↦ none
  | some major ↦ elim (parse_leading_number second) [
    | none ↦ none
    | some minor ↦ some (record { major = major; minor = minor; patch = patch_of rest })
  ]
]

unfoldable pub parse_rustc_triple : Bytes → Option RustcVersion
unfolding split rustc_of_parts
parse_rustc_triple token = let (first, rest) = split b'.' token in rustc_of_parts first rest

-- `split([' ', '(', ')']).next()`
unfoldable pub first_token : Bytes → Bytes
first_token [] = []
first_token (c ∷ cs) =
    let rest = first_token cs in if c == b' ' || c == b'(' || c == b')' then [] else c ∷ rest

unfoldable pub parse_producer : Bytes → Option RustcVersion
unfolding behind_first before first_token parse_rustc_triple
parse_producer producer = elim (behind_first (codes "rustc version ") producer) [
  | none ↦ none
  | some behind ↦ parse_rustc_triple (first_token (before (codes "rustc version ") behind))
]

-- The minor versions from 63 to 94 of Rust 1.
unfoldable pub is_supported : RustcVersion → Bool
is_supported version = version.major == 1 && (leb 63 version.minor && leb version.minor 94)

-- `take_while(|c| c.is_ascii_digit() || *c == '.')`
unfoldable pub version_token : Bytes → Bytes
version_token [] = []
version_token (c ∷ cs) =
    let rest = version_token cs in if is_ascii_digit c || c == b'.' then c ∷ rest else []

unfoldable pub parse_u16 : Bytes → Option ℕ
unfolding parse_unsigned
parse_u16 text = parse_unsigned (2 ^ 16) text

unfoldable pub tokio_of_parts : Bytes → List Bytes → Option TokioVersion
unfolding parse_u16
tokio_of_parts first [] = none
tokio_of_parts first (second ∷ []) = none
tokio_of_parts first (second ∷ third ∷ rest) = elim (parse_u16 first) [
  | none ↦ none
  | some major ↦ elim (parse_u16 second) [
    | none ↦ none
    | some minor ↦ elim (parse_u16 third) [
      | none ↦ none
      | some patch ↦ some (record { major = major; minor = minor; patch = patch })
    ]
  ]
]

-- The first 24 bytes, or fewer where there are no more.
unfoldable pub parse_tokio_triple : Bytes → Option TokioVersion
unfolding is_utf8 version_token split tokio_of_parts
parse_tokio_triple bytes =
    let text = take 24 bytes in
    let (first, rest) = split b'.' (version_token text) in
    if is_utf8 text then tokio_of_parts first rest else none

-- Where a text occurs first, as `find` of the source.
unfoldable pub find : Bytes → Bytes → Option ℕ
find [] needle = none
find (c ∷ cs) needle =
    let later = find cs needle in
    elim (strip_prefix needle (c ∷ cs)) [
      | some rest ↦ some 0
      | none ↦ elim later [ none ↦ none | some pos ↦ some (suc pos) ]
    ]

-- Each round drops some of the bytes, whose count is fuel enough.
unfoldable pub detect_tokio_from : (fuel : ℕ) → Bytes → Option TokioVersion
unfolding find parse_tokio_triple
detect_tokio_from zero bytes = none
detect_tokio_from (suc fuel) bytes = elim (find bytes (codes "tokio-1.")) [
  | none ↦ none
  | some pos ↦ elim (parse_tokio_triple (drop (pos + 6) bytes)) [
    | some version ↦ some version
    | none ↦ detect_tokio_from fuel (drop (pos + 8) bytes)
  ]
]

unfoldable pub detect_tokio : Bytes → Option TokioVersion
unfolding detect_tokio_from
detect_tokio bytes = detect_tokio_from (length bytes) bytes

unfoldable pub vendored_runtime : TokioVersion → Result EnumerateError TokioRuntimeLayout
vendored_runtime version =
    if version.major == 1 && version.minor == 44
    then ok (record {
      context_current = 8;
      handle_cell_value = 8;
      arc_data = 16;
      handle_shared = 0;
      shared_owned = 104;
      owned_list = 0;
      sharded_lists = 0;
      shard_stride = 24;
      mutex_data = 8;
      list_head = 0;
      header_vtable = 16;
      vtable_poll = 0;
      vtable_trailer_offset = 56;
      trailer_owned_next = 8;
      future_offset = 56;
    })
    else err (unsupported_tokio_version version)
