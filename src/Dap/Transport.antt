-- ===== src/Dap/Transport.antt =====
-- crates/dap/src/transport.rs: the frames of the debug adapter protocol, read from and written to a
-- stream of bytes. Errors of the streams themselves, other than an early end, are left out.
pub mod RoundTrip
pub mod Ends
use mirrorscope.Prelude.{
  ℕ, zero, suc, ◌+◌, ◌^◌, ◌==◌, leb, ltb, if◌then◌else◌, Bool, true, false, Option, none, some,
  List, [], ◌∷◌, ◌++◌, length, take, drop, Result, ok, err, ◌>>=◌, ok_or,
}
use mirrorscope.Prelude.Bytes.{Bytes}
use mirrorscope.Prelude.Utf8.{is_utf8}
use mirrorscope.Prelude.Text.{codes, decimal, parse_unsigned, strip_prefix}
use mirrorscope.Dap.Json.{Json}
use mirrorscope.Dap.Text.{trim, trim_end}

-- `invalid_utf8` and `unexpected_eof` are the `Io` errors of `read_line` and `read_exact`, and
-- `capacity_overflow` is the panic of `vec!`. The fuel of the loops runs out in `out_of_fuel`.
pub data TransportError : Type 0 where
  missing_content_length : TransportError
  invalid_content_length : (value : Bytes) → TransportError
  malformed_json invalid_utf8 unexpected_eof capacity_overflow out_of_fuel : TransportError

-- `BufRead::read_line`: the line with its line feed, and what is left.
unfoldable pub split_line : Bytes → Bytes × Bytes
split_line [] = ([], [])
split_line (c ∷ cs) =
    let (line, rest) = split_line cs in if c == 10 then (c ∷ [], cs) else (c ∷ line, rest)

abbrev pub header_name : Bytes
header_name = codes "Content-Length:"

-- A line of the header, trimmed at its end: the length so far, or the one it gives.
unfoldable pub header_line : Option ℕ → Bytes → Result TransportError (Option ℕ)
unfolding trim parse_unsigned
header_line content_length line = elim (strip_prefix header_name line) [
  | none ↦ ok content_length
  | some value ↦ elim (parse_unsigned (2 ^ 64) (trim value)) [
    | none ↦ err (invalid_content_length (trim value))
    | some n ↦ ok (some n)
  ]
]

-- What follows on a line: the header ends at an empty one, with a length or without.
unfoldable pub after_line :
    (content_length : Option ℕ)
    → (rest : Bytes) → (next : Option ℕ → Result TransportError (Option (ℕ × Bytes)))
    → (is_text : Bool) → (trimmed : Bytes) → Result TransportError (Option (ℕ × Bytes))
unfolding header_line
after_line content_length rest next false trimmed = err invalid_utf8
after_line none rest next true [] = err missing_content_length
after_line (some n) rest next true [] = ok (some (n, rest))
after_line content_length rest next true (d ∷ ds) = header_line content_length (d ∷ ds) >>= next

-- The loop over the lines; `saw_any_byte` tells an early end from a clean one.
unfoldable pub read_headers :
    (fuel : ℕ)
    → (saw_any_byte : Bool) → Option ℕ
    → Bytes
    → Result TransportError (Option (ℕ × Bytes))
unfolding split_line after_line trim_end
read_headers zero saw content_length input = err out_of_fuel
read_headers (suc fuel) saw content_length [] = if saw then err missing_content_length else ok none
read_headers (suc fuel) saw content_length (c ∷ cs) =
    let line = (split_line (c ∷ cs)).0 in
    let rest = (split_line (c ∷ cs)).1 in
    after_line content_length rest (λ content_length. read_headers fuel true content_length rest)
      (is_utf8 line) (trim_end line)

module _ (json : Json) where
  open json use {Value, to_vec, from_slice}

  -- `vec![0u8; n]`, `read_exact` and the JSON text.
  unfoldable pub read_payload : ℕ → Bytes → Result TransportError (Value × Bytes)
  read_payload n input =
      if leb (2 ^ 63) n
      then err capacity_overflow
      else if leb n (length input)
      then (ok_or (from_slice (take n input)) malformed_json >>= λ value. ok (value, drop n input))
      else err unexpected_eof

  -- A message with what is left of the input, or nothing at a clean end.
  unfoldable pub read_frame : Bytes → Result TransportError (Option (Value × Bytes))
  unfolding read_headers read_payload
  read_frame input = read_headers (suc (length input)) false none input >>= λ header. elim header [
    | none ↦ ok none
    | some (n, rest) ↦ read_payload n rest >>= λ message. ok (some message)
  ]

  unfoldable pub write_frame : Value → Bytes
  write_frame message =
      let payload = to_vec message in
      codes "Content-Length: " ++ decimal (length payload) ++ 13 ∷ 10 ∷ 13 ∷ 10 ∷ payload
