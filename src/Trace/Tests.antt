-- ===== src/Trace/Tests.antt =====
-- The theorems about crates/recorder/src/trace at concrete traces.
use mirrorscope.Prelude.{
  zero, suc, ◌%◌, ◌^◌, ◌≤◌, ◌<◌, ◌⊎◌, true, ℕ, ◌+◌, ◌≡◌, refl, arith, List, [], ◌∷◌, ◌++◌, length,
  replicate, length-replicate, none, some, Result, ok, err,
}
use mirrorscope.Prelude.Bytes.{Bytes}
use mirrorscope.Prelude.Utf8.{is_utf8}
use mirrorscope.Trace.Format.{
  Record, Event, TraceError, syscall_enter, signal, new_with_tid, body_too_large, truncated,
  max_body_len,
}
use mirrorscope.Trace.Cmdline.{encode_cmdline, decode_cmdline}
use mirrorscope.Trace.Cmdline.Codec.{encode_cmdline_lem, decode_cmdline-encode_cmdline}
use mirrorscope.Trace.Writer.{TraceWriter, append}
use mirrorscope.Trace.Reader.{
  TraceReader, open_reader, read_all, read_record, read_exact_or_eof, read_exact, next,
}
use mirrorscope.Trace.Reader.Open.{fresh}
use mirrorscope.Trace.Reader.Safety.{Yields, read_all_total, next_after_error}
use mirrorscope.Trace.Reader.RoundTrip.{records_from, frames}
use mirrorscope.Trace.File.{
  recording, read_all-recording, open-wrapped_header, next-append_oversized,
}

abbrev crc_0 : Bytes → ℕ
crc_0 bytes = 0

abbrev program : Bytes
program = b'l' ∷ b's' ∷ []

abbrev two_events : List Event
two_events = new_with_tid syscall_enter 7 41 (1 ∷ 2 ∷ []) ∷ new_with_tid signal 9 42 [] ∷ []

read_all-recording_example :
    (r : TraceReader) × (open_reader (recording crc_0 program ([] ∷ []) two_events) ≡ ok r)
    × (r.version ≡ 3)
    × (r.cmdline ≡ some (record { program = program; args = [] ∷ [] }))
    × (read_all crc_0 r ≡ some (ok (records_from 0 two_events)))
unfolding encode_cmdline is_utf8
read_all-recording_example =
    read_all-recording crc_0 (λ b. omega arith) program ([] ∷ []) two_events (refl, omega arith)
      ((refl, omega arith), tt) (omega arith) (omega arith)
      (
        (record { kind = tt; timestamp_ns = omega arith; tid = omega arith }, omega arith),
        ((record { kind = tt; timestamp_ns = omega arith; tid = omega arith }, omega arith), tt),
      )
      (omega arith)

-- A reader in front of bytes that are no record.
abbrev garbage : TraceReader
garbage = fresh none (40 ∷ 0 ∷ 0 ∷ 0 ∷ 1 ∷ [])

read_all_total_example :
    (result : Result TraceError (List Record)) × (read_all crc_0 garbage ≡ some result)
    × Yields crc_0 none result
read_all_total_example = read_all_total crc_0 garbage

next_after_error_example : next crc_0 (next crc_0 garbage).1 ≡ (none, (next crc_0 garbage).1)
unfolding next read_record read_exact_or_eof read_exact
next_after_error_example = next_after_error crc_0 garbage (truncated) garbage_fails
  where
    garbage_fails : (next crc_0 garbage).0 ≡ some (err (truncated))
    garbage_fails = refl

decode_cmdline-encode_cmdline_example :
    decode_cmdline (encode_cmdline program (program ∷ [] ∷ []))
    ≡ ok (record { program = program; args = program ∷ [] ∷ [] })
unfolding encode_cmdline is_utf8
decode_cmdline-encode_cmdline_example =
    decode_cmdline-encode_cmdline program (program ∷ [] ∷ []) (refl, omega arith)
      ((refl, omega arith), ((refl, omega arith), tt)) (omega arith) (omega arith)

-- A program whose encoding is as long as 65,536 less the base header.
abbrev long_program : Bytes
long_program = replicate 65516 b'x'

length-long_program : length (encode_cmdline long_program []) ≡ 65524
length-long_program =
    rw (encode_cmdline_lem long_program []) (omega (arith, length-replicate {A = ℕ} 65516 b'x'))

-- Its characters are ASCII.
is_utf8-replicate : (n : ℕ) → is_utf8 (replicate n b'x') ≡ true
unfolding is_utf8
is_utf8-replicate zero = refl
is_utf8-replicate (suc n) = is_utf8-replicate n

open-wrapped_header_example :
    (((length (encode_cmdline long_program []) + 12) % 2 ^ 16 ≤ 12)
      × (open_reader (recording crc_0 long_program [] [])
          ≡ ok (fresh none (encode_cmdline long_program [] ++ frames crc_0 0 []))))
    ⊎ ((12 < (length (encode_cmdline long_program []) + 12) % 2 ^ 16)
        × (e : TraceError) × (open_reader (recording crc_0 long_program [] []) ≡ err e))
open-wrapped_header_example =
    open-wrapped_header crc_0 long_program [] []
      (is_utf8-replicate 65516, omega (arith, length-replicate {A = ℕ} 65516 b'x')) tt (omega arith)
      (omega (arith, length-long_program)) (omega (arith, length-long_program)) (omega arith)

-- Shut, so that nothing computes the list.
unfoldable repeated : ℕ → ℕ → Bytes
repeated n b = replicate n b

length-repeated : (n b : ℕ) → length (repeated n b) ≡ n
unfolding repeated
length-repeated n b = length-replicate n b

abbrev large_event : Event
large_event = new_with_tid syscall_enter 0 1 (repeated 16777200 0)

abbrev empty_writer : TraceWriter
empty_writer = record { inner = []; next_seq = 0 }

next-append_oversized_example :
    (next crc_0 (fresh none ((append crc_0 empty_writer large_event).0.inner ++ []))).0
    ≡ some (err (body_too_large (length large_event.payload + 22) max_body_len))
next-append_oversized_example =
    next-append_oversized crc_0 empty_writer
      (fresh none ((append crc_0 empty_writer large_event).0.inner ++ [])) large_event []
      (omega (arith, length-repeated 16777200 0)) (omega (arith, length-repeated 16777200 0)) refl
      refl refl refl
