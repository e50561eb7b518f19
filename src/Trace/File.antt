-- ===== src/Trace/File.antt =====
-- A trace file as a whole (crates/recorder/src/trace): what `TraceWriter` writes, as `TraceReader`
-- reads it.
use mirrorscope.Prelude.{
  ◌∷◌, ℕ, ◌+◌, ◌%◌, ◌^◌, ◌≤◌, ◌<◌, ◌≡◌, refl, ◌∙◌, arith, false, List, [], ◌++◌, length, All, none,
  some, ok, err, ap, sym, ok-inj, Result-cases, Bool-cases, inl, inr, ◌⊎◌, take, drop, length-take,
  take-append-drop, leb, ◌-◌,
}
use mirrorscope.Prelude.Bytes.{Bytes, le_bytes, from_le-le_bytes}
use mirrorscope.Trace.Format.{Event, TraceError, base_header_len, body_too_large, max_body_len}
use mirrorscope.Trace.Body.{encode_body}
use mirrorscope.Trace.Body.Codec.{length-encode_body}
use mirrorscope.Trace.Cmdline.{encode_cmdline, decode_cmdline}
use mirrorscope.Trace.Cmdline.Truncated.{decode_cmdline-inv}
use mirrorscope.Trace.Cmdline.Codec.{IsText, encode_cmdline_lem, decode_cmdline-encode_cmdline}
use mirrorscope.Trace.Writer.{TraceWriter, create_with_cmdline, append, append_all}
use mirrorscope.Trace.Reader.{
  TraceReader, open_reader, read_cmdline, read_all, next, read_record, read_exact_or_eof, full,
}
use mirrorscope.Trace.Reader.Steps.{read_exact_or_eof_lem}
use mirrorscope.Trace.Reader.Open.{
  base_header, fresh, open_reader-header, read_cmdline-decode, read_cmdline-nil,
}
use mirrorscope.Trace.Reader.RoundTrip.{
  Recordable, records_from, frames, append_all-frames, read_all-frames,
}
use mathlib.Core.List.{append_assoc}

-- The bytes of a recording: the header with its command line, and the events.
abbrev pub recording : (Bytes → ℕ) → Bytes → List Bytes → List Event → Bytes
recording crc program args es = (append_all crc (create_with_cmdline [] program args) es).inner

recording-frames :
    (crc : Bytes → ℕ) (program : Bytes) (args : List Bytes) (es : List Event)
    → length es < 2 ^ 64
    → recording crc program args es
      ≡ base_header ((base_header_len + length (encode_cmdline program args)) % 2 ^ 16)
        ++ (encode_cmdline program args ++ frames crc 0 es)
unfolding create_with_cmdline
recording-frames crc program args es n =
    append_all-frames crc es _ (omega arith)
    ∙ append_assoc (base_header ((base_header_len + length (encode_cmdline program args)) % 2 ^ 16))
        (encode_cmdline program args) (frames crc 0 es)

module _ (crc : Bytes → ℕ) (crc_u32 : (bs : Bytes) → crc bs < 2 ^ 32) where
  -- Whatever is recorded is read back: of a file that holds the header of a command line and then
  -- events, `open` returns a reader with that command line, and iterating it returns every event
  -- in order, numbered from 0 and with its thread id.
  -- The command line is UTF-8, and its encoding fits the 16-bit header length; each event fits its
  -- words and its payload the limit on a body; the checksum is a 32-bit number.
  pub read_all-recording :
      (program : Bytes) (args : List Bytes) (es : List Event)
      → IsText program
      → All IsText args
      → length args < 2 ^ 32
      → length (encode_cmdline program args) + 12 < 2 ^ 16
      → All Recordable es
      → length es < 2 ^ 64
      → (r : TraceReader) × (open_reader (recording crc program args es) ≡ ok r)
        × (r.version ≡ 3)
        × (r.cmdline ≡ some (record { program = program; args = args }))
        × (read_all crc r ≡ some (ok (records_from 0 es)))
  read_all-recording program args es tp ta na small ok_es ne = (
    fresh (some (record { program = program; args = args })) (frames crc 0 es),
    rw (recording-frames crc program args es ne, fits) (opened),
    refl,
    refl,
    read_all-frames crc crc_u32 es _ refl refl refl refl ok_es ne,
  )
    where
      cm : Bytes
      cm = encode_cmdline program args

      fits : (base_header_len + length cm) % 2 ^ 16 ≡ base_header_len + length cm
      fits = omega arith

      decoded : decode_cmdline cm ≡ ok (record { program = program; args = args })
      decoded = decode_cmdline-encode_cmdline program args tp ta na (omega arith)

      nonempty : 0 < length cm
      nonempty = rw (encode_cmdline_lem program args) (omega arith)

      opened :
          open_reader (base_header (base_header_len + length cm) ++ (cm ++ frames crc 0 es))
          ≡ ok (fresh (some (record { program = program; args = args })) (frames crc 0 es))
      opened =
          open_reader-header (base_header_len + length cm) cm (frames crc 0 es) (omega arith)
            (omega arith)
          ∙ rw (read_cmdline-decode cm _ nonempty decoded)

-- A reader refuses a command line that is cut short.
read_cmdline-cut :
    (program : Bytes) (args : List Bytes) (cut behind : Bytes)
    → decode_cmdline (cut ++ behind) ≡ ok (record { program = program; args = args })
    → length cut < length (encode_cmdline program args)
    → 0 < length cut
    → (e : TraceError) × (read_cmdline 3 cut ≡ err e)
unfolding read_cmdline
read_cmdline-cut program args [] behind whole short some_bytes = absurd (omega (arith, some_bytes))
read_cmdline-cut program args (b ∷ bs) behind whole short some_bytes =
    elim (Result-cases (decode_cmdline (b ∷ bs))) [
      | inr (e, failed) ↦ (e, rw failed)
      | inl (c, decoded) ↦
          let (fits, again) = decode_cmdline-inv (b ∷ bs) behind c decoded in
          let same : c ≡ record { program = program; args = args } = ok-inj (sym again ∙ whole) in
          absurd
            (omega (arith, short, fits, ap (λ c. length (encode_cmdline c.program c.args)) same))
    ]

-- A command line whose encoding, with the base header, does not fit the 16-bit header length is
-- lost. Where the length wraps to at most 12, `open` returns a reader without a command line that
-- takes its bytes for records; where it wraps to more, `open` fails, and no record can be read.
-- (The command line is UTF-8, each of its strings is shorter than 4 GiB, there are fewer than 2^32
-- arguments, and the encoding is shorter than 2^63 bytes.)
pub open-wrapped_header :
    (crc : Bytes → ℕ) (program : Bytes) (args : List Bytes) (es : List Event)
    → IsText program
    → All IsText args
    → length args < 2 ^ 32
    → length (encode_cmdline program args) < 2 ^ 63
    → 2 ^ 16 ≤ length (encode_cmdline program args) + 12
    → length es < 2 ^ 64
    → (((length (encode_cmdline program args) + 12) % 2 ^ 16 ≤ 12)
        × (open_reader (recording crc program args es)
            ≡ ok (fresh none (encode_cmdline program args ++ frames crc 0 es))))
      ⊎ ((12 < (length (encode_cmdline program args) + 12) % 2 ^ 16)
          × (e : TraceError) × (open_reader (recording crc program args es) ≡ err e))
open-wrapped_header crc program args es tp ta na fits large ne =
    elim (Bool-cases (leb ((length cm + 12) % 2 ^ 16) 12)) [
      | inl little ↦ inl (ground (arith, little), small (ground (arith, little)))
      | inr more ↦
          (let (e, fails) = cut (ground (arith, more)) in inr (ground (arith, more), e, fails))
    ]
  where
    cm : Bytes
    cm = encode_cmdline program args

    small :
        (length cm + 12) % 2 ^ 16 ≤ 12
        → open_reader (recording crc program args es) ≡ ok (fresh none (cm ++ frames crc 0 es))
    small wraps = rw (recording-frames crc program args es ne) (
        open_reader-header ((base_header_len + length cm) % 2 ^ 16) [] (cm ++ frames crc 0 es)
          (omega arith) (omega (arith, wraps))
        ∙ rw read_cmdline-nil)

    parted : (n : ℕ) → cm ++ frames crc 0 es ≡ take n cm ++ (drop n cm ++ frames crc 0 es)
    parted n =
        ap (λ bytes. bytes ++ frames crc 0 es) (sym (take-append-drop n cm))
        ∙ append_assoc (take n cm) (drop n cm) (frames crc 0 es)

    cut :
        12 < (length cm + 12) % 2 ^ 16
        → (e : TraceError) × (open_reader (recording crc program args es) ≡ err e)
    cut more =
        let n = (length cm + 12) % 2 ^ 16 - 12 in
        let shorter : n < length cm = omega (arith, large, more) in
        let kept : length (take n cm) ≡ n = length-take n cm (omega (arith, shorter)) in
        let (e, failed) =
          read_cmdline-cut program args (take n cm) (drop n cm)
            (rw (take-append-drop n cm) (decode_cmdline-encode_cmdline program args tp ta na fits))
            (omega (arith, kept, shorter)) (omega (arith, kept, more)) in
        (
          e,
          ap open_reader (
                recording-frames crc program args es ne
                ∙ ap (λ bytes. base_header ((base_header_len + length cm) % 2 ^ 16) ++ bytes)
                    (parted n))
              ∙ open_reader-header ((base_header_len + length cm) % 2 ^ 16) (take n cm)
                  (drop n cm ++ frames crc 0 es) (omega arith) (omega (arith, kept))
              ∙ rw failed,
        )

-- `append` writes a record whose body is longer than the limit, and the reader then refuses it:
-- the recording ends in `BodyTooLarge`. (The body's length still fits its 32-bit word.)
pub next-append_oversized :
    (crc : Bytes → ℕ) (w : TraceWriter) (r : TraceReader) (e : Event) (rest : Bytes)
    → max_body_len < length e.payload + 22
    → length e.payload + 22 < 2 ^ 32
    → w.inner ≡ []
    → r.poisoned ≡ false
    → r.version ≡ 3
    → r.inner ≡ (append crc w e).0.inner ++ rest
    → (next crc r).0 ≡ some (err (body_too_large (length e.payload + 22) max_body_len))
unfolding append next read_record
next-append_oversized crc w r e rest large fits empty p v at =
    ground (arith, len_read, from_le-le_bytes 4 (length body % 2 ^ 32) (omega arith), size)
  where
    body : Bytes
    body = encode_body w.next_seq e

    size : length body ≡ 22 + length e.payload
    size = length-encode_body w.next_seq e

    len : Bytes
    len = le_bytes 4 (length body % 2 ^ 32)

    behind : Bytes
    behind = body ++ (le_bytes 4 (crc body) ++ rest)

    split : r.inner ≡ len ++ behind
    split = at ∙ rw empty (simp append_assoc)

    len_read : read_exact_or_eof 4 r.inner ≡ (full, len, behind)
    len_read = rw split (read_exact_or_eof_lem len behind)
