-- ===== src/Trace/Reader/Steps.antt =====
-- One step of the reader (crates/recorder/src/trace/reader.rs) on a well-formed record.
use mirrorscope.Prelude.{
  ℕ, ◌%◌, ◌^◌, ◌≤◌, ◌<◌, ◌≡◌, ◌∙◌, arith, false, ◌++◌, length, le→leb, length-append,
  take-length_append, drop-length_append, some, ok,
}
use mathlib.Core.List.{append_assoc}
use mirrorscope.Prelude.Bytes.{Bytes, le_bytes, from_le-le_bytes}
use mirrorscope.Trace.Format.{Record, min_body_len, max_body_len}
use mirrorscope.Trace.Body.{decode_body}
use mirrorscope.Trace.Reader.{
  TraceReader, read_exact, read_exact_or_eof, full, check_monotonic, read_body, read_record, next,
}

pub read_exact_lem : (mid rest : Bytes) → read_exact (length mid) (mid ++ rest) ≡ some (mid, rest)
unfolding read_exact
read_exact_lem mid rest = rw (
  le→leb (length mid) (length (mid ++ rest)) (omega (arith, length-append mid rest)),
  take-length_append mid rest,
  drop-length_append mid rest,
)

pub read_exact_or_eof_lem :
    (mid rest : Bytes) → read_exact_or_eof (length mid) (mid ++ rest) ≡ (full, mid, rest)
unfolding read_exact_or_eof
read_exact_or_eof_lem mid rest = rw (
  take-length_append mid rest,
  drop-length_append mid rest,
  le→leb (length mid) (length mid) (omega arith),
)

module _ (crc : Bytes → ℕ) where
  -- A body as it stands in the file: its length, itself and its checksum.
  abbrev pub frame : Bytes → Bytes
  frame body = le_bytes 4 (length body % 2 ^ 32) ++ (body ++ le_bytes 4 (crc body))

  module _ (crc_u32 : (bs : Bytes) → crc bs < 2 ^ 32) where
    pub read_record-frame :
        (r : TraceReader) (body rest : Bytes) (rec : Record)
        → r.inner ≡ le_bytes 4 (length body) ++ (body ++ (le_bytes 4 (crc body) ++ rest))
        → min_body_len r.version ≤ length body
        → length body ≤ max_body_len
        → decode_body r.version body ≡ ok rec
        → check_monotonic rec.seq (record r { inner = rest })
          ≡ (ok tt, record r { inner = rest; last_seq = some rec.seq })
        → read_record crc r ≡ (ok (some rec), record r { inner = rest; last_seq = some rec.seq })
    unfolding read_record read_body
    read_record-frame r body rest rec e lo hi d m = ground (
      arith,
      len_read,
      from_le-le_bytes 4 (length body) (omega arith),
      read_exact_lem body (le_bytes 4 (crc body) ++ rest),
      read_exact_lem (le_bytes 4 (crc body)) rest,
      from_le-le_bytes 4 (crc body) (crc_u32 body),
    )
      where
        len_read :
            read_exact_or_eof 4 r.inner
            ≡ (full, le_bytes 4 (length body), body ++ (le_bytes 4 (crc body) ++ rest))
        len_read = rw e (
            read_exact_or_eof_lem (le_bytes 4 (length body))
              (body ++ (le_bytes 4 (crc body) ++ rest)))

    pub next-frame :
        (r : TraceReader) (body rest : Bytes) (rec : Record)
        → r.poisoned ≡ false
        → r.inner ≡ frame body ++ rest
        → min_body_len r.version ≤ length body
        → length body ≤ max_body_len
        → decode_body r.version body ≡ ok rec
        → check_monotonic rec.seq (record r { inner = rest })
          ≡ (ok tt, record r { inner = rest; last_seq = some rec.seq })
        → next crc r ≡ (some (ok rec), record r { inner = rest; last_seq = some rec.seq })
    unfolding next
    next-frame r body rest rec p e lo hi d m =
        ground (arith, read_record-frame r body rest rec (e ∙ split) lo hi d m)
      where
        small : length body % 2 ^ 32 ≡ length body
        small = omega arith

        split :
            frame body ++ rest
            ≡ le_bytes 4 (length body) ++ (body ++ (le_bytes 4 (crc body) ++ rest))
        split = rw small (simp append_assoc)
