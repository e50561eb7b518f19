-- ===== src/Trace/Reader/RoundTrip.antt =====
-- The reader of crates/recorder/src/trace/reader.rs on what the writer wrote.
use mirrorscope.Prelude.{
  ℕ, zero, suc, ◌+◌, ◌%◌, ◌^◌, ◌≤◌, ◌<◌, ◌≡◌, refl, ap, sym, ◌∙◌, arith, false, List, [], ◌∷◌, ◌++◌,
  length, length-append, All, none, some, ok,
}
use mirrorscope.Prelude.Bytes.{Bytes, le_bytes}
use mirrorscope.Trace.Format.{Record, Event, max_body_len}
use mirrorscope.Trace.Body.{decode_body, encode_body}
use mirrorscope.Trace.Body.Codec.{IsEvent, recorded, decode_body-encode_body, length-encode_body}
use mirrorscope.Trace.Writer.{TraceWriter, append, append_all}
use mirrorscope.Trace.Reader.{
  TraceReader, check_monotonic, read_exact_or_eof, read_record, next, collect, read_all,
}
use mirrorscope.Trace.Reader.Safety.{Precedes}
use mirrorscope.Trace.Reader.Steps.{frame, next-frame}
use mathlib.Core.List.{append_assoc, append-nil}

-- An event that a record can hold.
abbrev pub Recordable : Event → Type 0
Recordable e = IsEvent e × (length e.payload + 22 ≤ max_body_len)

-- The records of the events, numbered from `seq` on.
abbrev pub records_from : ℕ → List Event → List Record
records_from seq [] = []
records_from seq (e ∷ es) = record { seq = seq; event = recorded e } ∷ records_from (suc seq) es

check_monotonic_lem :
    (seq : ℕ) (r : TraceReader)
    → Precedes r.last_seq seq
    → check_monotonic seq r ≡ (ok tt, record r { last_seq = some seq })
unfolding check_monotonic
check_monotonic_lem seq r h = ground arith

module _ (crc : Bytes → ℕ) where
  abbrev pub frames : ℕ → List Event → Bytes
  frames seq [] = []
  frames seq (e ∷ es) = frame crc (encode_body seq e) ++ frames (suc seq) es

  append-frame :
      (w : TraceWriter) (e : Event)
      → w.next_seq + 1 < 2 ^ 64
      → append crc w e ≡ (
        record {
          inner = w.inner ++ frame crc (encode_body w.next_seq e);
          next_seq = suc w.next_seq;
        },
        w.next_seq,
      )
  unfolding append
  append-frame w e h = rw next_mod (
      ap (λ t. (record { inner = t; next_seq = suc w.next_seq }, w.next_seq))
        (append_assoc (w.inner ++ len) body sum ∙ append_assoc w.inner len (body ++ sum)))
    where
      body : Bytes
      body = encode_body w.next_seq e

      len : Bytes
      len = le_bytes 4 (length body % 2 ^ 32)

      sum : Bytes
      sum = le_bytes 4 (crc body)

      next_mod : (w.next_seq + 1) % 2 ^ 64 ≡ suc w.next_seq
      next_mod = omega arith

  pub append_all-frames :
      (es : List Event) (w : TraceWriter)
      → w.next_seq + length es < 2 ^ 64
      → (append_all crc w es).inner ≡ w.inner ++ frames w.next_seq es
  unfolding append_all
  append_all-frames [] w h = sym (append-nil w.inner)
  append_all-frames (e ∷ es) w h =
      ap {B = Bytes} (λ (p : TraceWriter × ℕ). (append_all crc p.0 es).inner)
        (append-frame w e (omega arith))
      ∙ (append_all-frames es _ (omega arith)
          ∙ append_assoc w.inner (frame crc (encode_body w.next_seq e))
              (frames (suc w.next_seq) es))

  module _ (crc_u32 : (bs : Bytes) → crc bs < 2 ^ 32) where
    collect-frames :
        (es : List Event) (fuel : ℕ) (r : TraceReader) (seq : ℕ)
        → r.poisoned ≡ false
        → r.version ≡ 3
        → r.inner ≡ frames seq es
        → Precedes r.last_seq seq
        → All Recordable es
        → seq + length es < 2 ^ 64
        → length es < fuel
        → collect crc fuel r ≡ some (ok (records_from seq es))
    unfolding collect
    collect-frames es zero r seq p v e b ok_es n f = absurd (omega arith)
    collect-frames [] (suc fuel) r seq p v e b ok_es n f =
        unfold next read_record read_exact_or_eof in rw (p, e)
    collect-frames (x ∷ es) (suc fuel) r seq p v e b (ok_x, ok_es) n f = ground (
      arith,
      step,
      collect-frames es fuel after (suc seq) p v refl (omega arith) ok_es (omega arith)
          (omega arith),
    )
      where
        rest : Bytes
        rest = frames (suc seq) es

        after : TraceReader
        after = record r { inner = rest; last_seq = some seq }

        size : length (encode_body seq x) ≡ 22 + length x.payload
        size = length-encode_body seq x

        decoded :
            decode_body r.version (encode_body seq x)
            ≡ ok (record { seq = seq; event = recorded x })
        decoded = rw v (decode_body-encode_body seq x ok_x.0 (omega arith))

        step : next crc r ≡ (some (ok (record { seq = seq; event = recorded x })), after)
        step =
            next-frame crc crc_u32 r (encode_body seq x) rest
              (record { seq = seq; event = recorded x }) p e (rw v (omega (arith, size)))
              (omega (arith, size)) decoded (check_monotonic_lem seq _ b)

    length-frames : (es : List Event) (seq : ℕ) → length es ≤ length (frames seq es)
    length-frames [] seq = omega arith
    length-frames (x ∷ es) seq = omega (
      arith,
      length-frames es (suc seq),
      length-append (encode_body seq x ++ le_bytes 4 (crc (encode_body seq x)))
          (frames (suc seq) es),
    )

    -- A fresh version 3 reader, given the frames of some events, returns them all, numbered from 0.
    pub read_all-frames :
        (es : List Event) (r : TraceReader)
        → r.poisoned ≡ false
        → r.version ≡ 3
        → r.last_seq ≡ none
        → r.inner ≡ frames 0 es
        → All Recordable es
        → length es < 2 ^ 64
        → read_all crc r ≡ some (ok (records_from 0 es))
    unfolding read_all
    read_all-frames es r p v l e ok_es n =
        collect-frames es (suc (length r.inner)) r 0 p v e (rw l tt) ok_es (omega arith)
          (omega (arith, length-frames es 0, ap length e))
