-- ===== src/Trace/Writer.antt =====
-- crates/recorder/src/trace/writer.rs: `TraceWriter` over an output in memory.
use mirrorscope.Prelude.{ℕ, ◌+◌, ◌%◌, ◌^◌, List, [], ◌∷◌, ◌++◌, length}
use mirrorscope.Prelude.Bytes.{Bytes, le_bytes}
use mirrorscope.Trace.Format.{Event, magic, format_version, base_header_len}
use mirrorscope.Trace.Body.{encode_body}
use mirrorscope.Trace.Cmdline.{encode_cmdline}

-- `inner` is what has been written.
pub record TraceWriter : Type 0 where
  pub inner : Bytes
  pub next_seq : ℕ

write_all : TraceWriter → Bytes → TraceWriter
write_all w bytes = record w { inner = w.inner ++ bytes }

-- `header_len as u16` keeps the low 16 bits.
unfoldable pub write_header : Bytes → Bytes → TraceWriter
write_header inner cmdline =
    let header_len = base_header_len + length cmdline in
    record {
      inner =
          inner
          ++ (magic
              ++ (le_bytes 2 format_version ++ (le_bytes 2 (header_len % 2 ^ 16) ++ cmdline)));
      next_seq = 0;
    }

unfoldable pub create : Bytes → TraceWriter
unfolding write_header
create inner = write_header inner []

unfoldable pub create_with_cmdline : Bytes → Bytes → List Bytes → TraceWriter
unfolding write_header
create_with_cmdline inner program args = write_header inner (encode_cmdline program args)

-- `crc32fast::hash` is a parameter. The new writer, and the sequence number given to the event.
module _ (crc : Bytes → ℕ) where
  unfoldable pub append : TraceWriter → Event → TraceWriter × ℕ
  unfolding write_all
  append w event =
      let seq = w.next_seq in
      let body = encode_body seq event in
      let w1 = write_all w (le_bytes 4 (length body % 2 ^ 32)) in
      let w2 = write_all w1 body in
      let w3 = write_all w2 (le_bytes 4 (crc body)) in
      (record w3 { next_seq = (seq + 1) % 2 ^ 64 }, seq)

  -- The recorder's calls of `append`, one after another.
  unfoldable pub append_all : TraceWriter → List Event → TraceWriter
  append_all w [] = w
  append_all w (event ∷ events) = append_all (append w event).0 events
