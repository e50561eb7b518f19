-- ===== src/Trace/Reader/Open.antt =====
-- `open_reader` (crates/recorder/src/trace/reader.rs) on the header that `write_header` writes.
use mirrorscope.Prelude.{
  ℕ, ◌-◌, ◌^◌, ◌<◌, ◌≡◌, refl, false, [], ◌∷◌, ◌++◌, length, Option, none, some, ok, ◌>>=◌,
}
use mirrorscope.Prelude.Bytes.{Bytes, le_bytes, from_le-le_bytes}
use mirrorscope.Trace.Format.{magic, format_version, base_header_len}
use mirrorscope.Trace.Cmdline.{Cmdline, decode_cmdline}
use mirrorscope.Trace.Reader.{TraceReader, bytes_eq, read_cmdline, open_reader}
use mirrorscope.Trace.Reader.Steps.{read_exact_lem}

-- The twelve bytes in front of the command line.
abbrev pub base_header : ℕ → Bytes
base_header header_len = magic ++ (le_bytes 2 format_version ++ le_bytes 2 header_len)

-- A reader at the start of the records.
abbrev pub fresh : Option Cmdline → Bytes → TraceReader
fresh cmdline input = record {
  inner = input;
  version = 3;
  cmdline = cmdline;
  last_seq = none;
  poisoned = false;
}

pub open_reader-header :
    (header_len : ℕ) (extra rest : Bytes)
    → header_len < 2 ^ 16
    → header_len - base_header_len ≡ length extra
    → open_reader (base_header header_len ++ (extra ++ rest))
      ≡ (read_cmdline 3 extra >>= λ cmdline. ok (fresh cmdline rest))
unfolding open_reader bytes_eq
open_reader-header header_len extra rest small size = rw (
  read_exact_lem (base_header header_len) (extra ++ rest),
  from_le-le_bytes 2 header_len small,
  size,
  read_exact_lem extra rest,
)

pub read_cmdline-decode :
    (extra : Bytes) (cmdline : Cmdline)
    → 0 < length extra
    → decode_cmdline extra ≡ ok cmdline
    → read_cmdline 3 extra ≡ ok (some cmdline)
unfolding read_cmdline
read_cmdline-decode [] cmdline h e = elim h [ ]
read_cmdline-decode (b ∷ bs) cmdline h e = rw e

pub read_cmdline-nil : read_cmdline 3 [] ≡ ok none
unfolding read_cmdline
read_cmdline-nil = refl
