-- ===== src/Trace/Cmdline.antt =====
-- `encode_cmdline` and `decode_cmdline` of crates/recorder/src/trace/format.rs.
pub mod Codec
pub mod Truncated
use mirrorscope.Prelude.{ℕ, zero, suc, ◌+◌, ◌%◌, ◌^◌, if◌then◌else◌, List, [], ◌∷◌, ◌++◌, length}
use mirrorscope.Prelude.{Result, ok, err, ◌>>=◌, ok_or}
use mirrorscope.Prelude.Bytes.{Bytes, le_bytes, from_le, get_range, checked_add}
use mirrorscope.Prelude.Utf8.{is_utf8}
use mirrorscope.Trace.Format.{TraceError, malformed_header}

-- A Rust `String` is the list of its bytes.
pub record Cmdline : Type 0 where
  pub program : Bytes
  pub args : List Bytes

push_str : Bytes → Bytes → Bytes
push_str out s = out ++ (le_bytes 4 (length s % 2 ^ 32) ++ s)

push_strs : Bytes → List Bytes → Bytes
push_strs out [] = out
push_strs out (arg ∷ args) = push_strs (push_str out arg) args

unfoldable pub encode_cmdline : Bytes → List Bytes → Bytes
unfolding push_str push_strs
encode_cmdline program args =
    push_strs (push_str [] program ++ le_bytes 4 (length args % 2 ^ 32)) args

-- The reads return the value and the new `pos`.
read_u32 : Bytes → ℕ → Result TraceError (ℕ × ℕ)
read_u32 buf pos = do
  end ← ok_or (checked_add pos 4) malformed_header
  slice ← ok_or (get_range buf pos end) malformed_header
  ok (from_le slice, end)

read_str : Bytes → ℕ → Result TraceError (Bytes × ℕ)
read_str buf pos = do
  (len, pos) ← read_u32 buf pos
  end ← ok_or (checked_add pos len) malformed_header
  slice ← ok_or (get_range buf pos end) malformed_header
  if is_utf8 slice then ok (slice, end) else err malformed_header

-- `for _ in 0..count`
read_strs : Bytes → ℕ → ℕ → List Bytes → Result TraceError (List Bytes)
read_strs buf zero pos args = ok args
read_strs buf (suc count) pos args = do
  (s, pos) ← read_str buf pos
  read_strs buf count pos (args ++ s ∷ [])

unfoldable pub decode_cmdline : Bytes → Result TraceError Cmdline
unfolding read_u32 read_str read_strs
decode_cmdline buf = do
  (program, pos) ← read_str buf 0
  (count, pos) ← read_u32 buf pos
  args ← read_strs buf count pos []
  ok (record { program = program; args = args })
