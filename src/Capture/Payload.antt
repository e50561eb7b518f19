-- ===== src/Capture/Payload.antt =====
-- crates/recorder/src/capture/payload.rs: the payloads of the trace's events.
pub mod Codec
use mirrorscope.Prelude.{
  ℕ, zero, suc, ◌+◌, ◌*◌, ◌%◌, ◌^◌, ◌==◌, ltb, not, if◌then◌else◌, List, [], ◌∷◌, ◌++◌, length,
  Result, ok, err, ◌>>=◌, ◌>>◌, ok_or, guard,
}
use mirrorscope.Prelude.Bytes.{Bytes, le_bytes, from_le, get_range}
use mirrorscope.Prelude.Ints.{ℤ, to_bits, of_bits}

-- `args` is an array of six words.
pub record SyscallEnter : Type 0 where
  pub nr : ℕ
  pub args : List ℕ

pub record SyscallExit : Type 0 where
  pub nr : ℕ
  pub ret : ℤ
  pub data_bytes : Bytes

pub record SchedSwitch : Type 0 where
  pub tid : ℕ

pub record ThreadSpawn : Type 0 where
  pub parent_tid : ℕ
  pub child_tid : ℕ

pub record ThreadExit : Type 0 where
  pub tid : ℕ

pub record SignalDelivery : Type 0 where
  pub signum : ℤ

-- `panicked` is no variant of the source: it stands for an index out of range.
pub data PayloadError : Type 0 where
  too_short : (found need : ℕ) → PayloadError
  length_mismatch : PayloadError
  panicked : PayloadError

unfoldable pub read_u32 : Bytes → ℕ → Result PayloadError ℕ
read_u32 payload offset = do
  let end = offset + 4
  slice ← ok_or (get_range payload offset end) (too_short (length payload) end)
  ok (from_le slice)

unfoldable pub read_i32 : Bytes → ℕ → Result PayloadError ℤ
read_i32 payload offset = do
  let end = offset + 4
  slice ← ok_or (get_range payload offset end) (too_short (length payload) end)
  ok (of_bits 32 (from_le slice))

-- `payload[start..end]`
abbrev slice_at : Bytes → ℕ → ℕ → Result PayloadError Bytes
slice_at payload start end = ok_or (get_range payload start end) panicked

abbrev pub enter_len : ℕ
enter_len = 8 + 6 * 8

abbrev pub exit_prefix_len : ℕ
exit_prefix_len = 8 + 8 + 4

unfoldable pub encode_sched_switch : SchedSwitch → Bytes
encode_sched_switch s = le_bytes 4 s.tid

unfoldable pub decode_sched_switch : Bytes → Result PayloadError SchedSwitch
unfolding read_u32
decode_sched_switch payload = do tid ← read_u32 payload 0; ok (record { tid = tid })

unfoldable pub encode_thread_spawn : ThreadSpawn → Bytes
encode_thread_spawn s = le_bytes 4 s.parent_tid ++ le_bytes 4 s.child_tid

unfoldable pub decode_thread_spawn : Bytes → Result PayloadError ThreadSpawn
unfolding read_u32
decode_thread_spawn payload = do
  parent_tid ← read_u32 payload 0
  child_tid ← read_u32 payload 4
  ok (record { parent_tid = parent_tid; child_tid = child_tid })

unfoldable pub encode_thread_exit : ThreadExit → Bytes
encode_thread_exit s = le_bytes 4 s.tid

unfoldable pub decode_thread_exit : Bytes → Result PayloadError ThreadExit
unfolding read_u32
decode_thread_exit payload = do tid ← read_u32 payload 0; ok (record { tid = tid })

unfoldable pub encode_signal : SignalDelivery → Bytes
encode_signal s = le_bytes 4 (to_bits 32 s.signum)

unfoldable pub decode_signal : Bytes → Result PayloadError SignalDelivery
unfolding read_i32
decode_signal payload = do signum ← read_i32 payload 0; ok (record { signum = signum })

-- `for arg in self.args`
words : List ℕ → Bytes
words [] = []
words (arg ∷ args) = le_bytes 8 arg ++ words args

unfoldable pub encode_enter : SyscallEnter → Bytes
unfolding words
encode_enter e = le_bytes 8 e.nr ++ words e.args

-- The words from `start` on, `count` of them.
read_words : Bytes → ℕ → ℕ → Result PayloadError (List ℕ)
read_words payload zero start = ok []
read_words payload (suc count) start = do
  word ← slice_at payload start (start + 8)
  args ← read_words payload count (start + 8)
  ok (from_le word ∷ args)

unfoldable pub decode_enter : Bytes → Result PayloadError SyscallEnter
unfolding read_words
decode_enter payload = do
  guard (length payload == enter_len) (too_short (length payload) enter_len)
  nr ← slice_at payload 0 8
  args ← read_words payload 6 8
  ok (record { nr = from_le nr; args = args })

unfoldable pub encode_exit : SyscallExit → Bytes
encode_exit e =
    le_bytes 8 e.nr
    ++ (le_bytes 8 (to_bits 64 e.ret)
        ++ (le_bytes 4 (length e.data_bytes % 2 ^ 32) ++ e.data_bytes))

unfoldable pub decode_exit : Bytes → Result PayloadError SyscallExit
decode_exit payload = do
  guard (not (ltb (length payload) exit_prefix_len)) (too_short (length payload) exit_prefix_len)
  nr ← slice_at payload 0 8
  ret ← slice_at payload 8 16
  data_len ← slice_at payload 16 20
  data_bytes ← slice_at payload exit_prefix_len (length payload)
  guard (length data_bytes == from_le data_len) length_mismatch
  ok (record { nr = from_le nr; ret = of_bits 64 (from_le ret); data_bytes = data_bytes })
