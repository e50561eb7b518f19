-- ===== src/Trace/Format.antt =====
-- crates/recorder/src/trace/format.rs: the constants, events, records and errors of the trace.
use mirrorscope.Prelude.{ℕ, ◌*◌, ◌==◌, leb, if◌then◌else◌, Option, none, some, [], ◌∷◌}
use mirrorscope.Prelude.Bytes.{Bytes}

abbrev pub magic : Bytes
magic = b'M' ∷ b'S' ∷ b'C' ∷ b'O' ∷ b'P' ∷ b'E' ∷ b'T' ∷ b'R' ∷ []

abbrev pub format_version : ℕ
format_version = 3

abbrev pub base_header_len : ℕ
base_header_len = 12

abbrev pub cmdline_min_version : ℕ
cmdline_min_version = 2

abbrev pub tid_min_version : ℕ
tid_min_version = 3

abbrev pub max_body_len : ℕ
max_body_len = 16 * 1024 * 1024

abbrev pub body_prefix_len : ℕ
body_prefix_len = 18

abbrev pub body_prefix_len_v3 : ℕ
body_prefix_len_v3 = 22

abbrev pub min_body_len : ℕ → ℕ
min_body_len version = if leb tid_min_version version then body_prefix_len_v3 else body_prefix_len

pub data EventKind : Type 0 where
  syscall_enter syscall_exit sched_switch signal sync_acquire : EventKind
  sync_release fork checkpoint thread_spawn thread_exit : EventKind
  unknown : ℕ → EventKind

unfoldable pub to_u16 : EventKind → ℕ
to_u16 syscall_enter = 1
to_u16 syscall_exit = 2
to_u16 sched_switch = 3
to_u16 signal = 4
to_u16 sync_acquire = 5
to_u16 sync_release = 6
to_u16 fork = 7
to_u16 checkpoint = 8
to_u16 thread_spawn = 9
to_u16 thread_exit = 10
to_u16 (unknown raw) = raw

unfoldable pub from_u16 : ℕ → EventKind
from_u16 raw =
    if raw == 1
    then syscall_enter
    else if raw == 2
    then syscall_exit
    else if raw == 3
    then sched_switch
    else if raw == 4
    then signal
    else if raw == 5
    then sync_acquire
    else if raw == 6
    then sync_release
    else if raw == 7
    then fork
    else if raw == 8
    then checkpoint
    else if raw == 9
    then thread_spawn
    else if raw == 10
    then thread_exit
    else unknown raw

pub record Event : Type 0 where
  pub kind : EventKind
  pub timestamp_ns : ℕ
  pub tid : Option ℕ
  pub payload : Bytes

-- `Event::new`
abbrev pub new_event : EventKind → ℕ → Bytes → Event
new_event kind timestamp_ns payload = record {
  kind = kind;
  timestamp_ns = timestamp_ns;
  tid = none;
  payload = payload;
}

-- `Event::new_with_tid`
abbrev pub new_with_tid : EventKind → ℕ → ℕ → Bytes → Event
new_with_tid kind timestamp_ns tid payload = record {
  kind = kind;
  timestamp_ns = timestamp_ns;
  tid = some tid;
  payload = payload;
}

pub record Record : Type 0 where
  pub seq : ℕ
  pub event : Event

-- `TraceError`. `panicked` is none of its variants: it stands for the panic of an index or of an
-- `expect` that is out of range. `Io` is left out, since the input is in memory.
pub data TraceError : Type 0 where
  bad_magic : TraceError
  unsupported_version : (found supported : ℕ) → TraceError
  checksum_mismatch : (seq : ℕ) → TraceError
  truncated : TraceError
  body_too_large : (found max : ℕ) → TraceError
  malformed_header : TraceError
  non_monotonic_sequence : (found previous : ℕ) → TraceError
  panicked : TraceError
