-- ===== src/Replay/State.antt =====
-- The state of a replay: `ReplaySession` of crates/replay/src/session.rs and `MtState` of
-- crates/replay/src/mt.rs, with the errors of crates/replay/src/error.rs. The kernel with its
-- tracees is a value of a type `K`, which the operations of `Os` read and change.
use mirrorscope.Prelude.{ℕ, Bool, Option, none, List, Result, ok, err}
use mirrorscope.Prelude.Bytes.{Bytes}
use mirrorscope.Prelude.Ints.{ℤ}
use mirrorscope.Prelude.Maps.{Map}
use mirrorscope.Trace.Format.{EventKind, Record}
use mirrorscope.Capture.Payload.{PayloadError}
use mirrorscope.Capture.Syscall.{SyscallRegs}
use mirrorscope.Capture.Sched.{WaitStatus}
use mirrorscope.Replay.TidMap.{TidMap, TidMapError}
use mirrorscope.Replay.Watchpoint.{WatchKind, WatchpointError}

-- What the tid-aware text of `ScheduleDiverged` tells.
pub data Detail : Type 0 where
  missing_tid : Detail
  other_thread : (expected tid : ℕ) → Detail
  unbound_tid : (tid : ℕ) → Detail
  no_entry : (tid : ℕ) → Detail
  other_stop : (tid : ℕ) → WaitStatus → Detail
  other_signal : (recorded : ℤ) → (delivered : ℕ) → Detail
  tid_conflict : TidMapError → Detail
  child_stop : (child : ℕ) → WaitStatus → Detail

-- `Ptrace` stands for every error of an operation on a tracee. `out_of_fuel` is the model's own.
pub data ReplayError : Type 0 where
  payload : PayloadError → ReplayError
  ptrace : ReplayError
  diverged : (seq expected_nr found_nr : ℕ) → ReplayError
  schedule_diverged : (seq : ℕ) → Detail → ReplayError
  unexpected_record : (seq : ℕ) → (found : EventKind) → ReplayError
  trace_exhausted : ReplayError
  watchpoint_request : WatchpointError → ReplayError
  out_of_fuel : ReplayError

-- `?` on a payload decoder.
abbrev pub payload_or : {A : Type 0} → Result PayloadError A → Result ReplayError A
payload_or (ok a) = ok a
payload_or (err e) = err (payload e)

pub data ExitOutcome : Type 0 where
  running : ExitOutcome
  exited : (code : ℤ) → ExitOutcome
  signaled : (sig : ℕ) → ExitOutcome

pub record Watchpoint : Type 0 where
  pub addr : ℕ
  pub len : ℕ
  pub kind : WatchKind

-- The frames of a backtrace are numbers here.
pub record WatchHit : Type 0 where
  pub seq : Option ℕ
  pub pc : ℕ
  pub old_value : Option Bytes
  pub new_value : Bytes
  pub backtrace : List ℕ

-- A checkpoint's snapshot is the pid of the forked copy.
pub record CheckpointInfo : Type 0 where
  pub seq : ℕ
  pub cursor : ℕ
  pub current_seq : Option ℕ
  pub last_regs : Option SyscallRegs
  pub snapshot : ℕ

-- A syscall in flight: where its recorded result goes, if it is injected.
pub record Pending : Type 0 where
  pub inject_addr : Option ℕ

pub record PendingSys : Type 0 where
  pub suppressed : Bool
  pub inject_addr : Option ℕ

pub record ThreadRt : Type 0 where
  pub pending : Option PendingSys
  pub resume_signal : Option ℕ

abbrev pub default_rt : ThreadRt
default_rt = record { pending = none; resume_signal = none }

pub record MtState : Type 0 where
  pub leader : ℕ
  pub threads : Map ThreadRt
  pub tidmap : TidMap
  pub vfork_suspended : Map ℕ
  pub expected_tid : Option ℕ

-- The pipes, the child handle and the cached unwinder are not kept.
pub record Session (K : Type 0) : Type 0 where
  pub os : K
  pub pid : ℕ
  pub records : List Record
  pub cursor : ℕ
  pub current_seq : Option ℕ
  pub pending : Option Pending
  pub resume_signal : Option ℕ
  pub last_regs : Option SyscallRegs
  pub finished : Option ExitOutcome
  pub checkpoint_interval : ℕ
  pub checkpoints : List CheckpointInfo
  pub watchpoint : Option Watchpoint
  pub watch_hits : List WatchHit
  pub last_value : Option Bytes
  pub multithreaded : Bool
  pub mt : Option MtState

-- The operations on tracees: `ptrace::syscall` with the `waitpid` after it, the accesses of
-- inject.rs and regs.rs, the fork snapshots of checkpoint.rs, the spawn of the target (with its
-- first stop and options), the kill, and the debug registers. `none` is a failed call.
pub record Os (K : Type 0) : Type 0 where
  pub resume : ℕ → Option ℕ → K → Option (WaitStatus × K)
  pub wait_child : ℕ → K → Option (WaitStatus × K)
  pub event_child : ℕ → K → Option ℕ
  pub read_regs : ℕ → K → Option SyscallRegs
  pub suppress_syscall : ℕ → K → Option K
  pub set_return : ℕ → ℤ → K → Option K
  pub read_memory : ℕ → ℕ → ℕ → K → Option Bytes
  pub write_memory : ℕ → ℕ → Bytes → K → Option K
  pub fork_snapshot : ℕ → K → Option (ℕ × K)
  pub spawn_traced : K → Option (ℕ × K)
  pub set_options : ℕ → K → Option K
  pub kill : ℕ → K → K
  pub arm : ℕ → Watchpoint → K → Option K
  pub disarm : ℕ → K → Option K
  pub is_hit : ℕ → K → Option Bool
  pub backtrace : ℕ → K → Option (ℕ × List ℕ)
  pub step_over : ℕ → K → Option K
