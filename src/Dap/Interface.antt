-- ===== src/Dap/Interface.antt =====
-- The seam between the server of the debug adapter and what it debugs: the trait `DebugBackend` of
-- crates/dap/src/backend.rs, with its errors and stops.
use mirrorscope.Prelude.{ℕ, ◌++◌, Option, Result}
use mirrorscope.Prelude.Bytes.{Bytes}
use mirrorscope.Prelude.Ints.{ℤ}
use mirrorscope.Prelude.Text.{codes}
use mirrorscope.Dap.Backend.{ResumeKind}

pub data StopInfo : Type 0 where
  stopped : (reason : Bytes) (thread_id : ℕ) → StopInfo
  exited : (code : ℤ) → StopInfo

pub data BackendError : Type 0 where
  not_supported engine bad_args : (message : Bytes) → BackendError
  no_tracee : BackendError

-- The text of an error.
unfoldable pub error_text : BackendError → Bytes
error_text (not_supported message) = message
error_text (engine message) = message
error_text (bad_args message) = codes "invalid request arguments: " ++ message
error_text no_tracee =
    codes "no live replay tracee: the target has exited or was not launched from a trace"

-- A method takes the state of the backend to its answer and the state after it.
abbrev pub Method : Type 0 → Type 0 → Type 0
Method S A = S → Result BackendError A × S

-- `State` is what a `Box<dyn DebugBackend>` holds. `replay` opens a trace with a checkpoint
-- interval; it answers no backend on a platform that has none.
pub record DebugBackend (Value : Type 0) : Type 1 where
  pub State : Type 0
  pub stub : State
  pub replay : (trace : Bytes) (checkpoint_interval : ℕ) → Result Bytes (Option State)
  pub launch : Value → Method State StopInfo
  pub threads : Method State Value
  pub stack_trace : Value → Method State Value
  pub scopes : Value → Method State Value
  pub variables : Value → Method State Value
  pub resume : ResumeKind → Method State StopInfo
  pub list_checkpoints : Method State Value
  pub task_timeline : Method State Value
  pub jump_to_event : Value → Method State StopInfo
  pub checkpoint_note : State → Option Bytes
