-- ===== src/Dap/Server.antt =====
-- crates/dap/src/server.rs: the request loop of the debug adapter. The writer is the list of the
-- messages written; each of them is framed by `write_frame`, and the writes do not fail.
pub mod Answers
pub mod Run
pub mod Ends
mod Tests
use mirrorscope.Prelude.{
  zero, suc, Bool, ℕ, ◌+◌, ◌%◌, ◌^◌, if◌then◌else◌, true, false, Option, none, some, List, [], ◌∷◌,
  ◌++◌, Result, ok, err,
}
use mirrorscope.Prelude.Bytes.{Bytes}
use mirrorscope.Prelude.Ints.{pos}
use mirrorscope.Prelude.Text.{codes, eq_Bytes}
use mirrorscope.Dap.Backend.{
  ResumeKind, continue, reverse_continue, step_back, next, step_in, step_out,
}
use mirrorscope.Dap.Json.{Json, Request}
use mirrorscope.Dap.Interface.{StopInfo, stopped, exited, BackendError, error_text, DebugBackend}
use mirrorscope.Dap.Transport.{TransportError, out_of_fuel, read_frame, write_frame}
use mirrorscope.Dap.Protocol.{Message, success, failure, event, to_value}

pub record Server (State : Type 0) : Type 0 where
  pub next_seq : ℕ
  pub backend : State

-- The arms of the match on a request's command.
pub data Command : Type 0 where
  initialize launch acknowledge threads stack_trace scopes variables : Command
  list_checkpoints task_timeline jump_to_event unsupported : Command
  resume : ResumeKind → Command

abbrev table : List (Bytes × Command)
table =
    (codes "initialize", initialize)
    ∷ (codes "launch", launch)
    ∷ (codes "attach", launch)
    ∷ (codes "configurationDone", acknowledge)
    ∷ (codes "disconnect", acknowledge)
    ∷ (codes "setBreakpoints", acknowledge)
    ∷ (codes "setExceptionBreakpoints", acknowledge)
    ∷ (codes "threads", threads)
    ∷ (codes "stackTrace", stack_trace)
    ∷ (codes "scopes", scopes)
    ∷ (codes "variables", variables)
    ∷ (codes "listCheckpoints", list_checkpoints)
    ∷ (codes "taskTimeline", task_timeline)
    ∷ (codes "continue", resume continue)
    ∷ (codes "reverseContinue", resume reverse_continue)
    ∷ (codes "stepBack", resume step_back)
    ∷ (codes "next", resume next)
    ∷ (codes "stepIn", resume step_in)
    ∷ (codes "stepOut", resume step_out)
    ∷ (codes "jumpToEvent", jump_to_event)
    ∷ []

find_command : Bytes → List (Bytes × Command) → Command
find_command name [] = unsupported
find_command name ((n, c) ∷ rest) =
    let later = find_command name rest in if eq_Bytes n name then c else later

unfoldable pub command_of : Bytes → Command
unfolding find_command
command_of name = find_command name table

abbrev pub bump : ℕ → ℕ
bump seq = (seq + 1) % 2 ^ 64

module _ (json : Json) (dbg : DebugBackend json.Value) where
  open json use {Value, boolean, number, string, object, get, as_str, as_u64, to_request}

  -- A part of a handler: the messages that it writes, and the server after it.
  abbrev pub Handler : Type 0
  Handler = Server dbg.State → List (Message Value) × Server dbg.State

  abbrev pub pass : Handler
  pass s = ([], s)

  infixr 5 ◌then◌
  abbrev pub ◌then◌ : Handler → Handler → Handler
  (h then k) s = let (out, s1) = h s in let (more, s2) = k s1 in (out ++ more, s2)

  abbrev pub empty_object : Value
  empty_object = object []

  unfoldable pub respond_success : Request Value → Value → Handler
  respond_success request body s =
      let seq = bump s.next_seq in (success seq request body ∷ [], record s { next_seq = seq })

  unfoldable pub respond_failure : Request Value → Bytes → Handler
  respond_failure request message s =
      let seq = bump s.next_seq in (failure seq request message ∷ [], record s { next_seq = seq })

  unfoldable pub emit_event : Bytes → Value → Handler
  emit_event name body s =
      let seq = bump s.next_seq in (event seq name body ∷ [], record s { next_seq = seq })

  unfoldable pub emit_output : Bytes → Handler
  unfolding emit_event
  emit_output message = emit_event (codes "output") (
      object (
        (codes "category", string (codes "stderr"))
        ∷ (codes "output", string (message ++ 10 ∷ []))
        ∷ []))

  unfoldable pub emit_stop : StopInfo → Handler
  unfolding emit_event
  emit_stop (stopped reason thread_id) = emit_event (codes "stopped") (
      object (
        (codes "reason", string reason)
        ∷ (codes "threadId", number (pos thread_id))
        ∷ (codes "allThreadsStopped", boolean true)
        ∷ []))
  emit_stop (exited code) =
      emit_event (codes "exited") (object ((codes "exitCode", number code) ∷ []))
      then emit_event (codes "terminated") empty_object

  -- A backend's error shows as an output and as the failure of the request.
  unfoldable pub fail : Request Value → BackendError → Handler
  unfolding emit_output respond_failure
  fail request error =
      emit_output (error_text error) then respond_failure request (error_text error)

  unfoldable pub answer : Request Value → Result BackendError Value → Handler
  unfolding respond_success fail
  answer request (ok body) = respond_success request body
  answer request (err error) = fail request error

  -- A method of the backend, and what follows on its answer.
  abbrev pub call : {A : Type 0} → (dbg.State → A × dbg.State) → (A → Handler) → Handler
  call method follow s =
      let (result, backend) = method s.backend in follow result (record s { backend = backend })

  -- The answer to a request that moves the target: the response, then the stop.
  unfoldable pub answer_stop : Request Value → Value → Result BackendError StopInfo → Handler
  unfolding respond_success emit_stop fail
  answer_stop request body (ok stop) = respond_success request body then emit_stop stop
  answer_stop request body (err error) = fail request error

  unfoldable pub on_initialize : Request Value → Handler
  unfolding respond_success emit_event
  on_initialize request =
      respond_success request (
        object (
          (codes "supportsConfigurationDoneRequest", boolean true)
          ∷ (codes "supportsStepBack", boolean true)
          ∷ (codes "supportsRestartRequest", boolean false)
          ∷ (codes "supportsSetVariable", boolean false)
          ∷ []))
      then emit_event (codes "initialized") empty_object

  unfoldable pub note_output : Option Bytes → Handler
  unfolding emit_output
  note_output none = pass
  note_output (some text) = emit_output text

  abbrev pub note : Handler
  note s = note_output (dbg.checkpoint_note s.backend) s

  -- What follows on the backend's answer to `launch`.
  unfoldable pub launched : Request Value → Result BackendError StopInfo → Handler
  unfolding respond_success emit_output emit_stop fail
  launched request (ok stop) = respond_success request empty_object then note then emit_stop stop
  launched request (err error) = fail request error

  unfoldable pub launch_backend : Request Value → Handler
  unfolding launched
  launch_backend request = call (dbg.launch request.arguments) (launched request)

  unfoldable pub default_checkpoint_interval : ℕ
  default_checkpoint_interval = 200

  unfoldable pub checkpoint_interval : Value → ℕ
  unfolding default_checkpoint_interval
  checkpoint_interval arguments = elim (get (codes "checkpointInterval") arguments) [
    | none ↦ default_checkpoint_interval
    | some v ↦ elim (as_u64 v) [ none ↦ default_checkpoint_interval | some n ↦ n ]
  ]

  unfoldable pub trace_argument : Value → Option Bytes
  trace_argument arguments = elim (get (codes "trace") arguments) [
    | none ↦ none
    | some v ↦ as_str v
  ]

  abbrev pub unavailable : Bytes
  unavailable = codes "replay backend unavailable on this platform; serving the stub target"

  -- What `select_replay_backend` answers: a backend to serve, none on this platform, or why the
  -- trace cannot be opened.
  unfoldable pub launch_selected : Request Value → Result Bytes (Option dbg.State) → Handler
  unfolding emit_output respond_failure launch_backend
  launch_selected request (ok (some backend)) s =
      launch_backend request (record s { backend = backend })
  launch_selected request (ok none) s = (emit_output unavailable then launch_backend request) s
  launch_selected request (err message) s =
      (emit_output message then respond_failure request message) s

  -- A trace selects the replay backend; without one the backend stays.
  unfoldable pub launch_with : Request Value → Option Bytes → Handler
  unfolding launch_backend launch_selected checkpoint_interval
  launch_with request none = launch_backend request
  launch_with request (some trace) =
      launch_selected request (dbg.replay trace (checkpoint_interval request.arguments))

  unfoldable pub on_launch : Request Value → Handler
  unfolding launch_with trace_argument
  on_launch request = launch_with request (trace_argument request.arguments)

  abbrev pub resume_body : ResumeKind → Value
  resume_body continue = object ((codes "allThreadsContinued", boolean true) ∷ [])
  resume_body _ = empty_object

  unfoldable pub run_command : Request Value → Command → Handler
  unfolding on_initialize on_launch respond_success respond_failure answer answer_stop
  run_command request initialize = on_initialize request
  run_command request launch = on_launch request
  run_command request acknowledge = respond_success request empty_object
  run_command request threads = call dbg.threads (answer request)
  run_command request stack_trace = call (dbg.stack_trace request.arguments) (answer request)
  run_command request scopes = call (dbg.scopes request.arguments) (answer request)
  run_command request variables = call (dbg.variables request.arguments) (answer request)
  run_command request list_checkpoints = call dbg.list_checkpoints (answer request)
  run_command request task_timeline = call dbg.task_timeline (answer request)
  run_command request (resume kind) =
      call (dbg.resume kind) (answer_stop request (resume_body kind))
  run_command request jump_to_event =
      call (dbg.jump_to_event request.arguments) (answer_stop request empty_object)
  run_command request unsupported =
      respond_failure request (codes "unsupported request: " ++ request.command)

  unfoldable pub dispatch : Request Value → Handler
  unfolding run_command
  dispatch request = run_command request (command_of request.command)

  unfoldable pub new_server : Server dbg.State
  new_server = record { next_seq = 0; backend = dbg.stub }

  abbrev pub is_disconnect : Request Value → Bool
  is_disconnect request = eq_Bytes request.command (codes "disconnect")

  -- How the loop ends, what it has written, and the server then. A value that is no request is
  -- passed over. Each frame takes some of the input, whose length and one is fuel enough.
  unfoldable pub run_buffered :
      (fuel : ℕ)
      → (input : Bytes) → Server dbg.State
      → Result TransportError Unit × List (Message Value) × Server dbg.State
  run_buffered zero input s = (err out_of_fuel, [], s)
  run_buffered (suc fuel) input s = elim (read_frame json input) [
    | err e ↦ (err e, [], s)
    | ok none ↦ (ok tt, [], s)
    | ok (some (message, rest)) ↦ elim (to_request message) [
      | none ↦ run_buffered fuel rest s
      | some request ↦
          let (out, s1) = dispatch request s in
          let later = run_buffered fuel rest s1 in
          if is_disconnect request then (ok tt, out, s1) else (later.0, out ++ later.1, later.2)
    ]
  ]

  -- The bytes on the wire.
  unfoldable pub wire : List (Message Value) → Bytes
  unfolding write_frame to_value
  wire [] = []
  wire (m ∷ ms) = write_frame json (to_value json m) ++ wire ms
