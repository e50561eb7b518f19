-- ===== src/Dap/Stub.antt =====
-- The static target of crates/dap/src/stub.rs, and `StubBackend` of crates/dap/src/backend.rs, which
-- serves it.
use mirrorscope.Prelude.{ℕ, false, none, [], ◌∷◌, ◌++◌, Result, ok, err}
use mirrorscope.Prelude.Bytes.{Bytes}
use mirrorscope.Prelude.Ints.{pos}
use mirrorscope.Prelude.Text.{codes}
use mirrorscope.Dap.Backend.{
  ResumeKind, continue, reverse_continue, step_back, next, step_in, step_out,
}
use mirrorscope.Dap.Json.{Json}
use mirrorscope.Dap.Interface.{StopInfo, stopped, BackendError, not_supported, DebugBackend}

abbrev pub main_thread_id : ℕ
main_thread_id = 1

unfoldable pub stopped_main : Bytes → StopInfo
stopped_main reason = stopped reason main_thread_id

unfoldable pub reverse_stub_message : Bytes
reverse_stub_message =
    codes "not wired to the replay engine: reverse execution needs a recording "
    ++ codes "(launch with a "
    ++ 34 ∷ codes "trace"
    ++ 34 ∷ codes " argument)"

unfoldable pub jump_stub_message : Bytes
jump_stub_message =
    codes "jumpToEvent needs the replay engine: launch with a "
    ++ 34 ∷ codes "trace"
    ++ 34 ∷ codes " argument"

-- An em dash.
abbrev dash : Bytes
dash = 0xe2 ∷ 0x80 ∷ 0x94 ∷ []

module _ (json : Json) where
  open json use {Value, boolean, number, string, array, object}

  unfoldable pub threads_body : Value
  threads_body = object (
      (
        codes "threads",
        array (
            object (
              (codes "id", number (pos main_thread_id))
              ∷ (codes "name", string (codes "main"))
              ∷ [])
            ∷ []),
      )
      ∷ [])

  stub_frame : ℕ → Bytes → ℕ → ℕ → Value
  stub_frame id name line column = object (
      (codes "id", number (pos id))
      ∷ (codes "name", string name)
      ∷ (codes "line", number (pos line))
      ∷ (codes "column", number (pos column))
      ∷ [])

  unfoldable pub stack_trace_body : Value
  unfolding stub_frame
  stack_trace_body = object (
      (
        codes "stackFrames",
        array (
            stub_frame 1
              (codes "main (stub target " ++ dash ++ codes " recording/replay not yet wired)") 1 1
            ∷ stub_frame 2 (codes "_start (stub)") 0 0
            ∷ []),
      )
      ∷ (codes "totalFrames", number (pos 2))
      ∷ [])

  unfoldable pub scopes_body : Value
  scopes_body = object (
      (
        codes "scopes",
        array (
            object (
              (codes "name", string (codes "Locals"))
              ∷ (codes "variablesReference", number (pos 1))
              ∷ (codes "expensive", boolean false)
              ∷ [])
            ∷ []),
      )
      ∷ [])

  unfoldable pub variables_body : Value
  variables_body = object (
      (
        codes "variables",
        array (
            object (
              (codes "name", string (codes "mirrorscope"))
              ∷ (
                codes "value",
                string (codes "stub target " ++ dash ++ codes " see issues #4/#6 for real state"),
              )
              ∷ (codes "variablesReference", number (pos 0))
              ∷ [])
            ∷ []),
      )
      ∷ [])

  -- The static target moves nowhere.
  unfoldable pub stub_resume : ResumeKind → Result BackendError StopInfo
  unfolding reverse_stub_message stopped_main
  stub_resume step_back = err (not_supported reverse_stub_message)
  stub_resume reverse_continue = err (not_supported reverse_stub_message)
  stub_resume continue = ok (stopped_main (codes "step"))
  stub_resume next = ok (stopped_main (codes "step"))
  stub_resume step_in = ok (stopped_main (codes "step"))
  stub_resume step_out = ok (stopped_main (codes "step"))

  -- The backend without a replay engine, as off Linux: a trace selects nothing.
  unfoldable pub stub_backend : DebugBackend Value
  unfolding threads_body stack_trace_body scopes_body variables_body stub_resume
  stub_backend = record {
    State = Unit;
    stub = tt;
    replay = λ trace checkpoint_interval. ok none;
    launch = λ arguments s. (ok (stopped_main (codes "entry")), s);
    threads = λ s. (ok threads_body, s);
    stack_trace = λ arguments s. (ok stack_trace_body, s);
    scopes = λ arguments s. (ok scopes_body, s);
    variables = λ arguments s. (ok variables_body, s);
    resume = λ kind s. (stub_resume kind, s);
    list_checkpoints = λ s. (ok (object ((codes "checkpoints", array []) ∷ [])), s);
    task_timeline = λ s. (ok (object ((codes "tasks", array []) ∷ [])), s);
    jump_to_event = λ arguments s. (err (not_supported jump_stub_message), s);
    checkpoint_note = λ s. none;
  }
