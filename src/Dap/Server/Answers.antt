-- ===== src/Dap/Server/Answers.antt =====
-- What the server (crates/dap/src/server.rs) writes for one request.
use mirrorscope.Prelude.{
  ℕ, ◌≡◌, refl, ap, sym, subst, ◌∙◌, Option, none, some, List, [], ◌∷◌, ◌++◌, Result, ok, err,
}
use mirrorscope.Prelude.Bytes.{Bytes}
use mirrorscope.Prelude.Text.{codes}
use mirrorscope.Dap.Json.{Json, Request}
use mirrorscope.Dap.Interface.{StopInfo, stopped, exited, BackendError, error_text, DebugBackend}
use mirrorscope.Dap.Protocol.{Message, success, failure, event}
use mirrorscope.Dap.Server as Srv
use mirrorscope.Dap.Server.{
  Server, Command, bump, Handler, call, ◌then◌, respond_success, respond_failure, emit_event,
  emit_output, emit_stop, fail, answer, answer_stop, on_initialize, launched, launch_backend,
  launch_selected, launch_with, on_launch, unavailable, resume_body, note, note_output,
  trace_argument, checkpoint_interval, empty_object, run_command, command_of, dispatch,
}

module _ {Value : Type 0} where
  abbrev pub seq_of : Message Value → ℕ
  seq_of (success seq request body) = seq
  seq_of (failure seq request message) = seq
  seq_of (event seq name body) = seq

  -- Each message has the number behind that of the one before; `last` is the number of the last.
  abbrev pub IsNumbered : (start last : ℕ) → List (Message Value) → Type 0
  IsNumbered start last [] = start ≡ last
  IsNumbered start last (m ∷ ms) = (seq_of m ≡ bump start) × IsNumbered (bump start) last ms

  -- The requests that are answered, by their number and command.
  abbrev pub answered : List (Message Value) → List (ℕ × Bytes)
  answered [] = []
  answered (success seq request body ∷ ms) = (request.seq, request.command) ∷ answered ms
  answered (failure seq request message ∷ ms) = (request.seq, request.command) ∷ answered ms
  answered (event seq name body ∷ ms) = answered ms

  pub IsNumbered-append :
      (ms ns : List (Message Value)) (a b c : ℕ)
      → IsNumbered a b ms
      → IsNumbered b c ns
      → IsNumbered a c (ms ++ ns)
  IsNumbered-append [] ns a b c h k = subst (λ x. IsNumbered x c ns) (sym h) k
  IsNumbered-append (m ∷ ms) ns a b c h k = (h.0, IsNumbered-append ms ns (bump a) b c h.1 k)

  pub answered-append :
      (ms ns : List (Message Value)) → answered (ms ++ ns) ≡ answered ms ++ answered ns
  answered-append [] ns = refl
  answered-append (success seq request body ∷ ms) ns =
      ap (λ t. (request.seq, request.command) ∷ t) (answered-append ms ns)
  answered-append (failure seq request message ∷ ms) ns =
      ap (λ t. (request.seq, request.command) ∷ t) (answered-append ms ns)
  answered-append (event seq name body ∷ ms) ns = answered-append ms ns

module _ (json : Json) (dbg : DebugBackend json.Value) where
  open json use {Value}

  -- From any server, the handler numbers its messages from the server's number on, leaves the
  -- number of the last, and answers the requests given.
  pub Writes : List (ℕ × Bytes) → Handler json dbg → Type 0
  Writes answers h =
      (s : Server dbg.State)
      → IsNumbered s.next_seq (h s).1.next_seq (h s).0 × (answered (h s).0 ≡ answers)

  Writes-then :
      (a b : List (ℕ × Bytes)) (h k : Handler json dbg)
      → Writes a h
      → Writes b k
      → Writes (a ++ b) (◌then◌ json dbg h k)
  unfolding Writes
  Writes-then a b h k p q s =
      let first = p s in
      let second = q (h s).1 in
      (
        IsNumbered-append (h s).0 (k (h s).1).0 s.next_seq (h s).1.next_seq (k (h s).1).1.next_seq
            first.0 second.0,
        answered-append (h s).0 (k (h s).1).0 ∙ ap2 first.1 second.1,
      )
    where
      ap2 : {x y z w : List (ℕ × Bytes)} → x ≡ y → z ≡ w → x ++ z ≡ y ++ w
      ap2 e f = rw (e, f)

  Writes-call :
      {A : Type 0} (method : dbg.State → A × dbg.State) (follow : A → Handler json dbg)
      (answers : List (ℕ × Bytes))
      → ((a : A) → Writes answers (follow a))
      → Writes answers (call json dbg method follow)
  unfolding Writes
  Writes-call method follow answers h s =
      h (method s.backend).0 (record s { backend = (method s.backend).1 })

  event-Writes : (name : Bytes) (body : Value) → Writes [] (emit_event json dbg name body)
  unfolding Writes emit_event
  event-Writes name body s = ((refl, refl), refl)

  output-Writes : (message : Bytes) → Writes [] (emit_output json dbg message)
  unfolding Writes emit_output
  output-Writes message s = ((refl, refl), refl)

  stop-Writes : (stop : StopInfo) → Writes [] (emit_stop json dbg stop)
  unfolding Writes emit_stop
  stop-Writes (stopped reason thread_id) s = ((refl, refl), refl)
  stop-Writes (exited code) s = ((refl, (refl, refl)), refl)

  note_output-Writes : (text : Option Bytes) → Writes [] (note_output json dbg text)
  unfolding Writes note_output
  note_output-Writes none s = (refl, refl)
  note_output-Writes (some text) s = output-Writes text s

  note-Writes : Writes [] (note json dbg)
  unfolding Writes
  note-Writes s = note_output-Writes (dbg.checkpoint_note s.backend) s

  module _ (request : Request Value) where
    key : List (ℕ × Bytes)
    key = (request.seq, request.command) ∷ []

    success-Writes : (body : Value) → Writes key (respond_success json dbg request body)
    unfolding Writes respond_success key
    success-Writes body s = ((refl, refl), refl)

    failure-Writes : (message : Bytes) → Writes key (respond_failure json dbg request message)
    unfolding Writes respond_failure key
    failure-Writes message s = ((refl, refl), refl)

    fail-Writes : (error : BackendError) → Writes key (fail json dbg request error)
    unfolding fail
    fail-Writes error =
        Writes-then [] key (emit_output json dbg (error_text error))
          (respond_failure json dbg request (error_text error)) (output-Writes (error_text error))
          (failure-Writes (error_text error))

    answer-Writes :
        (result : Result BackendError Value) → Writes key (answer json dbg request result)
    unfolding answer
    answer-Writes (ok body) = success-Writes body
    answer-Writes (err error) = fail-Writes error

    answer_stop-Writes :
        (body : Value) (result : Result BackendError StopInfo)
        → Writes key (answer_stop json dbg request body result)
    unfolding answer_stop key
    answer_stop-Writes body (ok stop) =
        Writes-then key [] (respond_success json dbg request body) (emit_stop json dbg stop)
          (success-Writes body) (stop-Writes stop)
    answer_stop-Writes body (err error) = fail-Writes error

    initialize-Writes : Writes key (on_initialize json dbg request)
    unfolding on_initialize key respond_success emit_event Writes
    initialize-Writes s = ((refl, (refl, refl)), refl)

    launched-Writes :
        (result : Result BackendError StopInfo) → Writes key (launched json dbg request result)
    unfolding launched key
    launched-Writes (ok stop) =
        Writes-then key [] (respond_success json dbg request (empty_object json dbg))
          (◌then◌ json dbg (note json dbg) (emit_stop json dbg stop))
          (success-Writes (empty_object json dbg))
          (Writes-then [] [] (note json dbg) (emit_stop json dbg stop) note-Writes
            (stop-Writes stop))
    launched-Writes (err error) = fail-Writes error

    launch_backend-Writes : Writes key (launch_backend json dbg request)
    unfolding launch_backend
    launch_backend-Writes =
        Writes-call (dbg.launch request.arguments) (launched json dbg request) key launched-Writes

    selected-Writes :
        (selected : Result Bytes (Option dbg.State))
        → Writes key (launch_selected json dbg request selected)
    unfolding launch_selected Writes
    selected-Writes (ok (some backend)) s = launch_backend-Writes (record s { backend = backend })
    selected-Writes (ok none) s =
        Writes-then [] key (emit_output json dbg (unavailable json dbg))
          (launch_backend json dbg request) (output-Writes (unavailable json dbg))
          launch_backend-Writes s
    selected-Writes (err message) s =
        Writes-then [] key (emit_output json dbg message) (respond_failure json dbg request message)
          (output-Writes message) (failure-Writes message) s

    launch_with-Writes : (trace : Option Bytes) → Writes key (launch_with json dbg request trace)
    unfolding launch_with
    launch_with-Writes none = launch_backend-Writes
    launch_with-Writes (some trace) =
        selected-Writes (dbg.replay trace (checkpoint_interval json dbg request.arguments))

    command-Writes : (command : Command) → Writes key (run_command json dbg request command)
    unfolding run_command on_launch
    command-Writes Srv.initialize = initialize-Writes
    command-Writes Srv.launch = launch_with-Writes (trace_argument json dbg request.arguments)
    command-Writes Srv.acknowledge = success-Writes (empty_object json dbg)
    command-Writes Srv.threads = Writes-call dbg.threads (answer json dbg request) key answer-Writes
    command-Writes Srv.stack_trace =
        Writes-call (dbg.stack_trace request.arguments) (answer json dbg request) key answer-Writes
    command-Writes Srv.scopes =
        Writes-call (dbg.scopes request.arguments) (answer json dbg request) key answer-Writes
    command-Writes Srv.variables =
        Writes-call (dbg.variables request.arguments) (answer json dbg request) key answer-Writes
    command-Writes Srv.list_checkpoints =
        Writes-call dbg.list_checkpoints (answer json dbg request) key answer-Writes
    command-Writes Srv.task_timeline =
        Writes-call dbg.task_timeline (answer json dbg request) key answer-Writes
    command-Writes (Srv.resume kind) =
        Writes-call (dbg.resume kind) (answer_stop json dbg request (resume_body json dbg kind)) key
          (answer_stop-Writes (resume_body json dbg kind))
    command-Writes Srv.jump_to_event =
        Writes-call (dbg.jump_to_event request.arguments)
          (answer_stop json dbg request (empty_object json dbg)) key
          (answer_stop-Writes (empty_object json dbg))
    command-Writes Srv.unsupported =
        failure-Writes (codes "unsupported request: " ++ request.command)

  -- Whatever the request, the backend and its answers: the server writes exactly one response,
  -- which carries the number and the command of the request, and numbers the messages it writes,
  -- events included, one after the other from its own number on.
  pub dispatch_answers :
      (request : Request Value) (s : Server dbg.State)
      → IsNumbered s.next_seq
          (dispatch json dbg request s).1.next_seq
          (dispatch json dbg request s).0
        × (answered (dispatch json dbg request s).0 ≡ (request.seq, request.command) ∷ [])
  unfolding dispatch Writes key
  dispatch_answers request s = command-Writes request (command_of request.command) s
