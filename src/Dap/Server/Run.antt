-- ===== src/Dap/Server/Run.antt =====
-- The request loop (crates/dap/src/server.rs) on the frames of a client.
use mirrorscope.Prelude.{
  ℕ, zero, suc, ◌≡◌, ◌<◌, ◌^◌, refl, ◌∙◌, arith, if◌then◌else◌, Bool-cases, Option-cases, inl, inr,
  none, some, List, [], ◌∷◌, ◌++◌, length, length-append, Result, ok, All,
}
use mirrorscope.Prelude.Bytes.{Bytes}
use mirrorscope.Dap.Json.{Json, Request}
use mirrorscope.Dap.Interface.{DebugBackend}
use mirrorscope.Dap.Protocol.{Message}
use mirrorscope.Dap.Transport.{read_frame, write_frame}
use mirrorscope.Dap.Transport.RoundTrip.{read_frame-write_frame}
use mirrorscope.Dap.Server.{Server, dispatch, is_disconnect, run_buffered}
use mirrorscope.Dap.Server.Answers.{
  IsNumbered, IsNumbered-append, answered, answered-append, dispatch_answers,
}

module _ (json : Json) where
  open json use {Value, to_vec, from_slice, to_request}

  -- Messages whose JSON text is read back as the message, and is shorter than 2^63 bytes.
  abbrev pub IsReadable : Value → Type 0
  IsReadable message =
      (from_slice (to_vec message) ≡ some message) × (length (to_vec message) < 2 ^ 63)

  abbrev pub frames : List Value → Bytes
  frames [] = []
  frames (message ∷ messages) = write_frame json message ++ frames messages

  -- A frame takes some of the input.
  frames-shorter :
      (message : Value) (messages : List Value)
      → length (frames messages) < length (frames (message ∷ messages))
  unfolding write_frame
  frames-shorter message messages =
      omega (arith, length-append (write_frame json message) (frames messages))

  read_frame-nil : read_frame json [] ≡ ok none
  unfolding read_frame
  read_frame-nil = refl

module _ (json : Json) (dbg : DebugBackend json.Value) where
  open json use {Value, to_request}

  abbrev pub request_key : Request Value → ℕ × Bytes
  request_key request = (request.seq, request.command)

  -- The requests among the messages, up to the first `disconnect`.
  abbrev pub served : List Value → List (ℕ × Bytes)
  served [] = []
  served (message ∷ messages) =
      let later = served messages in
      elim (to_request message) [
        | none ↦ later
        | some request ↦
            request_key request ∷ (if is_disconnect json dbg request then [] else later)
      ]

  served-other :
      (message : Value) (messages : List Value)
      → to_request message ≡ none
      → served (message ∷ messages) ≡ served messages
  served-other message messages other = rw (served, other)

  served-request :
      (message : Value) (messages : List Value) (request : Request Value)
      → to_request message ≡ some request
      → served (message ∷ messages)
        ≡ request_key request ∷ (if is_disconnect json dbg request then [] else served messages)
  served-request message messages request is = rw (served, is)

  -- What the loop answers: it ends without an error, numbers what it writes, and answers these.
  abbrev pub Serves :
      Server dbg.State
      → List (ℕ × Bytes)
      → Result mirrorscope.Dap.Transport.TransportError Unit
        × List (Message Value)
        × Server dbg.State
      → Type 0
  Serves s answers (end, out, s') =
      (end ≡ ok tt) × IsNumbered s.next_seq s'.next_seq out × (answered out ≡ answers)

  run_buffered-nil :
      (fuel : ℕ) (s : Server dbg.State) → run_buffered json dbg (suc fuel) [] s ≡ (ok tt, [], s)
  unfolding run_buffered
  run_buffered-nil fuel s = rw (run_buffered, read_frame-nil json)

  module _ (fuel : ℕ) (message : Value) (messages : List Value) (s : Server dbg.State)
      (readable : IsReadable json message) where
    rest : Bytes
    rest = frames json messages

    read : read_frame json (write_frame json message ++ rest) ≡ ok (some (message, rest))
    read = read_frame-write_frame json message rest readable.0 readable.1

    run_buffered-other :
        to_request message ≡ none
        → run_buffered json dbg (suc fuel) (frames json (message ∷ messages)) s
          ≡ run_buffered json dbg fuel rest s
    unfolding run_buffered rest
    run_buffered-other other = rw (run_buffered, read, other)

    run_buffered-request :
        (request : Request Value)
        → to_request message ≡ some request
        → run_buffered json dbg (suc fuel) (frames json (message ∷ messages)) s ≡ (
            let (out, s1) = dispatch json dbg request s in
            let later = run_buffered json dbg fuel rest s1 in
            if is_disconnect json dbg request
            then (ok tt, out, s1)
            else (later.0, out ++ later.1, later.2))
    unfolding run_buffered rest
    run_buffered-request request is = rw (run_buffered, read, is)

  -- A client that sends any messages, each readable, gets every request answered: the loop ends
  -- without an error, having written exactly one response for each request up to the first
  -- `disconnect`, in the order of the requests, with their numbers and commands; and all messages
  -- it has written are numbered one after the other. The fuel is more than the input has bytes.
  pub run_buffered-Serves :
      (fuel : ℕ) (messages : List Value) (s : Server dbg.State)
      → All (IsReadable json) messages
      → length (frames json messages) < fuel
      → Serves s (served messages) (run_buffered json dbg fuel (frames json messages) s)
  unfolding rest
  run_buffered-Serves zero messages s readable enough = absurd (omega arith)
  run_buffered-Serves (suc fuel) [] s readable enough =
      rw (run_buffered-nil fuel s) (refl, refl, refl)
  run_buffered-Serves (suc fuel) (message ∷ messages) s readable enough =
      let less = frames-shorter json message messages in
      let deeper : (s1 : Server dbg.State)
          → Serves s1 (served messages) (run_buffered json dbg fuel (frames json messages) s1) =
        λ s1. run_buffered-Serves fuel messages s1 readable.1 (omega (arith, less, enough)) in
      elim (Option-cases (to_request message)) [
        | inl other ↦
            rw
              (
                run_buffered-other fuel message messages s readable.0 other,
                served-other message messages other,
              )
              (deeper s)
        | inr (request, is) ↦
            let now = dispatch_answers json dbg request s in
            elim (Bool-cases (is_disconnect json dbg request)) [
              | inl last ↦
                  rw
                    (
                      run_buffered-request fuel message messages s readable.0 request is,
                      served-request message messages request is,
                      last,
                    )
                    (refl, now.0, now.1)
              | inr more ↦
                  let (out, s1) = dispatch json dbg request s in
                  let later = run_buffered json dbg fuel (frames json messages) s1 in
                  let (ended, numbered, answers) = deeper s1 in
                  rw
                    (
                      run_buffered-request fuel message messages s readable.0 request is,
                      served-request message messages request is,
                      more,
                    )
                    (
                      ended,
                      IsNumbered-append out later.1 s.next_seq s1.next_seq later.2.next_seq now.0
                          numbered,
                      answered-append out later.1 ∙ rw (now.1, answers),
                    )
            ]
      ]
