-- ===== src/Dap/Server/Tests.antt =====
-- The theorems about the server and its transport at a small session with the stub target.
use mirrorscope.Prelude.{
  ℕ, ◌≡◌, ◌++◌, refl, arith, ltb, if◌then◌else◌, Option, none, some, List, [], ◌∷◌, ok, take, drop,
  length,
}
use mirrorscope.Prelude.Bytes.{Bytes, le_bytes, from_le}
use mirrorscope.Prelude.Text.{codes, decimal}
use mirrorscope.Dap.Json.{Json, Request}
use mirrorscope.Dap.Interface.{DebugBackend}
use mirrorscope.Dap.Stub.{stub_backend}
use mirrorscope.Dap.Transport.{read_frame, write_frame}
use mirrorscope.Dap.Transport.RoundTrip.{read_frame-write_frame}
use mirrorscope.Dap.Server.{new_server, dispatch, run_buffered}
use mirrorscope.Dap.Server.Answers.{IsNumbered, answered, dispatch_answers}
use mirrorscope.Dap.Server.Run.{frames, served, Serves, run_buffered-Serves}
use mirrorscope.Dap.Server.Ends.{IsEnd, run_buffered_ends}

-- Values that are requests without arguments, or anything else; the text of a request is its
-- number and its command.
data Sample : Type 0 where
  call : (seq : ℕ) (command : Bytes) → Sample
  opaque_value : Sample

to_text : Sample → Bytes
to_text (call seq command) = le_bytes 8 seq ++ command
to_text opaque_value = []

of_text : Bytes → Option Sample
of_text text =
    if ltb (length text) 8
    then some opaque_value
    else some (call (from_le (take 8 text)) (drop 8 text))

request_of : Sample → Option (Request Sample)
request_of (call seq command) =
    some (record { seq = seq; command = command; arguments = opaque_value })
request_of opaque_value = none

abbrev json : Json
json = record {
  Value = Sample;
  boolean = λ b. opaque_value;
  number = λ n. opaque_value;
  string = λ text. opaque_value;
  array = λ items. opaque_value;
  object = λ fields. opaque_value;
  get = λ name value. none;
  as_str = λ value. none;
  as_u64 = λ value. none;
  to_vec = to_text;
  from_slice = of_text;
  to_request = request_of;
}

abbrev dbg : DebugBackend Sample
dbg = stub_backend json

-- The last request comes after the session ends.
abbrev session : List Sample
session =
    call 1 (codes "initialize")
    ∷ call 2 (codes "launch")
    ∷ opaque_value
    ∷ call 3 (codes "stepBack")
    ∷ call 4 (codes "disconnect")
    ∷ call 5 (codes "threads")
    ∷ []

read_frame-write_frame_example :
    read_frame json (write_frame json (call 1 (codes "launch")) ++ 65 ∷ [])
    ≡ ok (some (call 1 (codes "launch"), 65 ∷ []))
unfolding to_text of_text
read_frame-write_frame_example =
    read_frame-write_frame json (call 1 (codes "launch")) (65 ∷ []) refl (omega arith)

abbrev initialize : Request Sample
initialize = record { seq = 1; command = codes "initialize"; arguments = opaque_value }

dispatch_answers_example :
    IsNumbered 0
      (dispatch json dbg initialize (new_server json dbg)).1.next_seq
      (dispatch json dbg initialize (new_server json dbg)).0
    × (answered (dispatch json dbg initialize (new_server json dbg)).0
        ≡ (1, codes "initialize") ∷ [])
unfolding new_server
dispatch_answers_example = dispatch_answers json dbg initialize (new_server json dbg)

served_test :
    served json dbg session
    ≡ (1, codes "initialize")
      ∷ (2, codes "launch")
      ∷ (3, codes "stepBack")
      ∷ (4, codes "disconnect")
      ∷ []
unfolding request_of
served_test = refl

run_buffered-Serves_example :
    Serves json dbg
      (new_server json dbg)
      (served json dbg session)
      (run_buffered json dbg 1000 (frames json session) (new_server json dbg))
unfolding to_text of_text write_frame decimal
run_buffered-Serves_example =
    run_buffered-Serves json dbg 1000 session (new_server json dbg)
      (
        (refl, omega arith),
        (
          (refl, omega arith),
          (
            (refl, omega arith),
            ((refl, omega arith), ((refl, omega arith), ((refl, omega arith), tt))),
          ),
        ),
      )
      (omega arith)

run_buffered_ends_example :
    IsEnd json
      (codes "nonsense")
      (run_buffered json dbg 10 (codes "nonsense") (new_server json dbg)).0
run_buffered_ends_example =
    run_buffered_ends json dbg 10 (codes "nonsense") (new_server json dbg) (omega arith)
