-- ===== src/Dap/Backend.antt =====
-- The navigation of `ReplayBackend`, crates/dap/src/replay_backend.rs: the event timeline and the
-- requests that move along it. JSON arguments and answers are left out.
pub mod Navigation
use mirrorscope.Prelude.{
  ℕ, suc, ◌+◌, ◌-◌, ◌≡◌, leb, if◌then◌else◌, Bool, true, false, Option, none, some, List, [], ◌∷◌,
  length, get_elem?, Result, ok, err, ◌>>=◌, ok_or,
}
use mirrorscope.Prelude.Ints.{ℤ, pos}
use mirrorscope.Trace.Format.{EventKind, Record, syscall_exit}
use mirrorscope.Capture.Syscall.{Sys}
use mirrorscope.Replay.State.{Session, Os, ReplayError, ExitOutcome, running, exited, signaled}
use mirrorscope.Replay.Drive
use mirrorscope.Replay.Schedule.{trace_is_multithreaded}

-- `out_of_bounds` is the panic of an index, and none of the code's errors.
pub data BackendError : Type 0 where
  engine : ReplayError → BackendError
  no_tracee not_supported out_of_bounds : BackendError

pub data Reason : Type 0 where
  entry step : Reason

-- `Stopped` is always on the main thread, and the code's `Exited` is `ended` here.
pub data StopInfo : Type 0 where
  stopped : Reason → StopInfo
  ended : (code : ℤ) → StopInfo

pub data ResumeKind : Type 0 where
  continue reverse_continue step_back next step_in step_out : ResumeKind

pub record Backend (K : Type 0) : Type 0 where
  pub session : Session K
  pub events : List ℕ
  pub cursor : ℕ
  pub exited : Option ℤ
  pub multithreaded : Bool

abbrev pub engine_or : {A : Type 0} → Result ReplayError A → Result BackendError A
engine_or (ok a) = ok a
engine_or (err e) = err (engine e)

abbrev is_exit : EventKind → Bool
is_exit syscall_exit = true
is_exit _ = false

-- The numbers of the syscall exits, in the order of the trace.
unfoldable pub exit_seqs : List Record → List ℕ
exit_seqs [] = []
exit_seqs (r ∷ rs) = let rest = exit_seqs rs in if is_exit r.event.kind then r.seq ∷ rest else rest

-- `rposition(|&s| s <= reached)`, or 0.
unfoldable pub rposition : List ℕ → ℕ → Option ℕ
rposition [] reached = none
rposition (s ∷ ss) reached = elim (rposition ss reached) [
  | some i ↦ some (suc i)
  | none ↦ if leb s reached then some 0 else none
]

module _ {K : Type 0} where
  unfoldable pub open_backend : Session K → Backend K
  unfolding exit_seqs trace_is_multithreaded
  open_backend session = record {
    session = session;
    events = exit_seqs session.records;
    cursor = 0;
    exited = none;
    multithreaded = trace_is_multithreaded session.records;
  }

  -- A signal's code is 128 more than its number.
  unfoldable pub classify : Reason → ExitOutcome → Backend K → StopInfo × Backend K
  classify reason running b = (stopped reason, record b { exited = none })
  classify reason (exited code) b = (ended code, record b { exited = some code })
  classify reason (signaled sig) b =
      (ended (pos (128 + sig)), record b { exited = some (pos (128 + sig)) })

  unfoldable pub tracee_pid : Backend K → Result BackendError ℕ
  tracee_pid b = elim b.exited [ none ↦ ok b.session.pid | some code ↦ err no_tracee ]

module _ {K : Type 0} (os : Os K) (sys : Sys) (fuel : ℕ) where
  unfoldable pub goto : Reason → ℕ → Backend K → Result BackendError (StopInfo × Backend K)
  unfolding classify Drive.run_to
  goto reason index b = do
    seq ← ok_or (get_elem? b.events index) out_of_bounds
    (outcome, session) ← engine_or (Drive.run_to os sys fuel seq b.session)
    ok (classify reason outcome (record b { session = session; cursor = index }))

  unfoldable pub run_to_end : Backend K → Result BackendError (StopInfo × Backend K)
  unfolding classify Drive.run_to_end
  run_to_end b = do
    (outcome, session) ← engine_or (Drive.run_to_end os sys fuel b.session)
    ok (classify step outcome (record b { session = session; cursor = length b.events }))

  unfoldable pub launch : Backend K → Result BackendError (StopInfo × Backend K)
  unfolding goto run_to_end
  launch b = elim b.events [ [] ↦ run_to_end b | _ ↦ goto entry 0 b ]

  abbrev forward : Backend K → Result BackendError (StopInfo × Backend K)
  forward b =
      let further = b.cursor + 1 in
      if leb (length b.events) further then run_to_end b else goto step further b

  unfoldable pub resume : ResumeKind → Backend K → Result BackendError (StopInfo × Backend K)
  unfolding goto run_to_end
  resume continue b = run_to_end b
  resume reverse_continue b = elim b.events [ [] ↦ run_to_end b | _ ↦ goto step 0 b ]
  resume step_back b = elim b.events [ [] ↦ err not_supported | _ ↦ goto step (b.cursor - 1) b ]
  resume next b = forward b
  resume step_in b = forward b
  resume step_out b = forward b

  abbrev or_0 : Option ℕ → ℕ
  or_0 none = 0
  or_0 (some n) = n

  unfoldable pub jump_to_event : ℕ → Backend K → Result BackendError (StopInfo × Backend K)
  unfolding classify Drive.run_to rposition
  jump_to_event seq b = do
    (outcome, session) ← engine_or (Drive.run_to os sys fuel seq b.session)
    ok (
        classify step outcome (record b {
          session = session;
          cursor = or_0 (rposition b.events (or_0 session.current_seq));
        }))
