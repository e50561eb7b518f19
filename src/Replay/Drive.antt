-- ===== src/Replay/Drive.antt =====
-- `drive` of crates/replay/src/session.rs and the operations on it. The loop over the tracee's
-- stops takes fuel, one unit for each stop.
pub mod Checkpoints
pub mod Targets
pub mod Termination
use mirrorscope.Prelude.{
  ℕ, zero, suc, ◌==◌, if◌then◌else◌, false, Option, none, some, Result, ok, err, ◌>>=◌, ok_or,
}
use mirrorscope.Capture.Syscall.{Sys}
use mirrorscope.Capture.Sched.{WaitStatus, ptrace_syscall, stopped, exited, signaled}
use mirrorscope.Replay.State
use mirrorscope.Replay.State.{Session, Os, ReplayError, ptrace, out_of_fuel, ExitOutcome, running}
use mirrorscope.Replay.Session.{is_reached, on_syscall_stop, on_signal_stop, finish}
use mirrorscope.Replay.Snapshots.{maybe_checkpoint, jump_to, is_watch_hit, on_watch_hit}
use mirrorscope.Replay.Mt.{sigtrap}
use mirrorscope.Replay.Mt.Handlers

module _ {K : Type 0} (os : Os K) (sys : Sys) where
  -- A `SIGTRAP` that the watchpoint raised is served, and any other stop is the signal's.
  unfoldable pub on_stop : ℕ → Session K → Result ReplayError (Session K)
  unfolding is_watch_hit on_watch_hit on_signal_stop
  on_stop sig s = do
    hit ← (if sig == sigtrap then is_watch_hit os s.pid s else ok false)
    (if hit then on_watch_hit os s.pid s else on_signal_stop os sys sig s)

  -- What one stop of the single tracee does, and whether it ends the replay.
  unfoldable pub on_status :
      WaitStatus → Session K → Result ReplayError (Option ExitOutcome × Session K)
  unfolding on_syscall_stop maybe_checkpoint on_stop finish
  on_status (ptrace_syscall pid) s = do
    s ← on_syscall_stop os sys s
    s ← maybe_checkpoint os s
    ok (none, s)
  on_status (stopped pid sig) s = do s ← on_stop sig s; ok (none, s)
  on_status (exited pid code) s = ok (some (State.exited code), finish (State.exited code) s)
  on_status (signaled pid sig) s = ok (some (State.signaled sig), finish (State.signaled sig) s)
  on_status _ s = ok (none, s)

  unfoldable pub drive_loop :
      ℕ → Option ℕ → Session K → Result ReplayError (ExitOutcome × Session K)
  unfolding on_status
  drive_loop zero stop_at s = err out_of_fuel
  drive_loop (suc fuel) stop_at s =
      if is_reached stop_at s.current_seq then ok (running, s) else (do
        (status, k) ← ok_or (os.resume s.pid s.resume_signal s.os) ptrace
        (ended, s) ← on_status status (record s { os = k; resume_signal = none })
        elim ended [ some outcome ↦ ok (outcome, s) | none ↦ drive_loop fuel stop_at s ])

  unfoldable pub drive : ℕ → Option ℕ → Session K → Result ReplayError (ExitOutcome × Session K)
  unfolding drive_loop Handlers.drive
  drive fuel stop_at s = elim s.finished [
    | some outcome ↦ ok (outcome, s)
    | none ↦
        if s.multithreaded then Handlers.drive os sys fuel stop_at s else drive_loop fuel stop_at s
  ]

  unfoldable pub run_to : ℕ → ℕ → Session K → Result ReplayError (ExitOutcome × Session K)
  unfolding drive jump_to
  run_to fuel seq s = jump_to os seq s >>= drive fuel (some seq)

  unfoldable pub step_to : ℕ → ℕ → Session K → Result ReplayError (ExitOutcome × Session K)
  unfolding drive
  step_to fuel seq s = drive fuel (some seq) s

  unfoldable pub run_to_end : ℕ → Session K → Result ReplayError (ExitOutcome × Session K)
  unfolding drive
  run_to_end fuel s = drive fuel none s
