-- ===== src/Replay/Mt/Schedule.antt =====
-- The schedule that crates/replay/src/mt.rs enforces: records of another thread, and what
-- crates/recorder/src/capture/sched.rs records when a thread that does not run exits.
use mirrorscope.Prelude.{
  ℕ, ◌≡◌, ◌≢◌, ◌<◌, refl, ◌∙◌, arith, lt→ltb, Bool, true, false, Option, some, [], ◌∷◌, ◌++◌, err,
}
use mirrorscope.Prelude.Ints.{ℤ}
use mirrorscope.Prelude.Maps.{contains_key}
use mirrorscope.Trace.Format.{
  Record, Event, EventKind, syscall_enter, syscall_exit, thread_spawn, thread_exit, signal,
  new_with_tid,
}
use mirrorscope.Capture.Payload.{encode_thread_exit}
use mirrorscope.Capture.Syscall.{Sys}
use mirrorscope.Capture.Sched
use mirrorscope.Capture.Sched.{Scheduler, Kernel}
use mirrorscope.Replay.State.{Session, Os, MtState, schedule_diverged, other_thread}
use mirrorscope.Replay.Mt.{enforce_tid, directed}
use mirrorscope.Replay.Mt.Handlers.{
  on_record, on_syscall_enter, on_syscall_exit, on_thread_spawn, on_thread_exit, on_signal,
}

-- The kinds whose record belongs to the thread that runs.
abbrev pub is_attributed : EventKind → Bool
is_attributed syscall_enter = true
is_attributed syscall_exit = true
is_attributed thread_spawn = true
is_attributed thread_exit = true
is_attributed signal = true
is_attributed _ = false

directed_refuses :
    (r : Record) (mt : MtState) (expected tid : ℕ)
    → mt.expected_tid ≡ some expected
    → r.event.tid ≡ some tid
    → expected ≢ tid
    → directed r mt ≡ err (schedule_diverged r.seq (other_thread expected tid))
unfolding directed enforce_tid
directed_refuses r mt expected tid e t ne = ground arith

module _ {K : Type 0} (os : Os K) (sys : Sys) where
  -- A syscall, spawn, exit or signal record of a thread other than the one that the schedule
  -- expects is refused with both tids, before the tracee is touched.
  pub on_record_refuses :
      (fuel : ℕ) (r : Record) (mt : MtState) (s : Session K) (expected tid : ℕ)
      → is_attributed r.event.kind ≡ true
      → mt.expected_tid ≡ some expected
      → r.event.tid ≡ some tid
      → expected ≢ tid
      → on_record os sys fuel r mt s ≡ err (schedule_diverged r.seq (other_thread expected tid))
  unfolding on_record on_syscall_enter on_syscall_exit on_thread_spawn on_thread_exit on_signal
  on_record_refuses fuel r mt s expected tid a e t ne = go r.event.kind refl
    where
      refused : directed r mt ≡ err (schedule_diverged r.seq (other_thread expected tid))
      refused = directed_refuses r mt expected tid e t ne

      go :
          (kind : EventKind)
          → r.event.kind ≡ kind
          → on_record os sys fuel r mt s ≡ err (schedule_diverged r.seq (other_thread expected tid))
      go syscall_enter k = ground (arith, refused)
      go syscall_exit k = ground (arith, refused)
      go thread_spawn k = ground (arith, refused)
      go thread_exit k = ground (arith, refused)
      go signal k = ground (arith, refused)
      go other k = ground arith

-- The event that the exit of a tracked thread adds to a recording of several threads.
exit_event :
    (k : Kernel) (p : ℕ) (code : Option ℤ) (s : Scheduler)
    → contains_key p s.threads ≡ true
    → 1 < s.threads_followed
    → (Sched.on_exit k p code s).trace
      ≡ s.trace ++ new_with_tid thread_exit k.now p (encode_thread_exit (record { tid = p })) ∷ []
unfolding Sched.on_exit Sched.leave Sched.wake_parent Sched.clear_running Sched.append Sched.requeue
exit_event k p code s tracked several = ground (arith, lt→ltb 1 s.threads_followed)

module _ {K : Type 0} (os : Os K) (sys : Sys) where
  -- A thread that is killed while another one was scheduled (as `exit_group` does to the threads
  -- that wait): `on_exit` adds its `ThreadExit` to a recording of several threads with no
  -- `SchedSwitch` to it, and the replay, expecting the thread last scheduled, refuses that record.
  pub on_exit_refused :
      (fuel : ℕ) (k : Kernel) (p q : ℕ) (code : Option ℤ) (s : Scheduler) (seq : ℕ) (mt : MtState)
      (session : Session K)
      → contains_key p s.threads ≡ true
      → 1 < s.threads_followed
      → s.last_scheduled ≡ some q
      → q ≢ p
      → mt.expected_tid ≡ s.last_scheduled
      → (event : Event) × ((Sched.on_exit k p code s).trace ≡ s.trace ++ event ∷ [])
        × (on_record os sys fuel (record { seq = seq; event = event }) mt session
            ≡ err (schedule_diverged seq (other_thread q p)))
  on_exit_refused fuel k p q code s seq mt session tracked several last ne same =
      let event = new_with_tid thread_exit k.now p (encode_thread_exit (record { tid = p })) in
      (
        event,
        exit_event k p code s tracked several,
        on_record_refuses os sys fuel (record { seq = seq; event = event }) mt session q p refl
            (same ∙ last) refl ne,
      )
