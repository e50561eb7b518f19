-- ===== src/Capture/Sched/Attribution.antt =====
-- Whose events the scheduler of crates/recorder/src/capture/sched.rs records.
use mirrorscope.Prelude.{
  ℕ, ◌≡◌, subst, arith, ◌==◌, ltb, ◌&&◌, Bool-cases, Option-cases, inl, inr, ◌⊎◌, false, Option,
  none, some, [], ◌∷◌, ◌++◌, Result, ok, Result-cases,
}
use mirrorscope.Prelude.Maps.{contains_key}
use mirrorscope.Trace.Format.{Event, thread_exit, thread_spawn, signal, new_with_tid}
use mirrorscope.Capture.Payload.{encode_thread_spawn, encode_signal, encode_thread_exit}
use mirrorscope.Prelude.Ints.{ℤ, pos}
use mirrorscope.Prelude.Bytes.{Bytes}
use mirrorscope.Capture.Syscall.{Sys, SyscallRegs, enter_event, exit_event, CaptureError}
use mirrorscope.Capture.Sched.{
  Scheduler, Kernel, WaitStatus, ptrace_syscall, ptrace_event, stopped, exited, signaled,
  other_status, PtraceEvent, clone, fork, vfork, exec, other_event, append, requeue, clear_running,
  update_thread, record_sched_switch, resume_next, register_child, pending_enter_of, on_syscall,
  on_spawn, on_stopped, on_exit, leave, wake_parent, handle, is_spawn_event, sigstop,
}

-- The thread that runs is the one last scheduled.
abbrev pub IsCurrent : Scheduler → Type 0
IsCurrent s = (p : ℕ) → s.running ≡ some p → s.last_scheduled ≡ some p

resume_next-IsCurrent : (k : Kernel) (s : Scheduler) → IsCurrent s → IsCurrent (resume_next k s)
unfolding resume_next record_sched_switch append update_thread
resume_next-IsCurrent k s v p h = ground (arith, v p)

-- The events of a spawn, a signal and an exit.
abbrev spawn_of : Kernel → ℕ → Event
spawn_of k p =
    new_with_tid thread_spawn k.now p
      (encode_thread_spawn (record { parent_tid = p; child_tid = k.event_child }))

abbrev signal_of : Kernel → ℕ → ℕ → Event
signal_of k p sig = new_with_tid signal k.now p (encode_signal (record { signum = pos sig }))

abbrev exit_of : Kernel → ℕ → Event
exit_of k p = new_with_tid thread_exit k.now p (encode_thread_exit (record { tid = p }))

-- What a step adds to the trace: at most one event, of the thread last scheduled.
abbrev pub Attributed : Scheduler → Scheduler → Type 0
Attributed s s' =
    (s'.trace ≡ s.trace)
    ⊎ ((e : Event) × (s'.trace ≡ s.trace ++ e ∷ []) × (e.tid ≡ s.last_scheduled))

-- The status is that of the thread that runs, or the first stop of a new thread.
abbrev pub ByRunning : Scheduler → WaitStatus → Type 0
ByRunning s (ptrace_syscall p) = s.running ≡ some p
ByRunning s (ptrace_event p event) = s.running ≡ some p
ByRunning s (stopped p sig) = (s.running ≡ some p) ⊎ (contains_key p s.threads ≡ false)
ByRunning s (exited p code) = s.running ≡ some p
ByRunning s (signaled p sig) = s.running ≡ some p
ByRunning s other_status = Unit

exit_event-tid :
    (sys : Sys) (now p : ℕ) (memory : ℕ → ℕ → Option Bytes) (enter : SyscallRegs) (ret : ℤ)
    (e : Event)
    → exit_event sys now p memory enter ret ≡ ok e
    → e.tid ≡ some p
unfolding exit_event
exit_event-tid sys now p memory enter ret e h = ground arith

syscall-Attributed :
    (sys : Sys) (k : Kernel) (p : ℕ) (s s' : Scheduler)
    → s.last_scheduled ≡ some p
    → handle sys k (ptrace_syscall p) s ≡ ok s'
    → Attributed s s'
unfolding handle on_syscall clear_running requeue update_thread append enter_event
syscall-Attributed sys k p s s' last h =
    elim (Option-cases (pending_enter_of p (clear_running p s))) [
      | inl at_entry ↦ inr (enter_event sys k.now p k.regs, ground arith, ground arith)
      | inr (enter, at_exit) ↦
          elim (Result-cases (exit_event sys k.now p k.memory enter k.regs.ret)) [
            | inr (e, failed) ↦ ground arith
            | inl (e, read) ↦ inr (
              e,
              ground arith,
              ground (arith, exit_event-tid sys k.now p k.memory enter k.regs.ret e read),
            )
          ]
    ]

event-Attributed :
    (sys : Sys) (k : Kernel) (p : ℕ) (event : PtraceEvent) (s s' : Scheduler)
    → s.last_scheduled ≡ some p
    → handle sys k (ptrace_event p event) s ≡ ok s'
    → Attributed s s'
unfolding handle on_spawn clear_running requeue append is_spawn_event
event-Attributed sys k p clone s s' last h = inr (spawn_of k p, ground arith, ground arith)
event-Attributed sys k p fork s s' last h = inr (spawn_of k p, ground arith, ground arith)
event-Attributed sys k p vfork s s' last h = inr (spawn_of k p, ground arith, ground arith)
event-Attributed sys k p exec s s' last h = inl (ground arith)
event-Attributed sys k p other_event s s' last h = inl (ground arith)

stop-Attributed :
    (k : Kernel) (p sig : ℕ) (s : Scheduler)
    → ((s.last_scheduled ≡ some p) ⊎ (contains_key p s.threads ≡ false))
    → Attributed s (on_stopped k p sig s)
unfolding on_stopped register_child clear_running requeue append update_thread
stop-Attributed k p sig s by = elim (Bool-cases (contains_key p s.threads)) [
  | inr new_thread ↦ inl (ground arith)
  | inl known ↦ elim (Bool-cases (sig == sigstop)) [
    | inl hidden ↦ inl (ground arith)
    | inr shown ↦ inr (signal_of k p sig, ground arith, ground arith)
  ]
]

exit-Attributed :
    (k : Kernel) (p : ℕ) (code : Option ℤ) (s : Scheduler)
    → s.last_scheduled ≡ some p
    → Attributed s (on_exit k p code s)
unfolding on_exit leave wake_parent clear_running requeue append
exit-Attributed k p code s last =
    elim (Bool-cases (contains_key p s.threads && ltb 1 s.threads_followed)) [
      | inr quiet ↦ inl (ground arith)
      | inl told ↦ inr (exit_of k p, ground arith, ground arith)
    ]

abbrev handled : Scheduler → Result CaptureError Scheduler
handled s = ok s

ok_injective : (x y : Scheduler) → handled x ≡ handled y → x ≡ y
ok_injective x y e = ground arith

-- Where the thread that runs, if any, is the one last scheduled: `resume_next` keeps it so; and on
-- a status of that thread, or the first stop of a new one, `handle` records at most one event,
-- which carries the tid last scheduled (the one that the replay expects there).
pub handle-Attributed :
    (sys : Sys) (k : Kernel) (status : WaitStatus) (s s' : Scheduler)
    → IsCurrent s
    → ByRunning s status
    → handle sys k status s ≡ ok s'
    → IsCurrent (resume_next k s) × Attributed s s'
unfolding handle
handle-Attributed sys k status s s' v by h = (resume_next-IsCurrent k s v, go status by h)
  where
    go :
        (status : WaitStatus) → ByRunning s status → handle sys k status s ≡ ok s' → Attributed s s'
    go (ptrace_syscall p) by h = syscall-Attributed sys k p s s' (v p by) h
    go (ptrace_event p event) by h = event-Attributed sys k p event s s' (v p by) h
    go (stopped p sig) (inl by) h =
        subst (Attributed s) (ok_injective _ _ h) (stop-Attributed k p sig s (inl (v p by)))
    go (stopped p sig) (inr by) h =
        subst (Attributed s) (ok_injective _ _ h) (stop-Attributed k p sig s (inr by))
    go (exited p code) by h =
        subst (Attributed s) (ok_injective _ _ h) (exit-Attributed k p (some code) s (v p by))
    go (signaled p sig) by h =
        subst (Attributed s) (ok_injective _ _ h) (exit-Attributed k p none s (v p by))
    go other_status by h = inl (ground arith)
