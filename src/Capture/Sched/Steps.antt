-- ===== src/Capture/Sched/Steps.antt =====
-- The bookkeeping of the scheduler (crates/recorder/src/capture/sched.rs) under `resume_next`,
-- `on_syscall` and `on_stopped`, and which statuses the kernel reports.
use mirrorscope.Prelude.{
  ℕ, subst, ◌⊎◌, ◌≡◌, refl, arith, ◌==◌, if◌then◌else◌, true, false, none, some, Option-cases,
  List-cases, Bool-cases, inl, inr, List, [], ◌∷◌, ok, Result-cases,
}
use mirrorscope.Prelude.Ints.{pos}
use mirrorscope.Prelude.Maps.{contains_key, contains_key-insert}
use mirrorscope.Trace.Format.{Event, signal, new_with_tid}
use mirrorscope.Capture.Payload.{encode_signal}
use mirrorscope.Capture.Syscall.{Sys, enter_event, exit_event}
use mirrorscope.Capture.Sched.{
  Scheduler, Thread, Kernel, WaitStatus, ptrace_syscall, ptrace_event, stopped, new_thread,
  contains, eq_some, append, requeue, clear_running, update_thread, record_sched_switch,
  resume_next, register_child, pending_enter_of, on_syscall, on_stopped, sigstop,
}
use mirrorscope.Capture.Sched.Queue.{Distinct}
use mirrorscope.Capture.Sched.Invariant.{
  IsSound, IsFree, append-IsSound, clear_running-IsSound, requeue-IsSound, update_thread_lem,
  update_thread-IsSound,
}

-- The thread that runs is suspended by no vfork.
pub running-IsFree : (p : ℕ) (s : Scheduler) → IsSound s → s.running ≡ some p → IsFree p s
running-IsFree p s v h c e = (v.suspended_apart c p e).1 h

pub clear_running_pending :
    (p : ℕ) (s : Scheduler) → (clear_running p s).vfork_pending ≡ s.vfork_pending
unfolding clear_running
clear_running_pending p s = ground arith

record_sched_switch-IsSound :
    (k : Kernel) (p : ℕ) (s : Scheduler) → IsSound s → IsSound (record_sched_switch k p s)
unfolding record_sched_switch
record_sched_switch-IsSound k p s v = elim (Bool-cases (eq_some s.last_scheduled p)) [
  | inl same ↦ rw same v
  | inr other ↦ rw other (
      append-IsSound _ _ (record {
        ready_tracked = v.ready_tracked;
        ready_distinct = v.ready_distinct;
        running_tracked = v.running_tracked;
        running_apart = v.running_apart;
        suspended_apart = v.suspended_apart;
        suspended_once = v.suspended_once;
        counted = v.counted;
      }))
]

register_child-IsSound :
    (p : ℕ) (s : Scheduler)
    → IsSound s
    → IsSound (register_child p s) × (contains_key p (register_child p s).threads ≡ true)
unfolding register_child
register_child-IsSound p s v = (
  record {
    ready_tracked =
        λ q h. ground (arith, contains_key-insert p q new_thread s.threads, v.ready_tracked q h);
    ready_distinct = v.ready_distinct;
    running_tracked =
        λ q h. ground (arith, contains_key-insert p q new_thread s.threads, v.running_tracked q h);
    running_apart = v.running_apart;
    suspended_apart = v.suspended_apart;
    suspended_once = v.suspended_once;
    counted = v.counted;
  },
  ground (arith, contains_key-insert p p new_thread s.threads),
)

-- The step keeps the bookkeeping, and neither who runs nor who is suspended.
abbrev pub Keeps : Scheduler → Scheduler → Type 0
Keeps s s' = IsSound s' × (s'.running ≡ s.running) × (s'.vfork_pending ≡ s.vfork_pending)

at_entry_Keeps :
    (p : ℕ) (f : Thread → Thread) (e : Event) (s : Scheduler)
    → IsSound s
    → Keeps s (update_thread p f (append e s))
unfolding append
at_entry_Keeps p f e s v =
    let same = update_thread_lem p f (append e s) in
    (update_thread-IsSound p f (append e s) (append-IsSound e s v), same.running, same.pending)

at_exit_Keeps :
    (p : ℕ) (f : Thread → Thread) (e : Event) (s : Scheduler)
    → IsSound s
    → Keeps s (append e (update_thread p f s))
unfolding append
at_exit_Keeps p f e s v =
    let same = update_thread_lem p f s in
    (append-IsSound e _ (update_thread-IsSound p f s v), same.running, same.pending)

pub on_syscall-IsSound :
    (sys : Sys) (k : Kernel) (p : ℕ) (s s' : Scheduler)
    → IsSound s
    → on_syscall sys k p s ≡ ok s'
    → Keeps s s'
unfolding on_syscall
on_syscall-IsSound sys k p s s' v h = elim (Option-cases (pending_enter_of p s)) [
  | inl at_entry ↦
      let same : s'
          ≡ update_thread p (λ t. record t { pending_enter = some k.regs })
              (append (enter_event sys k.now p k.regs) s) =
        ground arith in
      rw same (at_entry_Keeps p _ _ s v)
  | inr (enter, found) ↦ elim (Result-cases (exit_event sys k.now p k.memory enter k.regs.ret)) [
    | inl (e, read) ↦
        let same : s' ≡ append e (update_thread p (λ t. record t { pending_enter = none }) s) =
          ground arith in
        rw same (at_exit_Keeps p _ e s v)
    | inr (e, failed) ↦ ground arith
  ]
]

switch_keeps :
    (k : Kernel) (p : ℕ) (s : Scheduler)
    → ((record_sched_switch k p s).ready ≡ s.ready)
      × ((record_sched_switch k p s).threads ≡ s.threads)
      × ((record_sched_switch k p s).vfork_pending ≡ s.vfork_pending)
unfolding record_sched_switch append
switch_keeps k p s = ground arith

pub set_running :
    (p : ℕ) (s : Scheduler)
    → IsSound s
    → contains_key p s.threads ≡ true
    → contains s.ready p ≡ false
    → IsFree p s
    → IsSound (record s { running = some p })
set_running p s v tracked apart free = record {
  ready_tracked = v.ready_tracked;
  ready_distinct = v.ready_distinct;
  running_tracked = λ q h. ground arith;
  running_apart = λ q h. ground arith;
  suspended_apart = λ c q h. ((v.suspended_apart c q h).0, λ e. ground (arith, free c));
  suspended_once = v.suspended_once;
  counted = v.counted;
}

take_head :
    (p : ℕ) (rest : List ℕ) (s : Scheduler)
    → IsSound s
    → s.ready ≡ p ∷ rest
    → IsSound (record s { ready = rest }) × (contains rest p ≡ false)
take_head p rest s v head =
    let d : Distinct (p ∷ rest) = subst Distinct head v.ready_distinct in
    (
      record {
        ready_tracked = λ q h. ground (arith, v.ready_tracked q);
        ready_distinct = d.1;
        running_tracked = v.running_tracked;
        running_apart = λ q h. ground (arith, v.running_apart q h);
        suspended_apart = λ c q h. ground (arith, v.suspended_apart c q h);
        suspended_once = v.suspended_once;
        counted = v.counted;
      },
      d.0,
    )

resume_idle : (k : Kernel) (s : Scheduler) → s.ready ≡ [] → resume_next k s ≡ s
unfolding resume_next
resume_idle k s idle = ground arith

resume_head :
    (k : Kernel) (s : Scheduler) (p : ℕ) (rest : List ℕ)
    → s.ready ≡ p ∷ rest
    → resume_next k s
      ≡ record (update_thread p
          (λ t. record t { resume_signal = none })
          (record_sched_switch k p (record s { ready = rest }))) { running = some p }
unfolding resume_next
resume_head k s p rest head = ground arith

-- `resume_next` keeps the bookkeeping consistent.
pub resume_next-IsSound : (k : Kernel) (s : Scheduler) → IsSound s → IsSound (resume_next k s)
resume_next-IsSound k s v = elim (List-cases s.ready) [
  | inl idle ↦ rw (resume_idle k s idle) v
  | inr (p, rest, head) ↦
      let taken = take_head p rest s v head in
      let s1 = record_sched_switch k p (record s { ready = rest }) in
      let same1 = switch_keeps k p (record s { ready = rest }) in
      let clear : Thread → Thread = λ t. record t { resume_signal = none } in
      let same2 = update_thread_lem p clear s1 in
      rw (resume_head k s p rest head) (
        set_running p (update_thread p clear s1)
          (update_thread-IsSound p clear s1 (record_sched_switch-IsSound k p _ taken.0))
          (ground (arith, same2.keys p, same1.1, v.ready_tracked p))
          (ground (arith, same2.ready, same1.0, taken.1))
          (λ c. ground (arith, same2.pending, same1.2, v.suspended_apart c p)))
]

-- Which statuses the kernel reports: only a thread that was resumed reaches a syscall or an event;
-- a thread that stops runs or is new, and a new thread has suspended itself for nobody.
abbrev pub Allowed : Scheduler → WaitStatus → Type 0
Allowed s (ptrace_syscall p) = s.running ≡ some p
Allowed s (ptrace_event p e) = s.running ≡ some p
Allowed s (stopped p sig) = (s.running ≡ some p) ⊎ ((contains_key p s.threads ≡ false) × IsFree p s)
Allowed s _ = Unit

stopped_new :
    (k : Kernel) (p sig : ℕ) (s : Scheduler)
    → contains_key p s.threads ≡ false
    → on_stopped k p sig s ≡ requeue p (register_child p s)
unfolding on_stopped
stopped_new k p sig s unknown = rw unknown refl

-- The signal's event, and the thread's record with the signal to inject.
signal_stop : Kernel → ℕ → ℕ → Scheduler → Scheduler
signal_stop k p sig s =
    update_thread p (λ t. record t { resume_signal = some sig })
      (append (new_with_tid signal k.now p (encode_signal (record { signum = pos sig }))) s)

stopped_known :
    (k : Kernel) (p sig : ℕ) (s : Scheduler)
    → contains_key p s.threads ≡ true
    → on_stopped k p sig s
      ≡ requeue p
          (if sig == sigstop then clear_running p s else signal_stop k p sig (clear_running p s))
unfolding on_stopped signal_stop
stopped_known k p sig s known = rw known refl

pub on_stopped-IsSound :
    (k : Kernel) (p sig : ℕ) (s : Scheduler)
    → IsSound s
    → Allowed s (stopped p sig)
    → IsSound (on_stopped k p sig s)
unfolding signal_stop append register_child
on_stopped-IsSound k p sig s v (inl runs) =
    let cleared = clear_running-IsSound p s v in
    let free : IsFree p (clear_running p s) =
      λ c e. running-IsFree p s v runs c (ground (arith, clear_running_pending p s)) in
    let at_entry =
      at_entry_Keeps p (λ t. record t { resume_signal = some sig })
        (new_with_tid signal k.now p (encode_signal (record { signum = pos sig })))
        (clear_running p s) cleared.0 in
    rw (stopped_known k p sig s (v.running_tracked p runs)) (elim (Bool-cases (sig == sigstop)) [
      | inl hidden ↦ rw hidden (requeue-IsSound p _ cleared.0 cleared.1 free)
      | inr shown ↦ rw shown (
          requeue-IsSound p _ at_entry.0 (λ e. ground (arith, cleared.1, at_entry.1))
            (λ c e. ground (arith, free c, at_entry.2)))
    ])
on_stopped-IsSound k p sig s v (inr (unknown, free)) = rw (stopped_new k p sig s unknown) (
    requeue-IsSound p (register_child p s) (register_child-IsSound p s v).0
      (λ e. ground (arith, v.running_tracked p)) free)
