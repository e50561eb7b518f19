-- ===== src/Capture/Sched/Handle.antt =====
-- The bookkeeping of the scheduler (crates/recorder/src/capture/sched.rs) under `on_exit` and
-- `handle`.
use mirrorscope.Prelude.{
  ℕ, ◌≡◌, ◌≢◌, arith, false, Option, none, some, Option-cases, inl, inr, [], ◌∷◌, length,
  length-append, ok, Result-cases,
}
use mirrorscope.Prelude.Ints.{ℤ}
use mirrorscope.Prelude.Maps.{
  lookup, insert, remove, lookup-insert, lookup-remove, contains_key-remove,
}
use mirrorscope.Trace.Format.{new_with_tid, thread_exit}
use mirrorscope.Capture.Payload.{encode_thread_exit}
use mirrorscope.Capture.Syscall.{Sys}
use mirrorscope.Capture.Sched.{
  Scheduler, Kernel, WaitStatus, ptrace_syscall, ptrace_event, stopped, exited, signaled,
  other_status, PtraceEvent, vfork, clone, fork, exec, other_event, contains, retain_ne, append,
  requeue, clear_running, on_syscall, on_spawn, on_stopped, on_exit, handle, is_spawn_event,
}
use mirrorscope.Capture.Sched.Queue.{contains-retain_ne, Distinct-retain_ne}
use mirrorscope.Capture.Sched.{leave, wake_parent}
use mirrorscope.Capture.Sched.Invariant.{
  IsSound, IsFree, append-IsSound, clear_running-IsSound, requeue-IsSound,
}
use mirrorscope.Capture.Sched.Steps.{
  Allowed, running-IsFree, clear_running_pending, on_syscall-IsSound, on_stopped-IsSound,
}

leave_keeps :
    (k : Kernel) (p : ℕ) (code : Option ℤ) (s : Scheduler)
    → ((leave k p code s).threads ≡ remove p s.threads)
      × ((leave k p code s).ready ≡ retain_ne p s.ready)
      × ((leave k p code s).running ≡ s.running)
      × ((leave k p code s).vfork_pending ≡ s.vfork_pending)
unfolding leave append
leave_keeps k p code s = ground arith

leave_counted :
    (k : Kernel) (p : ℕ) (code : Option ℤ) (s : Scheduler)
    → s.events_recorded ≡ length s.trace
    → (leave k p code s).events_recorded ≡ length (leave k p code s).trace
unfolding leave append
leave_counted k p code s c = ground (
  arith,
  length-append s.trace
      (new_with_tid thread_exit k.now p (encode_thread_exit (record { tid = p })) ∷ []),
)

leave-IsSound :
    (k : Kernel) (p : ℕ) (code : Option ℤ) (s : Scheduler)
    → IsSound s
    → s.running ≢ some p
    → IsSound (leave k p code s)
leave-IsSound k p code s v idle =
    let same = leave_keeps k p code s in
    record {
      ready_tracked = λ q h. ground (
        arith,
        same.0,
        same.1,
        contains-retain_ne p q s.ready,
        contains_key-remove p q s.threads,
        v.ready_tracked q,
      );
      ready_distinct = rw same.1 (Distinct-retain_ne p s.ready v.ready_distinct);
      running_tracked = λ q h.
          ground (arith, same.0, same.2, contains_key-remove p q s.threads, v.running_tracked q);
      running_apart =
          λ q h. ground (arith, same.1, same.2, contains-retain_ne p q s.ready, v.running_apart q);
      suspended_apart = λ c q h.
          ground
            (arith, same.1, same.2, same.3, contains-retain_ne p q s.ready, v.suspended_apart c q);
      suspended_once = λ c d q h k. ground (arith, same.3, v.suspended_once c d q);
      counted = leave_counted k p code s v.counted;
    }

wake_nobody : (p : ℕ) (s : Scheduler) → lookup p s.vfork_pending ≡ none → wake_parent p s ≡ s
unfolding wake_parent
wake_nobody p s alone = ground arith

wake_one :
    (p parent : ℕ) (s : Scheduler)
    → lookup p s.vfork_pending ≡ some parent
    → wake_parent p s ≡ requeue parent (record s { vfork_pending = remove p s.vfork_pending })
unfolding wake_parent
wake_one p parent s waits = ground arith

wake_parent-IsSound : (p : ℕ) (s : Scheduler) → IsSound s → IsSound (wake_parent p s)
wake_parent-IsSound p s v = elim (Option-cases (lookup p s.vfork_pending)) [
  | inl alone ↦ rw (wake_nobody p s alone) v
  | inr (parent, waits) ↦ rw (wake_one p parent s waits) (
      requeue-IsSound parent (record s { vfork_pending = remove p s.vfork_pending })
        (record {
          ready_tracked = v.ready_tracked;
          ready_distinct = v.ready_distinct;
          running_tracked = v.running_tracked;
          running_apart = v.running_apart;
          suspended_apart =
              λ c q h. ground (arith, lookup-remove p c s.vfork_pending, v.suspended_apart c q);
          suspended_once = λ c d q h k. ground (
            arith,
            lookup-remove p c s.vfork_pending,
            lookup-remove p d s.vfork_pending,
            v.suspended_once c d q,
          );
          counted = v.counted;
        })
        (v.suspended_apart p parent waits).1
        (λ c e. ground (arith, lookup-remove p c s.vfork_pending, v.suspended_once c p parent)))
]

on_exit-IsSound :
    (k : Kernel) (p : ℕ) (code : Option ℤ) (s : Scheduler)
    → IsSound s
    → IsSound (on_exit k p code s)
unfolding on_exit
on_exit-IsSound k p code s v =
    let cleared = clear_running-IsSound p s v in
    wake_parent-IsSound p _ (leave-IsSound k p code _ cleared.0 cleared.1)

-- A vfork suspends the thread that ran.
suspend-IsSound :
    (child p : ℕ) (s : Scheduler)
    → IsSound s
    → contains s.ready p ≡ false
    → s.running ≢ some p
    → IsFree p s
    → IsSound (record s { vfork_pending = insert child p s.vfork_pending })
suspend-IsSound child p s v apart idle free = record {
  ready_tracked = v.ready_tracked;
  ready_distinct = v.ready_distinct;
  running_tracked = v.running_tracked;
  running_apart = v.running_apart;
  suspended_apart =
      λ c q h. ground (arith, lookup-insert child c p s.vfork_pending, v.suspended_apart c q);
  suspended_once = λ c d q h k. ground (
    arith,
    lookup-insert child c p s.vfork_pending,
    lookup-insert child d p s.vfork_pending,
    v.suspended_once c d q,
    free c,
    free d,
  );
  counted = v.counted;
}

-- A thread that stopped at an event, once it no longer runs.
abbrev Halted : ℕ → Scheduler → Type 0
Halted p s = IsSound s × (s.running ≢ some p) × IsFree p s × (contains s.ready p ≡ false)

halted : (p : ℕ) (s : Scheduler) → IsSound s → s.running ≡ some p → Halted p (clear_running p s)
unfolding clear_running
halted p s v runs =
    let cleared = clear_running-IsSound p s v in
    (
      cleared.0,
      cleared.1,
      λ c e. running-IsFree p s v runs c (ground arith),
      ground (arith, v.running_apart p runs),
    )

spawned : (k : Kernel) (p : ℕ) (s : Scheduler) → Halted p s → Halted p (on_spawn k p s)
unfolding on_spawn append
spawned k p s (v, idle, free, apart) = (append-IsSound _ s v, idle, free, apart)

on_event-IsSound :
    (sys : Sys) (k : Kernel) (p : ℕ) (event : PtraceEvent) (s s' : Scheduler)
    → IsSound s
    → s.running ≡ some p
    → handle sys k (ptrace_event p event) s ≡ ok s'
    → IsSound s'
unfolding handle is_spawn_event
on_event-IsSound sys k p clone s s' v runs h =
    let (v2, idle, free, apart) = spawned k p _ (halted p s v runs) in
    let same : s' ≡ requeue p (on_spawn k p (clear_running p s)) = ground arith in
    rw same (requeue-IsSound p _ v2 idle free)
on_event-IsSound sys k p fork s s' v runs h =
    let (v2, idle, free, apart) = spawned k p _ (halted p s v runs) in
    let same : s' ≡ requeue p (on_spawn k p (clear_running p s)) = ground arith in
    rw same (requeue-IsSound p _ v2 idle free)
on_event-IsSound sys k p vfork s s' v runs h =
    let (v2, idle, free, apart) = spawned k p _ (halted p s v runs) in
    let s2 = on_spawn k p (clear_running p s) in
    let same : s' ≡ record s2 { vfork_pending = insert k.event_child p s2.vfork_pending } =
      ground arith in
    rw same (suspend-IsSound k.event_child p s2 v2 apart idle free)
on_event-IsSound sys k p exec s s' v runs h =
    let (v2, idle, free, apart) = halted p s v runs in
    let same : s' ≡ requeue p (clear_running p s) = ground arith in
    rw same (requeue-IsSound p _ v2 idle free)
on_event-IsSound sys k p other_event s s' v runs h =
    let (v2, idle, free, apart) = halted p s v runs in
    let same : s' ≡ requeue p (clear_running p s) = ground arith in
    rw same (requeue-IsSound p _ v2 idle free)

-- `handle` keeps the bookkeeping consistent on every status that the kernel can report.
pub handle-IsSound :
    (sys : Sys) (k : Kernel) (status : WaitStatus) (s s' : Scheduler)
    → IsSound s
    → Allowed s status
    → handle sys k status s ≡ ok s'
    → IsSound s'
unfolding handle
handle-IsSound sys k (ptrace_syscall p) s s' v runs h =
    let cleared = clear_running-IsSound p s v in
    let pending = clear_running_pending p s in
    elim (Result-cases (on_syscall sys k p (clear_running p s))) [
      | inl (s2, done) ↦
          let kept = on_syscall-IsSound sys k p _ s2 cleared.0 done in
          let same : s' ≡ requeue p s2 = ground arith in
          rw same (
            requeue-IsSound p s2 kept.0 (λ e. ground (arith, cleared.1, kept.1))
              (λ c e. running-IsFree p s v runs c (ground (arith, pending, kept.2))))
      | inr (e, failed) ↦ ground arith
    ]
handle-IsSound sys k (ptrace_event p event) s s' v runs h =
    on_event-IsSound sys k p event s s' v runs h
handle-IsSound sys k (stopped p sig) s s' v a h =
    let same : s' ≡ on_stopped k p sig s = ground arith in
    rw same (on_stopped-IsSound k p sig s v a)
handle-IsSound sys k (exited p code) s s' v a h =
    let same : s' ≡ on_exit k p (some code) s = ground arith in
    rw same (on_exit-IsSound k p (some code) s v)
handle-IsSound sys k (signaled p sig) s s' v a h =
    let same : s' ≡ on_exit k p none s = ground arith in rw same (on_exit-IsSound k p none s v)
handle-IsSound sys k other_status s s' v a h = let same : s' ≡ s = ground arith in rw same v
