-- ===== src/Capture/Sched/Invariant.antt =====
-- The bookkeeping of the scheduler (crates/recorder/src/capture/sched.rs), and its operations on
-- the queue, the running thread and the trace.
use mirrorscope.Prelude.{
  ℕ, ◌≡◌, ◌≢◌, refl, arith, not, ◌&&◌, true, false, none, some, Option-cases, Bool-cases, inl, inr,
  [], ◌∷◌, length, length-append,
}
use mirrorscope.Prelude.Maps.{
  lookup, contains_key, insert, contains_key-insert, contains_key-lookup,
}
use mirrorscope.Trace.Format.{Event}
use mirrorscope.Capture.Sched.{
  Scheduler, Thread, contains, eq_some, append, requeue, clear_running, update_thread,
}
use mirrorscope.Capture.Sched.Queue.{Distinct, contains-append, Distinct-append}

pub record IsSound (s : Scheduler) : Type 0 where
  pub ready_tracked : (p : ℕ) → contains s.ready p ≡ true → contains_key p s.threads ≡ true
  pub ready_distinct : Distinct s.ready
  pub running_tracked : (p : ℕ) → s.running ≡ some p → contains_key p s.threads ≡ true
  pub running_apart : (p : ℕ) → s.running ≡ some p → contains s.ready p ≡ false
  pub suspended_apart :
      (c p : ℕ)
      → lookup c s.vfork_pending ≡ some p
      → (contains s.ready p ≡ false) × (s.running ≢ some p)
  pub suspended_once :
      (c d p : ℕ) → lookup c s.vfork_pending ≡ some p → lookup d s.vfork_pending ≡ some p → c ≡ d
  pub counted : s.events_recorded ≡ length s.trace

-- No vfork has suspended the thread.
abbrev pub IsFree : ℕ → Scheduler → Type 0
IsFree p s = (c : ℕ) → lookup c s.vfork_pending ≢ some p

pub append-IsSound : (e : Event) (s : Scheduler) → IsSound s → IsSound (append e s)
unfolding append
append-IsSound e s v = record {
  ready_tracked = v.ready_tracked;
  ready_distinct = v.ready_distinct;
  running_tracked = v.running_tracked;
  running_apart = v.running_apart;
  suspended_apart = v.suspended_apart;
  suspended_once = v.suspended_once;
  counted = omega (arith, v.counted, length-append s.trace (e ∷ []));
}

pub clear_running-IsSound :
    (p : ℕ) (s : Scheduler)
    → IsSound s
    → IsSound (clear_running p s) × ((clear_running p s).running ≢ some p)
unfolding clear_running
clear_running-IsSound p s v = elim (Bool-cases (eq_some s.running p)) [
  | inl here ↦ rw here (
    record {
      ready_tracked = v.ready_tracked;
      ready_distinct = v.ready_distinct;
      running_tracked = λ q h. cc;
      running_apart = λ q h. cc;
      suspended_apart = λ c q h. ((v.suspended_apart c q h).0, λ e. cc);
      suspended_once = v.suspended_once;
      counted = v.counted;
    },
    λ e. cc,
  )
  | inr other ↦ rw other (v, λ e. ground arith)
]

pub requeue-IsSound :
    (p : ℕ) (s : Scheduler) → IsSound s → s.running ≢ some p → IsFree p s → IsSound (requeue p s)
unfolding requeue
requeue-IsSound p s v idle free =
    elim (Bool-cases (contains_key p s.threads && not (contains s.ready p))) [
      | inl waits ↦ rw waits (record {
        ready_tracked = λ q h. ground (arith, contains-append s.ready p q, v.ready_tracked q);
        ready_distinct = Distinct-append s.ready p (ground arith) v.ready_distinct;
        running_tracked = v.running_tracked;
        running_apart =
            λ q h. ground (arith, contains-append s.ready p q, v.running_apart q h, idle);
        suspended_apart = λ c q h. (
          ground (arith, contains-append s.ready p q, v.suspended_apart c q h, free c),
          (v.suspended_apart c q h).1,
        );
        suspended_once = v.suspended_once;
        counted = v.counted;
      })
      | inr not_now ↦ rw not_now v
    ]

-- Only the thread's own record changes: the keys of the table stay.
update_thread_missing :
    (p : ℕ) (f : Thread → Thread) (s : Scheduler)
    → lookup p s.threads ≡ none
    → update_thread p f s ≡ s
unfolding update_thread
update_thread_missing p f s missing = ground arith

update_thread_found :
    (p : ℕ) (f : Thread → Thread) (s : Scheduler) (t : Thread)
    → lookup p s.threads ≡ some t
    → update_thread p f s ≡ record s { threads = insert p (f t) s.threads }
unfolding update_thread
update_thread_found p f s t found = ground arith

pub record SameButThread (s s' : Scheduler) : Type 0 where
  pub keys : (q : ℕ) → contains_key q s'.threads ≡ contains_key q s.threads
  pub ready : s'.ready ≡ s.ready
  pub running : s'.running ≡ s.running
  pub pending : s'.vfork_pending ≡ s.vfork_pending
  pub leader : s'.leader ≡ s.leader
  pub trace : s'.trace ≡ s.trace
  pub events : s'.events_recorded ≡ s.events_recorded
  pub followed : s'.threads_followed ≡ s.threads_followed

pub update_thread_lem :
    (p : ℕ) (f : Thread → Thread) (s : Scheduler) → SameButThread s (update_thread p f s)
update_thread_lem p f s = elim (Option-cases (lookup p s.threads)) [
  | inl missing ↦ rw (update_thread_missing p f s missing) (record {
    keys = λ q. refl;
    ready = refl;
    running = refl;
    pending = refl;
    leader = refl;
    trace = refl;
    events = refl;
    followed = refl;
  })
  | inr (t, found) ↦ rw (update_thread_found p f s t found) (record {
    keys = λ q.
        ground (arith, contains_key-insert p q (f t) s.threads, contains_key-lookup p s.threads);
    ready = refl;
    running = refl;
    pending = refl;
    leader = refl;
    trace = refl;
    events = refl;
    followed = refl;
  })
]

pub update_thread-IsSound :
    (p : ℕ) (f : Thread → Thread) (s : Scheduler) → IsSound s → IsSound (update_thread p f s)
update_thread-IsSound p f s v =
    let same = update_thread_lem p f s in
    record {
      ready_tracked = λ q h. ground (arith, same.keys q, same.ready, v.ready_tracked q);
      ready_distinct = rw same.ready v.ready_distinct;
      running_tracked = λ q h. ground (arith, same.keys q, same.running, v.running_tracked q);
      running_apart = λ q h. ground (arith, same.ready, same.running, v.running_apart q);
      suspended_apart =
          λ c q h. ground (arith, same.ready, same.running, same.pending, v.suspended_apart c q);
      suspended_once = λ c d q h k. ground (arith, same.pending, v.suspended_once c d q);
      counted = ground (arith, same.trace, same.events, v.counted);
    }
