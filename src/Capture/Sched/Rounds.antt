-- ===== src/Capture/Sched/Rounds.antt =====
-- The rounds of `run` in crates/recorder/src/capture/sched.rs.
use mirrorscope.Prelude.{
  ℕ, subst, ◌⊎◌, ◌≡◌, refl, arith, Bool, Bool-cases, inl, inr, List, [], ◌∷◌, ok, Result-cases,
  ◌>>=◌,
}
use mirrorscope.Prelude.Maps.{lookup, contains_key, insert}
use mirrorscope.Capture.Syscall.{Sys}
use mirrorscope.Capture.Sched.{Scheduler, Kernel, Wait, Answer, got, tick, no_child, handle}
use mirrorscope.Capture.Sched.{new, run, at_wait, is_none, is_empty}
use mirrorscope.Capture.Sched.Invariant.{IsSound}
use mirrorscope.Capture.Sched.Handle.{handle-IsSound}
use mirrorscope.Capture.Sched.Steps.{Allowed, resume_next-IsSound}

-- The kernel reports only what the serialization lets happen, in each round that `run` reaches.
abbrev pub Obeys : Sys → List Wait → Scheduler → Type 0
Obeys sys [] s = Unit
Obeys sys (w ∷ ws) s =
    Allowed (at_wait w.kernel s) w.status
    × Obeys sys ws (at_wait w.kernel s)
    × ((s' : Scheduler)
        → handle sys w.kernel w.status (at_wait w.kernel s) ≡ ok s'
        → Obeys sys ws s')

at_wait-IsSound : (k : Kernel) (s : Scheduler) → IsSound s → IsSound (at_wait k s)
at_wait-IsSound k s v = elim (Bool-cases (is_none s.running)) [
  | inl idle ↦ rw idle (resume_next-IsSound k s v)
  | inr busy ↦ rw busy v
]

new-IsSound : (leader : ℕ) → IsSound (new leader)
unfolding new contains_key insert lookup
new-IsSound leader = record {
  ready_tracked = λ p h. ground arith;
  ready_distinct = (refl, tt);
  running_tracked = λ p h. ground arith;
  running_apart = λ p h. ground arith;
  suspended_apart = λ c p h. ground arith;
  suspended_once = λ c d p h k. ground arith;
  counted = refl;
}

-- How a round of `run` goes: it ends, it waits again, or it handles the status and goes on.
data Round (sys : Sys) (w : Wait) (ws : List Wait) (s s' : Scheduler) (ended : Bool) : Type 0 where
  stays : s ≡ s' → Round sys w ws s s' ended
  ends : at_wait w.kernel s ≡ s' → Round sys w ws s s' ended
  skips : run sys ws (at_wait w.kernel s) ≡ ok (s', ended) → Round sys w ws s s' ended
  goes :
      (s2 : Scheduler)
      → handle sys w.kernel w.status (at_wait w.kernel s) ≡ ok s2
      → run sys ws s2 ≡ ok (s', ended)
      → Round sys w ws s s' ended

going :
    (sys : Sys) (w : Wait) (ws : List Wait) (s s' : Scheduler) (ended : Bool)
    → (handle sys w.kernel w.status (at_wait w.kernel s) >>= run sys ws) ≡ ok (s', ended)
    → Round sys w ws s s' ended
going sys w ws s s' ended h =
    elim (Result-cases (handle sys w.kernel w.status (at_wait w.kernel s))) [
      | inl (s2, done) ↦ goes s2 done (ground arith)
      | inr (e, failed) ↦ ground arith
    ]

Answer-cases : (a : Answer) → (a ≡ got) ⊎ ((a ≡ tick) ⊎ (a ≡ no_child))
Answer-cases got = inl refl
Answer-cases tick = inr (inl refl)
Answer-cases no_child = inr (inr refl)

round :
    (sys : Sys) (w : Wait) (ws : List Wait) (s s' : Scheduler) (ended : Bool)
    → run sys (w ∷ ws) s ≡ ok (s', ended)
    → Round sys w ws s s' ended
unfolding run
round sys w ws s s' ended h = elim (Bool-cases (is_empty s.threads)) [
  | inl over ↦ stays (ground arith)
  | inr live ↦ elim (Answer-cases w.answer) [
    | inl a ↦ going sys w ws s s' ended (ground arith)
    | inr (inl a) ↦ elim (Bool-cases (is_none (at_wait w.kernel s).running)) [
      | inl idle ↦ skips (ground arith)
      | inr busy ↦ going sys w ws s s' ended (ground arith)
    ]
    | inr (inr a) ↦ ends (ground arith)
  ]
]

run_keeps :
    (sys : Sys) (waits : List Wait) (s s' : Scheduler) (ended : Bool)
    → IsSound s
    → Obeys sys waits s
    → run sys waits s ≡ ok (s', ended)
    → IsSound s'
unfolding run
run_keeps sys [] s s' ended v o h = let same : s' ≡ s = ground arith in rw same v
run_keeps sys (w ∷ ws) s s' ended v (allowed, again, next) h =
    let v1 = at_wait-IsSound w.kernel s v in
    elim (round sys w ws s s' ended h) [
      | stays e ↦ subst IsSound e v
      | ends e ↦ subst IsSound e v1
      | skips e ↦ run_keeps sys ws (at_wait w.kernel s) s' ended v1 again e
      | goes s2 done e ↦
          run_keeps sys ws s2 s' ended (handle-IsSound sys w.kernel w.status _ s2 v1 allowed done)
            (next s2 done) e
    ]

-- A recording of a program's leader thread, on whatever the kernel reports under the
-- serialization: in each state that `run` comes to, the queue holds tracked threads and none
-- twice, the running thread and the parents suspended by a vfork do not stand in it, no parent
-- waits for two children, and `events_recorded` counts the events of the trace.
pub run-IsSound :
    (sys : Sys) (leader : ℕ) (waits : List Wait) (s : Scheduler) (ended : Bool)
    → Obeys sys waits (new leader)
    → run sys waits (new leader) ≡ ok (s, ended)
    → IsSound s
run-IsSound sys leader waits s ended o h =
    run_keeps sys waits (new leader) s ended (new-IsSound leader) o h
