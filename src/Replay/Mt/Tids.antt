-- ===== src/Replay/Mt/Tids.antt =====
-- The tid map under the handlers of crates/replay/src/mt.rs.
use mirrorscope.Prelude.{
  ℕ, ◌≡◌, refl, subst, arith, Option-cases, inl, inr, Option, none, some, ok, Result-cases,
}
use mirrorscope.Trace.Format.{
  Record, EventKind, checkpoint, sched_switch, syscall_enter, syscall_exit, thread_spawn,
  thread_exit, signal,
}
use mirrorscope.Capture.Payload.{decode_thread_spawn}
use mirrorscope.Capture.Syscall.{Sys}
use mirrorscope.Replay.TidMap.{TidMap, bind, live_of, unbind_recorded}
use mirrorscope.Replay.TidMap.Laws.{IsBijective, BindResult, bind_result, unbind_result}
use mirrorscope.Replay.State.{Session, Os, MtState, ExitOutcome}
use mirrorscope.Replay.Mt.{
  directed, enforce_tid, live_for, take_resume_signal, set_pending, take_pending, remove_thread,
  bind_child, update_rt, advance,
}
use mirrorscope.Replay.Mt.Handlers.{
  step_thread, on_sched_switch, on_syscall_enter, on_syscall_exit, on_thread_spawn, on_thread_exit,
  on_signal, on_record,
}

abbrev pub tidmap_of : Option MtState → Option TidMap
tidmap_of none = none
tidmap_of (some mt) = some mt.tidmap

-- The session has a tid map, and its directions are inverse.
abbrev pub Paired : {K : Type 0} → Session K → Type 0
Paired s = (m : TidMap) × (tidmap_of s.mt ≡ some m) × IsBijective m

bind_ok :
    (m m' : TidMap) (recorded live : ℕ)
    → IsBijective m
    → bind m recorded live ≡ ok m'
    → IsBijective m'
bind_ok m m' recorded live v h =
    (subst (BindResult m recorded live) h (bind_result m recorded live v)).0

enforce_keeps :
    (r : Record) (mt mt1 : MtState) (tid : ℕ)
    → enforce_tid r mt ≡ ok (tid, mt1)
    → mt1.tidmap ≡ mt.tidmap
unfolding enforce_tid
enforce_keeps r mt mt1 tid h = ground arith

live_for-IsBijective :
    (tid seq live : ℕ) (mt mt1 : MtState)
    → IsBijective mt.tidmap
    → live_for tid seq mt ≡ ok (live, mt1)
    → IsBijective mt1.tidmap
unfolding live_for
live_for-IsBijective tid seq live mt mt1 v h = elim (Option-cases (live_of mt.tidmap tid)) [
  | inr (l, known) ↦ let same : mt1.tidmap ≡ mt.tidmap = ground arith in rw same v
  | inl unknown ↦ elim (Result-cases (bind mt.tidmap tid mt.leader)) [
    | inr (e, failed) ↦ ground arith
    | inl (m, bound) ↦
        let same : mt1.tidmap ≡ m = ground arith in
        rw same (bind_ok mt.tidmap m tid mt.leader v bound)
  ]
]

directed-IsBijective :
    (r : Record) (mt mt1 : MtState) (tid live : ℕ)
    → IsBijective mt.tidmap
    → directed r mt ≡ ok (tid, live, mt1)
    → IsBijective mt1.tidmap
unfolding directed
directed-IsBijective r mt mt1 tid live v h = elim (Result-cases (enforce_tid r mt)) [
  | inr (e, failed) ↦ ground arith
  | inl ((t, mt0), enforced) ↦
      let same = enforce_keeps r mt mt0 t enforced in
      live_for-IsBijective t r.seq live mt0 mt1 (rw same v) (ground arith)
]

module _ {K : Type 0} (os : Os K) (sys : Sys) where
  enter-Paired :
      (fuel : ℕ) (r : Record) (mt : MtState) (s s' : Session K)
      → IsBijective mt.tidmap
      → on_syscall_enter os sys fuel r mt s ≡ ok s'
      → Paired s'
  unfolding on_syscall_enter set_pending take_resume_signal update_rt advance
  enter-Paired fuel r mt s s' v h = elim (Result-cases (directed r mt)) [
    | inr (e, failed) ↦ ground arith
    | inl ((tid, live, mt1), ran) ↦
        let v1 = directed-IsBijective r mt mt1 tid live v ran in
        elim (Result-cases (step_thread os sys fuel live (take_resume_signal live mt1).0 s)) [
          | inr (e, failed) ↦ ground arith
          | inl ((status, s1), stop) ↦ (mt1.tidmap, ground arith, v1)
        ]
  ]

  exit-Paired :
      (fuel : ℕ) (r : Record) (mt : MtState) (s s' : Session K)
      → IsBijective mt.tidmap
      → on_syscall_exit os sys fuel r mt s ≡ ok s'
      → Paired s'
  unfolding on_syscall_exit take_pending update_rt advance
  exit-Paired fuel r mt s s' v h = elim (Result-cases (directed r mt)) [
    | inr (e, failed) ↦ ground arith
    | inl ((tid, live, mt1), ran) ↦
        let v1 = directed-IsBijective r mt mt1 tid live v ran in
        elim (Result-cases (step_thread os sys fuel live none s)) [
          | inr (e, failed) ↦ ground arith
          | inl ((status, s1), stop) ↦ (mt1.tidmap, ground arith, v1)
        ]
  ]

  signal-Paired :
      (fuel : ℕ) (r : Record) (mt : MtState) (s s' : Session K)
      → IsBijective mt.tidmap
      → on_signal os sys fuel r mt s ≡ ok s'
      → Paired s'
  unfolding on_signal take_resume_signal update_rt advance
  signal-Paired fuel r mt s s' v h = elim (Result-cases (directed r mt)) [
    | inr (e, failed) ↦ ground arith
    | inl ((tid, live, mt1), ran) ↦
        let v1 = directed-IsBijective r mt mt1 tid live v ran in
        elim (Result-cases (step_thread os sys fuel live (take_resume_signal live mt1).0 s)) [
          | inr (e, failed) ↦ ground arith
          | inl ((status, s1), stop) ↦ (mt1.tidmap, ground arith, v1)
        ]
  ]

  leave-Paired :
      (fuel : ℕ) (r : Record) (mt : MtState) (s s' : Session K) (ended : Option ExitOutcome)
      → IsBijective mt.tidmap
      → on_thread_exit os sys fuel r mt s ≡ ok (ended, s')
      → Paired s'
  unfolding on_thread_exit remove_thread take_resume_signal update_rt advance
  leave-Paired fuel r mt s s' ended v h = elim (Result-cases (directed r mt)) [
    | inr (e, failed) ↦ ground arith
    | inl ((tid, live, mt1), ran) ↦
        let v1 = directed-IsBijective r mt mt1 tid live v ran in
        elim (Result-cases (step_thread os sys fuel live (take_resume_signal live mt1).0 s)) [
          | inr (e, failed) ↦ ground arith
          | inl ((status, s1), stop) ↦
              let u = unbind_result mt1.tidmap tid v1 in
              ((unbind_recorded mt1.tidmap tid).0, ground arith, u.0)
        ]
  ]

  switch-Paired :
      (r : Record) (mt : MtState) (s s' : Session K)
      → IsBijective mt.tidmap
      → on_sched_switch os sys r mt s ≡ ok s'
      → Paired s'
  unfolding on_sched_switch advance
  switch-Paired r mt s s' v h = (mt.tidmap, ground arith, v)

  spawn-Paired :
      (fuel : ℕ) (r : Record) (mt : MtState) (s s' : Session K)
      → IsBijective mt.tidmap
      → on_thread_spawn os sys fuel r mt s ≡ ok s'
      → Paired s'
  unfolding on_thread_spawn bind_child take_resume_signal update_rt advance
  spawn-Paired fuel r mt s s' v h = elim (Result-cases (directed r mt)) [
    | inr (e, failed) ↦ ground arith
    | inl ((tid, live, mt1), ran) ↦
        let v1 = directed-IsBijective r mt mt1 tid live v ran in
        elim (Result-cases (decode_thread_spawn r.event.payload)) [
          | inr (e, failed) ↦ ground arith
          | inl (spawn, decoded) ↦
              elim (Result-cases (step_thread os sys fuel live (take_resume_signal live mt1).0 s)) [
                | inr (e, failed) ↦ ground arith
                | inl ((status, s1), stop) ↦ elim (Option-cases (os.event_child live s1.os)) [
                  | inl failed ↦ ground arith
                  | inr (child, event) ↦
                      let same : (take_resume_signal live mt1).1.tidmap ≡ mt1.tidmap =
                        ground arith in
                      elim (Result-cases (bind mt1.tidmap spawn.child_tid child)) [
                        | inr (e, failed) ↦ ground (arith, same)
                        | inl (m, bound) ↦ (
                          m,
                          ground (arith, same),
                          bind_ok mt1.tidmap m spawn.child_tid child v1 bound,
                        )
                      ]
                ]
              ]
        ]
  ]

  -- Whatever record a replay of several threads performs, the table between recorded tids and live
  -- pids stays inverse both ways, so that no two recorded threads share a live one.
  pub on_record-Paired :
      (fuel : ℕ) (r : Record) (mt : MtState) (s s' : Session K) (ended : Option ExitOutcome)
      → s.mt ≡ some mt
      → IsBijective mt.tidmap
      → on_record os sys fuel r mt s ≡ ok (ended, s')
      → Paired s'
  unfolding on_record
  on_record-Paired fuel r mt s s' ended at v h = go r.event.kind refl
    where
      go : (kind : EventKind) → r.event.kind ≡ kind → Paired s'
      go checkpoint e = (mt.tidmap, ground arith, v)
      go sched_switch e = switch-Paired r mt s s' v (ground arith)
      go syscall_enter e = enter-Paired fuel r mt s s' v (ground arith)
      go syscall_exit e = exit-Paired fuel r mt s s' v (ground arith)
      go thread_spawn e = spawn-Paired fuel r mt s s' v (ground arith)
      go thread_exit e = leave-Paired fuel r mt s s' ended v (ground arith)
      go signal e = signal-Paired fuel r mt s s' v (ground arith)
      go other e = ground arith
