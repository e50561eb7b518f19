-- ===== src/Replay/Mt/Frame.antt =====
-- What the handlers of crates/replay/src/mt.rs leave alone: the records and the checkpoints.
use mirrorscope.Prelude.{
  ℕ, zero, suc, ◌≡◌, refl, ◌∙◌, arith, Bool-cases, Option-cases, inl, inr, if◌then◌else◌, false,
  Option, none, get_elem?, ok, Result-cases,
}
use mirrorscope.Trace.Format.{
  Record, EventKind, checkpoint, sched_switch, syscall_enter, syscall_exit, thread_spawn,
  thread_exit, signal,
}
use mirrorscope.Capture.Syscall.{Sys}
use mirrorscope.Capture.Sched.{WaitStatus}
use mirrorscope.Replay.State.{Session, Os, MtState, ExitOutcome}
use mirrorscope.Replay.Session.{is_reached}
use mirrorscope.Replay.Snapshots.{is_watch_hit, on_watch_hit}
use mirrorscope.Replay.Mt.{directed, take_resume_signal, advance, is_exec, is_trap}
use mirrorscope.Replay.Mt.Handlers.{
  step_thread, on_sched_switch, on_syscall_enter, on_syscall_exit, on_thread_spawn, on_thread_exit,
  on_signal, on_record, drive, drive_loop, ensure_state,
}

-- The trace and the checkpoints stay.
pub record Framed {K : Type 0} (s s' : Session K) : Type 0 where
  pub checkpoints : s'.checkpoints ≡ s.checkpoints
  pub records : s'.records ≡ s.records

module _ {K : Type 0} (os : Os K) (sys : Sys) where
  watch_hit-Framed : (pid : ℕ) (s s' : Session K) → on_watch_hit os pid s ≡ ok s' → Framed s s'
  unfolding on_watch_hit
  watch_hit-Framed pid s s' h = record { checkpoints = ground arith; records = ground arith }

  step_thread-Framed :
      (fuel live : ℕ) (sig : Option ℕ) (s s' : Session K) (status : WaitStatus)
      → step_thread os sys fuel live sig s ≡ ok (status, s')
      → Framed s s'
  unfolding step_thread
  step_thread-Framed zero live sig s s' status h = ground arith
  step_thread-Framed (suc fuel) live sig s s' status h =
      elim (Option-cases (os.resume live sig s.os)) [
        | inl failed ↦ ground arith
        | inr ((stop, k), resumed) ↦ elim (Bool-cases (is_exec stop)) [
          | inl passed ↦
              let f =
                step_thread-Framed fuel live none (record s { os = k }) s' status (ground arith) in
              record { checkpoints = f.checkpoints; records = f.records }
          | inr other ↦
              elim (Result-cases
                (if is_trap stop then is_watch_hit os live (record s { os = k }) else ok false)) [
                  | inr (e, failed) ↦ ground arith
                  | inl (hit, seen) ↦ elim (Bool-cases hit) [
                    | inr quiet ↦ record { checkpoints = ground arith; records = ground arith }
                    | inl hits ↦ elim (Result-cases (on_watch_hit os live (record s { os = k }))) [
                      | inr (e, failed) ↦ ground arith
                      | inl (s1, served) ↦
                          let w = watch_hit-Framed live (record s { os = k }) s1 served in
                          let f = step_thread-Framed fuel live none s1 s' status (ground arith) in
                          record {
                            checkpoints = f.checkpoints ∙ w.checkpoints;
                            records = f.records ∙ w.records;
                          }
                    ]
                  ]
                ]
        ]
      ]

  switch-Framed :
      (r : Record) (mt : MtState) (s s' : Session K)
      → on_sched_switch os sys r mt s ≡ ok s'
      → Framed s s'
  unfolding on_sched_switch advance
  switch-Framed r mt s s' h = record { checkpoints = ground arith; records = ground arith }

  enter-Framed :
      (fuel : ℕ) (r : Record) (mt : MtState) (s s' : Session K)
      → on_syscall_enter os sys fuel r mt s ≡ ok s'
      → Framed s s'
  unfolding on_syscall_enter advance
  enter-Framed fuel r mt s s' h = elim (Result-cases (directed r mt)) [
    | inr (e, failed) ↦ ground arith
    | inl ((tid, live, mt1), ran) ↦
        elim (Result-cases (step_thread os sys fuel live (take_resume_signal live mt1).0 s)) [
          | inr (e, failed) ↦ ground arith
          | inl ((status, s1), stop) ↦
              let f =
                step_thread-Framed fuel live (take_resume_signal live mt1).0 s s1 status stop in
              record {
                checkpoints = ground (arith, f.checkpoints);
                records = ground (arith, f.records);
              }
        ]
  ]

  exit-Framed :
      (fuel : ℕ) (r : Record) (mt : MtState) (s s' : Session K)
      → on_syscall_exit os sys fuel r mt s ≡ ok s'
      → Framed s s'
  unfolding on_syscall_exit advance
  exit-Framed fuel r mt s s' h = elim (Result-cases (directed r mt)) [
    | inr (e, failed) ↦ ground arith
    | inl ((tid, live, mt1), ran) ↦ elim (Result-cases (step_thread os sys fuel live none s)) [
      | inr (e, failed) ↦ ground arith
      | inl ((status, s1), stop) ↦
          let f = step_thread-Framed fuel live none s s1 status stop in
          record {
            checkpoints = ground (arith, f.checkpoints);
            records = ground (arith, f.records);
          }
    ]
  ]

  signal-Framed :
      (fuel : ℕ) (r : Record) (mt : MtState) (s s' : Session K)
      → on_signal os sys fuel r mt s ≡ ok s'
      → Framed s s'
  unfolding on_signal advance
  signal-Framed fuel r mt s s' h = elim (Result-cases (directed r mt)) [
    | inr (e, failed) ↦ ground arith
    | inl ((tid, live, mt1), ran) ↦
        elim (Result-cases (step_thread os sys fuel live (take_resume_signal live mt1).0 s)) [
          | inr (e, failed) ↦ ground arith
          | inl ((status, s1), stop) ↦
              let f =
                step_thread-Framed fuel live (take_resume_signal live mt1).0 s s1 status stop in
              record {
                checkpoints = ground (arith, f.checkpoints);
                records = ground (arith, f.records);
              }
        ]
  ]

  leave-Framed :
      (fuel : ℕ) (r : Record) (mt : MtState) (s s' : Session K) (ended : Option ExitOutcome)
      → on_thread_exit os sys fuel r mt s ≡ ok (ended, s')
      → Framed s s'
  unfolding on_thread_exit advance
  leave-Framed fuel r mt s s' ended h = elim (Result-cases (directed r mt)) [
    | inr (e, failed) ↦ ground arith
    | inl ((tid, live, mt1), ran) ↦
        elim (Result-cases (step_thread os sys fuel live (take_resume_signal live mt1).0 s)) [
          | inr (e, failed) ↦ ground arith
          | inl ((status, s1), stop) ↦
              let f =
                step_thread-Framed fuel live (take_resume_signal live mt1).0 s s1 status stop in
              record {
                checkpoints = ground (arith, f.checkpoints);
                records = ground (arith, f.records);
              }
        ]
  ]

  spawn-Framed :
      (fuel : ℕ) (r : Record) (mt : MtState) (s s' : Session K)
      → on_thread_spawn os sys fuel r mt s ≡ ok s'
      → Framed s s'
  unfolding on_thread_spawn advance
  spawn-Framed fuel r mt s s' h = elim (Result-cases (directed r mt)) [
    | inr (e, failed) ↦ ground arith
    | inl ((tid, live, mt1), ran) ↦
        elim (Result-cases (step_thread os sys fuel live (take_resume_signal live mt1).0 s)) [
          | inr (e, failed) ↦ ground arith
          | inl ((status, s1), stop) ↦
              let f =
                step_thread-Framed fuel live (take_resume_signal live mt1).0 s s1 status stop in
              record {
                checkpoints = ground (arith, f.checkpoints);
                records = ground (arith, f.records);
              }
        ]
  ]

  -- Each kind of record goes to its handler.
  pub on_record-Framed :
      (fuel : ℕ) (r : Record) (mt : MtState) (s s' : Session K) (ended : Option ExitOutcome)
      → on_record os sys fuel r mt s ≡ ok (ended, s')
      → Framed s s'
  unfolding on_record
  on_record-Framed fuel r mt s s' ended h = go r.event.kind refl
    where
      go : (kind : EventKind) → r.event.kind ≡ kind → Framed s s'
      go checkpoint e = record { checkpoints = ground arith; records = ground arith }
      go sched_switch e = switch-Framed r mt s s' (ground arith)
      go syscall_enter e = enter-Framed fuel r mt s s' (ground arith)
      go syscall_exit e = exit-Framed fuel r mt s s' (ground arith)
      go thread_spawn e = spawn-Framed fuel r mt s s' (ground arith)
      go thread_exit e = leave-Framed fuel r mt s s' ended (ground arith)
      go signal e = signal-Framed fuel r mt s s' (ground arith)
      go other e = ground arith

  drive_loop-Framed :
      (fuel : ℕ) (stop_at : Option ℕ) (s s' : Session K) (outcome : ExitOutcome)
      → drive_loop os sys fuel stop_at s ≡ ok (outcome, s')
      → Framed s s'
  unfolding drive_loop ensure_state
  drive_loop-Framed zero stop_at s s' outcome h = ground arith
  drive_loop-Framed (suc fuel) stop_at s s' outcome h =
      elim (Bool-cases (is_reached stop_at s.current_seq)) [
        | inl reached ↦ record { checkpoints = ground arith; records = ground arith }
        | inr further ↦ elim (Option-cases (get_elem? s.records s.cursor)) [
          | inl exhausted ↦ ground arith
          | inr (r, here) ↦
              elim (Result-cases (on_record os sys fuel r (ensure_state s).0 (ensure_state s).1)) [
                | inr (e, failed) ↦ ground arith
                | inl ((ended, s1), done) ↦
                    let f =
                      on_record-Framed fuel r (ensure_state s).0 (ensure_state s).1 s1 ended done in
                    let g : Framed s s1 = record {
                      checkpoints = ground (arith, f.checkpoints);
                      records = ground (arith, f.records);
                    } in
                    elim (Option-cases ended) [
                      | inr (o, ends) ↦ record {
                        checkpoints = ground (arith, g.checkpoints);
                        records = ground (arith, g.records);
                      }
                      | inl goes ↦
                          let rest = drive_loop-Framed fuel stop_at s1 s' outcome (ground arith) in
                          record {
                            checkpoints = rest.checkpoints ∙ g.checkpoints;
                            records = rest.records ∙ g.records;
                          }
                    ]
              ]
        ]
      ]

  -- Driving a multi-threaded replay changes neither the trace nor the checkpoints.
  pub drive-Framed :
      (fuel : ℕ) (stop_at : Option ℕ) (s s' : Session K) (outcome : ExitOutcome)
      → drive os sys fuel stop_at s ≡ ok (outcome, s')
      → Framed s s'
  unfolding drive ensure_state
  drive-Framed fuel stop_at s s' outcome h = elim (Option-cases s.mt) [
    | inr (mt, started) ↦ drive_loop-Framed fuel stop_at s s' outcome (ground arith)
    | inl fresh ↦ elim (Option-cases (os.set_options s.pid s.os)) [
      | inl failed ↦ ground arith
      | inr (k, set) ↦
          let s1 = (ensure_state (record s { os = k })).1 in
          let f = drive_loop-Framed fuel stop_at s1 s' outcome (ground arith) in
          record {
            checkpoints = ground (arith, f.checkpoints);
            records = ground (arith, f.records);
          }
    ]
  ]
