-- ===== src/Replay/Drive/Targets.antt =====
-- Where a drive toward a sequence number stops (crates/replay/src/session.rs and mt.rs).
use mirrorscope.Prelude.{
  ℕ, zero, suc, ◌≡◌, ◌≢◌, ◌≤◌, refl, ap, ◌∙◌, subst, arith, leb→le, Bool-cases, Option-cases, inl,
  inr, true, Option, none, some, get_elem?, Result, ok, err, Result-cases, ◌>>=◌,
}
use mirrorscope.Trace.Format.{
  Record, EventKind, checkpoint, sched_switch, syscall_enter, syscall_exit, thread_spawn,
  thread_exit, signal,
}
use mirrorscope.Capture.Syscall.{Sys}
use mirrorscope.Capture.Sched.{
  WaitStatus, ptrace_syscall, ptrace_event, stopped, exited, signaled, other_status,
}
use mirrorscope.Replay.State.{Session, Os, MtState, ReplayError, ExitOutcome, running}
use mirrorscope.Replay.Session.{is_reached, on_syscall_stop}
use mirrorscope.Replay.Snapshots.{maybe_checkpoint, jump_to}
use mirrorscope.Replay.Snapshots.Jumps.{
  IsStamped, jump_to_lem, Seat, stayed, at_entry, at_checkpoint,
}
use mirrorscope.Replay.Mt.{directed, take_resume_signal}
use mirrorscope.Replay.Mt.Handlers
use mirrorscope.Replay.Mt.Handlers.{step_thread, on_record, on_thread_exit, ensure_state}
use mirrorscope.Replay.Drive.{on_stop, on_status, drive_loop, drive, run_to}
use mirrorscope.Prelude.{All}

-- The session has consumed a record at or after the target.
abbrev pub Reached : ℕ → Option ℕ → Type 0
Reached target current = (c : ℕ) × (current ≡ some c) × (target ≤ c)

is_reached-Reached :
    (target : ℕ) (current : Option ℕ)
    → is_reached (some target) current ≡ true
    → Reached target current
is_reached-Reached target none h = ground arith
is_reached-Reached target (some c) h = (c, refl, leb→le target c h)

module _ {K : Type 0} (os : Os K) (sys : Sys) where
  status_ends :
      (status : WaitStatus) (s s' : Session K) → on_status os sys status s ≢ ok (some running, s')
  unfolding on_status
  status_ends (ptrace_syscall pid) s s' h = elim (Result-cases (on_syscall_stop os sys s)) [
    | inr (e, failed) ↦ ground arith
    | inl (s1, done) ↦ elim (Result-cases (maybe_checkpoint os s1)) [
      | inr (e, failed) ↦ ground arith
      | inl (s2, taken) ↦ ground arith
    ]
  ]
  status_ends (stopped pid sig) s s' h = elim (Result-cases (on_stop os sys sig s)) [
    | inr (e, failed) ↦ ground arith
    | inl (s1, done) ↦ ground arith
  ]
  status_ends (exited pid code) s s' h = ground arith
  status_ends (signaled pid sig) s s' h = ground arith
  status_ends (ptrace_event pid e) s s' h = ground arith
  status_ends other_status s s' h = ground arith

  loop-Reached :
      (fuel target : ℕ) (s s' : Session K)
      → drive_loop os sys fuel (some target) s ≡ ok (running, s')
      → Reached target s'.current_seq
  unfolding drive_loop
  loop-Reached zero target s s' h = ground arith
  loop-Reached (suc fuel) target s s' h =
      elim (Bool-cases (is_reached (some target) s.current_seq)) [
        | inl reached ↦
            let same : s ≡ s' = ground arith in
            subst (λ x. Reached target x.current_seq) same
              (is_reached-Reached target s.current_seq reached)
        | inr further ↦ elim (Option-cases (os.resume s.pid s.resume_signal s.os)) [
          | inl failed ↦ ground arith
          | inr ((status, k), resumed) ↦
              let s0 = record s { os = k; resume_signal = none } in
              elim (Result-cases (on_status os sys status s0)) [
                | inr (e, failed) ↦ ground arith
                | inl ((ended, s1), done) ↦ elim (Option-cases ended) [
                  | inl goes ↦ loop-Reached fuel target s1 s' (ground arith)
                  | inr (o, ends) ↦ ground (arith, status_ends status s0 s1)
                ]
              ]
        ]
      ]

  exit_ends :
      (fuel : ℕ) (r : Record) (mt : MtState) (s s' : Session K)
      → on_thread_exit os sys fuel r mt s ≢ ok (some running, s')
  unfolding on_thread_exit
  exit_ends fuel r mt s s' h = elim (Result-cases (directed r mt)) [
    | inr (e, failed) ↦ ground arith
    | inl ((tid, live, mt1), ran) ↦
        elim (Result-cases (step_thread os sys fuel live (take_resume_signal live mt1).0 s)) [
          | inr (e, failed) ↦ ground arith
          | inl ((status, s1), stop) ↦ ground arith
        ]
  ]

  abbrev then_on : Session K → Result ReplayError (Option ExitOutcome × Session K)
  then_on s1 = ok (none, s1)

  record_ends :
      (fuel : ℕ) (r : Record) (mt : MtState) (s s' : Session K)
      → on_record os sys fuel r mt s ≢ ok (some running, s')
  unfolding on_record
  record_ends fuel r mt s s' h = go r.event.kind refl
    where
      goes_on : (m : Result ReplayError (Session K)) → (m >>= then_on) ≢ ok (some running, s')
      goes_on (ok x) e = ground arith
      goes_on (err x) e = ground arith

      go : (kind : EventKind) → r.event.kind ≡ kind → ⊥
      go checkpoint e = ground arith
      go sched_switch e = goes_on (Handlers.on_sched_switch os sys r mt s) (ground arith)
      go syscall_enter e = goes_on (Handlers.on_syscall_enter os sys fuel r mt s) (ground arith)
      go syscall_exit e = goes_on (Handlers.on_syscall_exit os sys fuel r mt s) (ground arith)
      go thread_spawn e = goes_on (Handlers.on_thread_spawn os sys fuel r mt s) (ground arith)
      go thread_exit e = exit_ends fuel r mt s s' (ground arith)
      go signal e = goes_on (Handlers.on_signal os sys fuel r mt s) (ground arith)
      go other e = ground arith

  mt_loop-Reached :
      (fuel target : ℕ) (s s' : Session K)
      → Handlers.drive_loop os sys fuel (some target) s ≡ ok (running, s')
      → Reached target s'.current_seq
  unfolding Handlers.drive_loop
  mt_loop-Reached zero target s s' h = ground arith
  mt_loop-Reached (suc fuel) target s s' h =
      elim (Bool-cases (is_reached (some target) s.current_seq)) [
        | inl reached ↦
            let same : s ≡ s' = ground arith in
            subst (λ x. Reached target x.current_seq) same
              (is_reached-Reached target s.current_seq reached)
        | inr further ↦ elim (Option-cases (get_elem? s.records s.cursor)) [
          | inl exhausted ↦ ground arith
          | inr (r, here) ↦
              elim (Result-cases (on_record os sys fuel r (ensure_state s).0 (ensure_state s).1)) [
                | inr (e, failed) ↦ ground arith
                | inl ((ended, s1), done) ↦ elim (Option-cases ended) [
                  | inl goes ↦ mt_loop-Reached fuel target s1 s' (ground arith)
                  | inr (o, ends) ↦
                      ground (arith, record_ends fuel r (ensure_state s).0 (ensure_state s).1 s1)
                ]
              ]
        ]
      ]

  mt_drive-Reached :
      (fuel target : ℕ) (s s' : Session K)
      → Handlers.drive os sys fuel (some target) s ≡ ok (running, s')
      → Reached target s'.current_seq
  unfolding Handlers.drive
  mt_drive-Reached fuel target s s' h = elim (Option-cases s.mt) [
    | inr (mt, started) ↦ mt_loop-Reached fuel target s s' (ground arith)
    | inl fresh ↦ elim (Option-cases (os.set_options s.pid s.os)) [
      | inl failed ↦ ground arith
      | inr (k, set) ↦
          mt_loop-Reached fuel target (ensure_state (record s { os = k })).1 s' (ground arith)
    ]
  ]

  drive-Reached :
      (fuel target : ℕ) (s s' : Session K)
      → s.finished ≢ some running
      → drive os sys fuel (some target) s ≡ ok (running, s')
      → Reached target s'.current_seq
  unfolding drive
  drive-Reached fuel target s s' live h = elim (Option-cases s.finished) [
    | inr (o, ended) ↦ ground arith
    | inl goes ↦ elim (Bool-cases s.multithreaded) [
      | inl several ↦ mt_drive-Reached fuel target s s' (ground arith)
      | inr single ↦ loop-Reached fuel target s s' (ground arith)
    ]
  ]

  seat-finished :
      (seq : ℕ) (s s' : Session K)
      → Seat os seq s s'
      → s.finished ≢ some running
      → s'.finished ≢ some running
  seat-finished seq s s' (stayed e) live h = live (ap (λ x. x.finished) e ∙ h)
  seat-finished seq s s' (at_entry a b c d) live h = ground arith
  seat-finished seq s s' (at_checkpoint i cp a b c d e f) live h = ground arith

  -- When `run_to` answers that the tracee still runs, with either engine and whether it went
  -- forward or back, the session has consumed a record at or after the target. (The session's
  -- checkpoints carry their own numbers, and its stored outcome, if any, is an end.)
  pub run_to-Reached :
      (fuel target : ℕ) (s s' : Session K)
      → All IsStamped s.checkpoints
      → s.finished ≢ some running
      → run_to os sys fuel target s ≡ ok (running, s')
      → Reached target s'.current_seq
  unfolding run_to
  run_to-Reached fuel target s s' stamped live h = elim (Result-cases (jump_to os target s)) [
    | inr (e, failed) ↦ ground arith
    | inl (s1, jumped) ↦
        let j = jump_to_lem os target s s1 stamped jumped in
        drive-Reached fuel target s1 s' (seat-finished target s s1 j.seat live) (ground arith)
  ]
