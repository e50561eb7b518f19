-- ===== src/Replay/Drive/Checkpoints.antt =====
-- The checkpoints of a session (crates/replay/src/session.rs) through its operations.
use mirrorscope.Prelude.{
  ℕ, zero, suc, ◌≡◌, ◌≤◌, refl, subst, arith, ◌⊎◌, ◌||◌, Bool-cases, Option-cases, inl, inr, true,
  false, Option, none, some, List, [], ◌∷◌, ◌++◌, ok, Result-cases, bind-ok, All, All-append,
}
use mirrorscope.Capture.Syscall.{Sys}
use mirrorscope.Capture.Sched.{
  WaitStatus, ptrace_syscall, ptrace_event, stopped, exited, signaled, other_status,
}
use mirrorscope.Replay.CheckpointSelect.{saturating_add, is_checkpoint_due}
use mirrorscope.Replay.State.{Session, Os, CheckpointInfo, ExitOutcome}
use mirrorscope.Replay.Session.{
  last_seq, is_reached, is_some, on_entry, on_exit, next_record, skip_checkpoints, on_syscall_stop,
  on_signal_stop, finish,
}
use mirrorscope.Replay.Snapshots.{maybe_checkpoint, jump_to, is_watch_hit, on_watch_hit}
use mirrorscope.Replay.Snapshots.Jumps.{IsStamped, jump_to_lem}
use mirrorscope.Replay.Mt.Frame.{drive-Framed}
use mirrorscope.Replay.Drive.{on_stop, on_status, drive_loop, drive, run_to}

-- Each number is at least the one before it and 1, added as `u64` saturates: it is greater, below
-- the greatest `u64`.
abbrev pub Ascending : List CheckpointInfo → Type 0
Ascending [] = Unit
Ascending (c ∷ []) = Unit
Ascending (c ∷ d ∷ cps) = (saturating_add c.seq 1 ≤ d.seq) × Ascending (d ∷ cps)

Ascending-append :
    (cps : List CheckpointInfo) (n : CheckpointInfo)
    → Ascending cps
    → ((last : ℕ) → last_seq cps ≡ some last → saturating_add last 1 ≤ n.seq)
    → Ascending (cps ++ n ∷ [])
Ascending-append [] n a h = tt
Ascending-append (c ∷ []) n a h = (h c.seq refl, tt)
Ascending-append (c ∷ d ∷ cps) n a h = (a.0, Ascending-append (d ∷ cps) n a.1 h)

due-after :
    (cps : List CheckpointInfo) (current interval last : ℕ)
    → is_checkpoint_due (last_seq cps) current interval ≡ true
    → last_seq cps ≡ some last
    → saturating_add last 1 ≤ current
unfolding is_checkpoint_due
due-after cps current interval last due e = ground arith

pub record IsOrdered (cps : List CheckpointInfo) : Type 0 where
  pub stamped : All IsStamped cps
  pub ascending : Ascending cps

module _ {K : Type 0} (os : Os K) (sys : Sys) where
  snapshot_taken :
      (s s' : Session K) (seq : ℕ)
      → s.current_seq ≡ some seq
      → is_checkpoint_due (last_seq s.checkpoints) seq s.checkpoint_interval ≡ true
      → maybe_checkpoint os s ≡ ok s'
      → (s'.checkpoints ≡ s.checkpoints)
        ⊎ ((cp : CheckpointInfo) × IsStamped cp
            × (cp.seq ≡ seq)
            × (s'.checkpoints ≡ s.checkpoints ++ cp ∷ []))
  unfolding maybe_checkpoint
  snapshot_taken s s' seq at due h = elim (Bool-cases (s.multithreaded || is_some s.pending)) [
    | inl never ↦ inl (ground arith)
    | inr may ↦ elim (Option-cases (os.fork_snapshot s.pid s.os)) [
      | inl failed ↦ ground arith
      | inr ((snapshot, k), forked) ↦ inr (
        record {
          seq = seq;
          cursor = s.cursor;
          current_seq = s.current_seq;
          last_regs = s.last_regs;
          snapshot = snapshot;
        },
        at,
        refl,
        ground arith,
      )
    ]
  ]

  snapshot_not_due :
      (s s' : Session K) (seq : ℕ)
      → s.current_seq ≡ some seq
      → is_checkpoint_due (last_seq s.checkpoints) seq s.checkpoint_interval ≡ false
      → maybe_checkpoint os s ≡ ok s'
      → s'.checkpoints ≡ s.checkpoints
  unfolding maybe_checkpoint
  snapshot_not_due s s' seq at due h = ground arith

  snapshot_nowhere :
      (s s' : Session K)
      → s.current_seq ≡ none
      → maybe_checkpoint os s ≡ ok s'
      → s'.checkpoints ≡ s.checkpoints
  unfolding maybe_checkpoint
  snapshot_nowhere s s' at h = ground arith

  maybe_checkpoint-IsOrdered :
      (s s' : Session K)
      → IsOrdered s.checkpoints
      → maybe_checkpoint os s ≡ ok s'
      → IsOrdered s'.checkpoints
  maybe_checkpoint-IsOrdered s s' v h = elim (Option-cases s.current_seq) [
    | inl nowhere ↦ rw (snapshot_nowhere s s' nowhere h) v
    | inr (seq, at) ↦
        elim (Bool-cases (is_checkpoint_due (last_seq s.checkpoints) seq s.checkpoint_interval)) [
          | inr not_due ↦ rw (snapshot_not_due s s' seq at not_due h) v
          | inl due ↦ elim (snapshot_taken s s' seq at due h) [
            | inl same ↦ rw same v
            | inr (cp, stamped, here, added) ↦ rw added (record {
              stamped = All-append IsStamped s.checkpoints (cp ∷ []) v.stamped (stamped, tt);
              ascending = Ascending-append s.checkpoints cp v.ascending (λ last e.
                  omega
                    (arith, here, due-after s.checkpoints seq s.checkpoint_interval last due e));
            })
          ]
        ]
  ]

  stop_keeps :
      (s s' : Session K) → on_syscall_stop os sys s ≡ ok s' → s'.checkpoints ≡ s.checkpoints
  unfolding on_syscall_stop on_entry on_exit next_record skip_checkpoints
  stop_keeps s s' h = ground arith

  signal_keeps :
      (sig : ℕ) (s s' : Session K) → on_stop os sys sig s ≡ ok s' → s'.checkpoints ≡ s.checkpoints
  unfolding on_stop is_watch_hit on_watch_hit on_signal_stop skip_checkpoints
  signal_keeps sig s s' h = ground arith

  -- One stop.
  on_status-IsOrdered :
      (status : WaitStatus) (s s' : Session K) (ended : Option ExitOutcome)
      → IsOrdered s.checkpoints
      → on_status os sys status s ≡ ok (ended, s')
      → IsOrdered s'.checkpoints
  unfolding on_status finish
  on_status-IsOrdered (ptrace_syscall pid) s s' ended v h =
      let (s1, served, rest) = bind-ok _ _ _ h in
      let (s2, taken, last) = bind-ok _ _ _ rest in
      let same : s2 ≡ s' = ground arith in
      subst (λ x. IsOrdered x.checkpoints) same
        (maybe_checkpoint-IsOrdered s1 s2 (rw (stop_keeps s s1 served) v) taken)
  on_status-IsOrdered (stopped pid sig) s s' ended v h =
      let (s1, done, rest) = bind-ok _ _ _ h in
      let same : s1 ≡ s' = ground arith in
      subst (λ x. IsOrdered x.checkpoints) same (rw (signal_keeps sig s s1 done) v)
  on_status-IsOrdered (exited pid code) s s' ended v h =
      let same : s'.checkpoints ≡ s.checkpoints = ground arith in rw same v
  on_status-IsOrdered (signaled pid sig) s s' ended v h =
      let same : s'.checkpoints ≡ s.checkpoints = ground arith in rw same v
  on_status-IsOrdered (ptrace_event pid e) s s' ended v h =
      let same : s'.checkpoints ≡ s.checkpoints = ground arith in rw same v
  on_status-IsOrdered other_status s s' ended v h =
      let same : s'.checkpoints ≡ s.checkpoints = ground arith in rw same v

  drive_loop-IsOrdered :
      (fuel : ℕ) (stop_at : Option ℕ) (s s' : Session K) (outcome : ExitOutcome)
      → IsOrdered s.checkpoints
      → drive_loop os sys fuel stop_at s ≡ ok (outcome, s')
      → IsOrdered s'.checkpoints
  unfolding drive_loop
  drive_loop-IsOrdered zero stop_at s s' outcome v h = ground arith
  drive_loop-IsOrdered (suc fuel) stop_at s s' outcome v h =
      elim (Bool-cases (is_reached stop_at s.current_seq)) [
        | inl reached ↦
            let same : s ≡ s' = ground arith in subst (λ x. IsOrdered x.checkpoints) same v
        | inr further ↦ elim (Option-cases (os.resume s.pid s.resume_signal s.os)) [
          | inl failed ↦ ground arith
          | inr ((status, k), resumed) ↦
              let s0 = record s { os = k; resume_signal = none } in
              elim (Result-cases (on_status os sys status s0)) [
                | inr (e, failed) ↦ ground arith
                | inl ((ended, s1), done) ↦
                    let v1 = on_status-IsOrdered status s0 s1 ended v done in
                    elim (Option-cases ended) [
                      | inr (o, ends) ↦
                          let same : s1 ≡ s' = ground arith in
                          subst (λ x. IsOrdered x.checkpoints) same v1
                      | inl goes ↦ drive_loop-IsOrdered fuel stop_at s1 s' outcome v1 (ground arith)
                    ]
              ]
        ]
      ]

  drive-IsOrdered :
      (fuel : ℕ) (stop_at : Option ℕ) (s s' : Session K) (outcome : ExitOutcome)
      → IsOrdered s.checkpoints
      → drive os sys fuel stop_at s ≡ ok (outcome, s')
      → IsOrdered s'.checkpoints
  unfolding drive
  drive-IsOrdered fuel stop_at s s' outcome v h = elim (Option-cases s.finished) [
    | inr (o, ended) ↦
        let same : s ≡ s' = ground arith in subst (λ x. IsOrdered x.checkpoints) same v
    | inl live ↦ elim (Bool-cases s.multithreaded) [
      | inr single ↦ drive_loop-IsOrdered fuel stop_at s s' outcome v (ground arith)
      | inl several ↦
          let f = drive-Framed os sys fuel stop_at s s' outcome (ground arith) in rw f.checkpoints v
    ]
  ]

  -- `run_to` with either engine, forward or backward: if the checkpoints carry their own sequence
  -- numbers in ascending order (each at least the one before it plus 1, as `u64` saturates), then
  -- so do those of the session that `run_to` leaves.
  pub run_to-IsOrdered :
      (fuel seq : ℕ) (s s' : Session K) (outcome : ExitOutcome)
      → IsOrdered s.checkpoints
      → run_to os sys fuel seq s ≡ ok (outcome, s')
      → IsOrdered s'.checkpoints
  unfolding run_to
  run_to-IsOrdered fuel seq s s' outcome v h = elim (Result-cases (jump_to os seq s)) [
    | inr (e, failed) ↦ ground arith
    | inl (s1, jumped) ↦
        let j = jump_to_lem os seq s s1 v.stamped jumped in
        drive-IsOrdered fuel (some seq) s1 s' outcome (rw j.same_checkpoints v) (ground arith)
  ]
