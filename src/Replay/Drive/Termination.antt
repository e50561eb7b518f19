-- ===== src/Replay/Drive/Termination.antt =====
-- The fuel of the loop of crates/replay/src/session.rs over the stops of the tracee.
use mirrorscope.Prelude.{
  ◌+◌, ◌-◌, get_elem?, length, List, [], ◌∷◌, ℕ, zero, suc, ◌≡◌, ◌≢◌, ◌≤◌, ◌<◌, ap, arith,
  Bool-cases, Option-cases, inl, inr, Option, none, some, ok, err, Result-cases,
}
use mirrorscope.Prelude.Bytes.{Bytes}
use mirrorscope.Prelude.Ints.{ℤ}
use mirrorscope.Capture.Syscall.{Sys, SyscallRegs}
use mirrorscope.Capture.Payload.{decode_exit}
use mirrorscope.Trace.Format.{Record}
use mirrorscope.Capture.Sched.{
  WaitStatus, ptrace_syscall, ptrace_event, stopped, exited, signaled, other_status,
}
use mirrorscope.Replay.State.{Session, Os, Pending, out_of_fuel}
use mirrorscope.Replay.Session.{
  is_reached, on_syscall_stop, on_signal_stop, finish, on_entry, on_exit, next_record,
  skip_checkpoints,
}
use mirrorscope.Replay.Snapshots.{maybe_checkpoint, is_watch_hit, on_watch_hit}
use mirrorscope.Replay.Drive.{on_stop, on_status, drive_loop}

-- How a resume changes the count of the stops left that are not at syscalls: such a stop is one of
-- them, a syscall stop adds none, and of an end nothing is said.
abbrev pub Counts : (before after : ℕ) → WaitStatus → Type 0
Counts before after (ptrace_syscall pid) = after ≤ before
Counts before after (ptrace_event pid e) = after < before
Counts before after (stopped pid sig) = after < before
Counts before after other_status = after < before
Counts before after (exited pid code) = Unit
Counts before after (signaled pid sig) = Unit

-- A tracee with finitely many stops that are not at syscalls, `others` of them left. Its syscalls
-- may go on for ever, and what the replay does to it at a stop adds no stop of another kind.
pub record HasFewOthers {K : Type 0} (os : Os K) (others : K → ℕ) : Type 0 where
  pub resumes :
      (pid : ℕ) (sig : Option ℕ) (k k' : K) (status : WaitStatus)
      → os.resume pid sig k ≡ some (status, k')
      → Counts (others k) (others k') status
  pub suppresses : (pid : ℕ) (k k' : K) → os.suppress_syscall pid k ≡ some k' → others k' ≤ others k
  pub returns :
      (pid : ℕ) (ret : ℤ) (k k' : K) → os.set_return pid ret k ≡ some k' → others k' ≤ others k
  pub writes :
      (pid addr : ℕ) (bytes : Bytes) (k k' : K)
      → os.write_memory pid addr bytes k ≡ some k'
      → others k' ≤ others k
  pub forks :
      (pid copy : ℕ) (k k' : K) → os.fork_snapshot pid k ≡ some (copy, k') → others k' ≤ others k
  pub steps : (pid : ℕ) (k k' : K) → os.step_over pid k ≡ some k' → others k' ≤ others k

-- The records that are not consumed.
abbrev pub ahead : {K : Type 0} → Session K → ℕ
ahead s = length s.records - s.cursor

get_elem?-below : (xs : List Record) (i : ℕ) (r : Record) → get_elem? xs i ≡ some r → i < length xs
get_elem?-below [] i r h = ground arith
get_elem?-below (x ∷ xs) zero r h = omega arith
get_elem?-below (x ∷ xs) (suc i) r h = omega (arith, get_elem?-below xs i r h)

next_record-ahead :
    {K : Type 0} (s s1 : Session K) (r : Record)
    → next_record s ≡ ok (r, s1)
    → (s1.os ≡ s.os) × (ahead s1 < ahead s)
unfolding next_record skip_checkpoints
next_record-ahead s s1 r h = elim (Option-cases (get_elem? s.records (skip_checkpoints s).cursor)) [
  | inl none_left ↦ absurd (ground arith)
  | inr (found, there) ↦
      ground (arith, get_elem?-below s.records (skip_checkpoints s).cursor found there)
]

module _ {K : Type 0} (os : Os K) (sys : Sys) (others : K → ℕ) (few : HasFewOthers os others) where
  -- At least a record is consumed, and no other stop is added.
  abbrev Consumes : Session K → Session K → Type 0
  Consumes s t = (ahead t < ahead s) × (others t.os ≤ others s.os)

  -- Maybe no record is consumed.
  abbrev Keeps : Session K → Session K → Type 0
  Keeps s t = (ahead t ≤ ahead s) × (others t.os ≤ others s.os)

  on_entry-Consumes :
      (regs : SyscallRegs) (s s' : Session K) → on_entry os sys regs s ≡ ok s' → Consumes s s'
  unfolding on_entry
  on_entry-Consumes regs s s' h = elim (Result-cases (next_record s)) [
    | inr (e, failed) ↦ absurd (ground arith)
    | inl ((r, s1), read) ↦
        let same : (s1.os ≡ s.os) × (ahead s1 < ahead s) = next_record-ahead s s1 r read in
        elim (Option-cases (os.suppress_syscall s1.pid s1.os)) [
          | inl failed ↦ ground (arith, ap others same.0)
          | inr (k, cancelled) ↦
              ground (arith, ap others same.0, few.suppresses s1.pid s1.os k cancelled)
        ]
  ]

  on_exit-Consumes : (p : Pending) (s s' : Session K) → on_exit os sys p s ≡ ok s' → Consumes s s'
  unfolding on_exit
  on_exit-Consumes p s s' h = elim (Result-cases (next_record s)) [
    | inr (e, failed) ↦ absurd (ground arith)
    | inl ((r, s1), read) ↦
        let same : (s1.os ≡ s.os) × (ahead s1 < ahead s) = next_record-ahead s s1 r read in
        elim (Result-cases (decode_exit r.event.payload)) [
          | inr (e, failed) ↦ absurd (ground arith)
          | inl (exit, decoded) ↦ elim (Option-cases p.inject_addr) [
            | inl real ↦ ground (arith, ap others same.0)
            | inr (addr, inject) ↦
                elim (Option-cases (os.write_memory s1.pid addr exit.data_bytes s1.os)) [
                  | inl failed ↦ absurd (ground arith)
                  | inr (k1, wrote) ↦ elim (Option-cases (os.set_return s1.pid exit.ret k1)) [
                    | inl failed ↦ absurd (ground arith)
                    | inr (k2, set) ↦ ground (
                      arith,
                      ap others same.0,
                      few.writes s1.pid addr exit.data_bytes s1.os k1 wrote,
                      few.returns s1.pid exit.ret k1 k2 set,
                    )
                  ]
                ]
          ]
        ]
  ]

  on_syscall_stop-Consumes : (s s' : Session K) → on_syscall_stop os sys s ≡ ok s' → Consumes s s'
  unfolding on_syscall_stop
  on_syscall_stop-Consumes s s' h = elim (Option-cases (os.read_regs s.pid s.os)) [
    | inl failed ↦ absurd (ground arith)
    | inr (regs, read) ↦ elim (Option-cases s.pending) [
      | inl none_pending ↦
          on_entry-Consumes regs (record s { last_regs = some regs }) s' (ground arith)
      | inr (p, in_flight) ↦
          on_exit-Consumes p (record s { last_regs = some regs; pending = none }) s' (ground arith)
    ]
  ]

  maybe_checkpoint-Keeps : (s s' : Session K) → maybe_checkpoint os s ≡ ok s' → Keeps s s'
  unfolding maybe_checkpoint
  maybe_checkpoint-Keeps s s' h = elim (Option-cases (os.fork_snapshot s.pid s.os)) [
    | inl failed ↦ ground arith
    | inr ((copy, k), forked) ↦ ground (arith, few.forks s.pid copy s.os k forked)
  ]

  on_stop-Keeps : (sig : ℕ) (s s' : Session K) → on_stop os sys sig s ≡ ok s' → Keeps s s'
  unfolding on_stop is_watch_hit on_watch_hit on_signal_stop skip_checkpoints
  on_stop-Keeps sig s s' h = elim (Option-cases (os.step_over s.pid s.os)) [
    | inl failed ↦ ground arith
    | inr (k, stepped) ↦ ground (arith, few.steps s.pid s.os k stepped)
  ]

  -- A stop that does not end the replay leaves less ahead than there was before the resume, when
  -- `before` other stops were left.
  on_status-less :
      (before : ℕ) (status : WaitStatus) (s s' : Session K)
      → on_status os sys status s ≡ ok (none, s')
      → Counts before (others s.os) status
      → ahead s' + others s'.os < ahead s + before
  unfolding on_status finish
  on_status-less before (ptrace_syscall pid) s s' h counts =
      elim (Result-cases (on_syscall_stop os sys s)) [
        | inr (e, failed) ↦ absurd (ground arith)
        | inl (s1, done) ↦ elim (Result-cases (maybe_checkpoint os s1)) [
          | inr (e, failed) ↦ absurd (ground arith)
          | inl (s2, taken) ↦
              ground (arith, on_syscall_stop-Consumes s s1 done, maybe_checkpoint-Keeps s1 s2 taken)
        ]
      ]
  on_status-less before (stopped pid sig) s s' h counts =
      elim (Result-cases (on_stop os sys sig s)) [
        | inr (e, failed) ↦ absurd (ground arith)
        | inl (s1, done) ↦ ground (arith, on_stop-Keeps sig s s1 done)
      ]
  on_status-less before (exited pid code) s s' h counts = absurd (ground arith)
  on_status-less before (signaled pid sig) s s' h counts = absurd (ground arith)
  on_status-less before (ptrace_event pid e) s s' h counts = ground arith
  on_status-less before other_status s s' h counts = ground arith

  stop_fueled : (s : Session K) → on_syscall_stop os sys s ≢ err out_of_fuel
  unfolding on_syscall_stop on_entry on_exit next_record skip_checkpoints
  stop_fueled s h = ground arith

  checkpoint_fueled : (s : Session K) → maybe_checkpoint os s ≢ err out_of_fuel
  unfolding maybe_checkpoint
  checkpoint_fueled s h = ground arith

  signal_fueled : (sig : ℕ) (s : Session K) → on_stop os sys sig s ≢ err out_of_fuel
  unfolding on_stop is_watch_hit on_watch_hit on_signal_stop skip_checkpoints
  signal_fueled sig s h = ground arith

  status_fueled :
      (status : WaitStatus) (s : Session K) → on_status os sys status s ≢ err out_of_fuel
  unfolding on_status
  status_fueled (ptrace_syscall pid) s h = elim (Result-cases (on_syscall_stop os sys s)) [
    | inr (e, failed) ↦ ground (arith, stop_fueled s)
    | inl (s1, done) ↦ ground (arith, checkpoint_fueled s1)
  ]
  status_fueled (stopped pid sig) s h = ground (arith, signal_fueled sig s)
  status_fueled (exited pid code) s h = ground arith
  status_fueled (signaled pid sig) s h = ground arith
  status_fueled (ptrace_event pid e) s h = ground arith
  status_fueled other_status s h = ground arith

  -- The single-threaded loop ends on a tracee with finitely many stops that are not at syscalls:
  -- with more fuel than such stops and unconsumed records together, it never runs out, however many
  -- syscalls the tracee makes. (An exit or a kill may leave any number of such stops.)
  pub drive_loop_ends :
      (fuel : ℕ) (stop_at : Option ℕ) (s : Session K)
      → ahead s + others s.os < fuel
      → drive_loop os sys fuel stop_at s ≢ err out_of_fuel
  unfolding drive_loop
  drive_loop_ends zero stop_at s enough h = omega (arith, enough)
  drive_loop_ends (suc fuel) stop_at s enough h =
      elim (Bool-cases (is_reached stop_at s.current_seq)) [
        | inl reached ↦ ground arith
        | inr further ↦ elim (Option-cases (os.resume s.pid s.resume_signal s.os)) [
          | inl failed ↦ ground arith
          | inr ((status, k), resumed) ↦
              let s0 = record s { os = k; resume_signal = none } in
              elim (Result-cases (on_status os sys status s0)) [
                | inr (e, failed) ↦ ground (arith, status_fueled status s0)
                | inl ((some outcome, s1), done) ↦ ground arith
                | inl ((none, s1), done) ↦
                    let less =
                      on_status-less (others s.os) status s0 s1 done
                        (few.resumes s.pid s.resume_signal s.os k status resumed) in
                    drive_loop_ends fuel stop_at s1 (omega (arith, less, enough)) (ground arith)
              ]
        ]
      ]
