-- ===== src/Replay/Tests.antt =====
-- The theorems about crates/replay/src at concrete tables, checkpoints and sessions.
use mirrorscope.Prelude.{
  subst, suc, ℕ, ◌+◌, ◌%◌, ◌^◌, ◌<◌, ◌≡◌, ◌≢◌, ◌↔◌, refl, arith, leb, ltb, ◌&&◌, ◌==◌,
  if◌then◌else◌, List, [], ◌∷◌, ◌++◌, true, false, Option, none, some, ok, err,
}
use mirrorscope.Prelude.Bytes.{Bytes}
use mirrorscope.Prelude.Bits.{bit, field}
use mirrorscope.Prelude.Ints.{pos}
use mirrorscope.Prelude.Maps.{insert, contains_key, lookup}
use mirrorscope.Trace.Format.{
  Record, Event, sched_switch, syscall_enter, syscall_exit, thread_exit, new_with_tid,
}
use mirrorscope.Capture.Payload.{
  encode_sched_switch, decode_sched_switch, encode_enter, encode_exit, decode_enter, decode_exit,
}
use mirrorscope.Capture.Syscall.{
  Sys, SyscallRegs, injection_addr, exit_event, enter_event, kernel_written_region,
}
use mirrorscope.Capture.Sched
use mathlib.Core.Option.{some-injective}
use mirrorscope.Capture.Sched.{
  Scheduler, Kernel, WaitStatus, ptrace_syscall, ptrace_event, stopped, exited, signaled,
  other_status,
}
use mirrorscope.Replay.TidMap.{TidMap, new, bind, live_of, unbind_recorded}
use mirrorscope.Replay.TidMap.Laws.{
  IsBijective, IsBijective-new, BindResult, bind_result, unbind_result,
}
use mirrorscope.Replay.CheckpointSelect.{
  nearest_at_or_before, IsNearestAt, nearest_at_or_before_lem,
}
use mirrorscope.Replay.Watchpoint.{
  write, validate, is_valid_len, fits_in_granule, x86_dr7, x86_rw_bits, x86_len_bits,
  aarch64_control,
}
use mirrorscope.Replay.Watchpoint.Encoding.{
  IsLen, hw_len, hw_access, hw_control, validate_iff, x86_dr7_fields, aarch64_control_covers,
}
use mirrorscope.Replay.State
use mirrorscope.Replay.State.{
  Session, Os, MtState, ReplayError, CheckpointInfo, ExitOutcome, schedule_diverged, other_thread,
  out_of_fuel, running,
}
use mirrorscope.Replay.Session.{skip_checkpoints, on_syscall_stop}
use mirrorscope.Replay.Session.Injection.{recorded_exit_replays, recorded_enter_replays}
use mirrorscope.Replay.Snapshots.{jump_to}
use mirrorscope.Replay.Snapshots.Jumps.{Jumped, jump_to_lem}
use mirrorscope.Replay.Mt.Handlers.{on_record}
use mirrorscope.Replay.Mt.Tids.{Paired, on_record-Paired}
use mirrorscope.Replay.Mt.Schedule.{on_record_refuses, on_exit_refused}
use mirrorscope.Replay.Drive.{drive_loop, run_to}
use mirrorscope.Replay.Drive.Checkpoints.{IsOrdered, run_to-IsOrdered}
use mirrorscope.Replay.Drive.Targets.{Reached, run_to-Reached}
use mirrorscope.Replay.Drive.Termination.{Counts, HasFewOthers, drive_loop_ends}

bind_result_example : BindResult new 41 900 (bind new 41 900)
bind_result_example = bind_result new 41 900 IsBijective-new

-- The table after that.
abbrev one_bound : TidMap
one_bound = record { to_live = (41, 900) ∷ []; to_recorded = (900, 41) ∷ [] }

one_bound-IsBijective : IsBijective one_bound
unfolding bind lookup insert
one_bound-IsBijective =
    (subst (BindResult new 41 900) bound (bind_result new 41 900 IsBijective-new)).0
  where
    bound : bind new 41 900 ≡ ok one_bound
    bound = refl

unbind_result_example :
    IsBijective (unbind_recorded one_bound 41).0
    × ((r : ℕ)
        → live_of (unbind_recorded one_bound 41).0 r
          ≡ (if 41 == r then none else live_of one_bound r))
    × ((unbind_recorded one_bound 41).1 ≡ live_of one_bound 41)
unbind_result_example = unbind_result one_bound 41 one_bound-IsBijective

nearest_at_or_before_lem_example :
    IsNearestAt (2 ∷ 6 ∷ 9 ∷ []) 7 (nearest_at_or_before (2 ∷ 6 ∷ 9 ∷ []) 7)
nearest_at_or_before_lem_example = nearest_at_or_before_lem (2 ∷ 6 ∷ 9 ∷ []) 7

validate_iff_example : (validate 4100 4 ≡ ok tt) ↔ (IsLen 4 × (4100 % 4 ≡ 0))
validate_iff_example = validate_iff 4100 4

x86_dr7_fields_example :
    (bit 851969 0 ≡ true)
    × (field 851969 1 15 ≡ 0)
    × (field 851969 16 2 ≡ hw_access write)
    × (hw_len (field 851969 18 2) ≡ 4)
    × (851969 < 2 ^ 20)
unfolding x86_dr7 x86_rw_bits x86_len_bits
x86_dr7_fields_example = x86_dr7_fields write 4 851969 refl

aarch64_control_covers_example :
    (aligned ctrl : ℕ) × (aarch64_control 4100 4 write ≡ ok (aligned, ctrl))
    × (aligned % 8 ≡ 0)
    × (field ctrl 0 5 ≡ hw_control write)
    × (bit ctrl (5 + 6) ≡ (leb 4100 (aligned + 6) && ltb (aligned + 6) (4100 + 4)))
unfolding validate is_valid_len fits_in_granule
aarch64_control_covers_example = aarch64_control_covers 4100 4 6 write refl (omega arith)

-- A kernel that holds the stops still to come, and lets every other operation pass.
abbrev scripted : Os (List WaitStatus)
scripted = record {
  resume = λ pid sig stops. elim stops [ [] ↦ none | stop ∷ rest ↦ some (stop, rest) ];
  wait_child = λ pid stops. none;
  event_child = λ pid stops. none;
  read_regs =
      λ pid stops. some (record { nr = 0; ret = pos 2; args = 3 ∷ 4096 ∷ 64 ∷ 0 ∷ 0 ∷ 0 ∷ [] });
  suppress_syscall = λ pid stops. some stops;
  set_return = λ pid ret stops. some stops;
  read_memory = λ pid addr len stops. none;
  write_memory = λ pid addr bytes stops. some stops;
  fork_snapshot = λ pid stops. some (pid + 1, stops);
  spawn_traced = λ stops. some (900, stops);
  set_options = λ pid stops. some stops;
  kill = λ pid stops. stops;
  arm = λ pid wp stops. some stops;
  disarm = λ pid stops. some stops;
  is_hit = λ pid stops. some false;
  backtrace = λ pid stops. none;
  step_over = λ pid stops. some stops;
}

abbrev x86_64 : Sys
x86_64 = record { read = 0; pread64 = 17; recvfrom = 45; getrandom = 318; clock_gettime = 228 }

abbrev read_regs : SyscallRegs
read_regs = record { nr = 0; ret = pos 2; args = 3 ∷ 4096 ∷ 64 ∷ 0 ∷ 0 ∷ 0 ∷ [] }

-- A `read` of two bytes at 4096, as the recorder sees it.
abbrev memory : ℕ → ℕ → Option Bytes
memory addr len = some (104 ∷ 105 ∷ [])

abbrev exit_of_read : Event
exit_of_read =
    new_with_tid syscall_exit 8 41
      (encode_exit (record { nr = 0; ret = pos 2; data_bytes = 104 ∷ 105 ∷ [] }))

abbrev records : List Record
records =
    record {
      seq = 0;
      event =
          new_with_tid syscall_enter 7 41 (encode_enter (record { nr = 0; args = read_regs.args }));
    }
    ∷ record { seq = 1; event = exit_of_read }
    ∷ []

abbrev at_start : Session (List WaitStatus)
at_start = record {
  os = ptrace_syscall 900 ∷ ptrace_syscall 900 ∷ exited 900 (pos 0) ∷ [];
  pid = 900;
  records = records;
  cursor = 0;
  current_seq = none;
  pending = none;
  resume_signal = none;
  last_regs = none;
  finished = none;
  checkpoint_interval = 1;
  checkpoints = [];
  watchpoint = none;
  watch_hits = [];
  last_value = none;
  multithreaded = false;
  mt = none;
}

recorded_enter_replays_example :
    on_syscall_stop scripted x86_64 at_start
    ≡ ok (record at_start {
      cursor = 1;
      current_seq = some 0;
      pending = some (record { inject_addr = some 4096 });
      last_regs = some read_regs;
    })
unfolding skip_checkpoints enter_event injection_addr
recorded_enter_replays_example =
    recorded_enter_replays scripted x86_64 7 41 0 0 3 4096 64 0 0 0 (pos 2) read_regs at_start
      at_start.os
      (
        omega arith,
        (
          omega arith,
          (omega arith, (omega arith, (omega arith, (omega arith, (omega arith, tt))))),
        ),
      )
      refl refl refl refl refl

abbrev in_read : Session (List WaitStatus)
in_read = record at_start {
  cursor = 1;
  current_seq = some 0;
  pending = some (record { inject_addr = some 4096 });
}

recorded_exit_replays_example :
    on_syscall_stop scripted x86_64 in_read
    ≡ ok (record in_read {
      cursor = 2;
      current_seq = some 1;
      pending = none;
      last_regs = some read_regs;
    })
unfolding skip_checkpoints exit_event injection_addr kernel_written_region
recorded_exit_replays_example =
    recorded_exit_replays scripted x86_64 8 41 1 memory read_regs read_regs (pos 2) (104 ∷ 105 ∷ [])
      exit_of_read in_read in_read.os in_read.os 4096 (omega arith) (omega arith) (omega arith) refl
      refl refl refl refl refl refl refl

-- The stops to come that are not at syscalls.
abbrev other_stops : List WaitStatus → ℕ
other_stops [] = 0
other_stops (ptrace_syscall pid ∷ stops) = other_stops stops
other_stops (exited pid code ∷ stops) = other_stops stops
other_stops (signaled pid sig ∷ stops) = other_stops stops
other_stops (stopped pid sig ∷ stops) = suc (other_stops stops)
other_stops (ptrace_event pid e ∷ stops) = suc (other_stops stops)
other_stops (other_status ∷ stops) = suc (other_stops stops)

next_stop-Counts :
    (stop : WaitStatus) (rest : List WaitStatus)
    → Counts (other_stops (stop ∷ rest)) (other_stops rest) stop
next_stop-Counts (ptrace_syscall pid) rest = omega arith
next_stop-Counts (exited pid code) rest = tt
next_stop-Counts (signaled pid sig) rest = tt
next_stop-Counts (stopped pid sig) rest = omega arith
next_stop-Counts (ptrace_event pid e) rest = omega arith
next_stop-Counts other_status rest = omega arith

scripted-resumes :
    (pid : ℕ) (sig : Option ℕ) (k k' : List WaitStatus) (status : WaitStatus)
    → scripted.resume pid sig k ≡ some (status, k')
    → Counts (other_stops k) (other_stops k') status
scripted-resumes pid sig [] k' status h = absurd (ground arith)
scripted-resumes pid sig (stop ∷ rest) k' status h =
    subst
      (λ (x : WaitStatus × List WaitStatus).
        Counts (other_stops (stop ∷ rest)) (other_stops x.1) x.0)
      (some-injective _ _ h) (next_stop-Counts stop rest)

scripted-HasFewOthers : HasFewOthers scripted other_stops
scripted-HasFewOthers = record {
  resumes = scripted-resumes;
  suppresses = λ pid k k' h. ground arith;
  returns = λ pid ret k k' h. ground arith;
  writes = λ pid addr bytes k k' h. ground arith;
  forks = λ pid copy k k' h. ground arith;
  steps = λ pid k k' h. ground arith;
}

drive_loop_ends_example : drive_loop scripted x86_64 4 none at_start ≢ err out_of_fuel
drive_loop_ends_example =
    drive_loop_ends scripted x86_64 other_stops scripted-HasFewOthers 4 none at_start (omega arith)

-- The session after the `read`, with the checkpoint of that place.
abbrev after_read : Session (List WaitStatus)
after_read = record at_start {
  os = exited 900 (pos 0) ∷ [];
  cursor = 2;
  current_seq = some 1;
  last_regs = some read_regs;
  checkpoints =
      record {
        seq = 1;
        cursor = 2;
        current_seq = some 1;
        last_regs = some read_regs;
        snapshot = 901;
      }
      ∷ [];
}

run_to_read : run_to scripted x86_64 4 1 at_start ≡ ok (running, after_read)
unfolding run_to jump_to decode_enter encode_enter injection_addr decode_exit encode_exit
run_to_read = refl

run_to-Reached_example : Reached 1 (some 1)
run_to-Reached_example =
    run_to-Reached scripted x86_64 4 1 at_start after_read tt (λ e. ground arith) run_to_read

run_to-IsOrdered_example : IsOrdered after_read.checkpoints
run_to-IsOrdered_example =
    run_to-IsOrdered scripted x86_64 4 1 at_start after_read running
      (record { stamped = tt; ascending = tt }) run_to_read

-- Backward from the end to the checkpoint.
abbrev at_end : Session (List WaitStatus)
at_end = record after_read {
  os = [];
  current_seq = some 5;
  cursor = 6;
  finished = some (State.exited (pos 0));
}

abbrev back : Session (List WaitStatus)
back = record after_read { os = []; pid = 902 }

jump_to_lem_example : Jumped scripted 3 at_end back
unfolding jump_to
jump_to_lem_example = jump_to_lem scripted 3 at_end back (refl, tt) refl

abbrev mt_state : MtState
mt_state = record {
  leader = 900;
  threads = [];
  tidmap = new;
  vfork_suspended = [];
  expected_tid = some 41;
}

abbrev of_42 : Record
of_42 = record { seq = 3; event = new_with_tid thread_exit 9 42 [] }

on_record_refuses_example :
    on_record scripted x86_64 4 of_42 mt_state at_start
    ≡ err (schedule_diverged 3 (other_thread 41 42))
on_record_refuses_example =
    on_record_refuses scripted x86_64 4 of_42 mt_state at_start 41 42 refl refl refl
      (λ e. omega (arith, e))

-- A recorder of two threads in which thread 41 calls `exit_group`.
abbrev two_threads : Scheduler
two_threads = record (Sched.new 41) {
  threads = insert 42 Sched.new_thread (Sched.new 41).threads;
  ready = 42 ∷ [];
  running = some 41;
  threads_followed = 2;
}

abbrev kernel : Kernel
kernel = record { now = 5; regs = read_regs; event_child = 0; memory = memory }

on_exit_refused_example :
    (event : Event) × ((Sched.on_exit kernel 42 (some (pos 0)) two_threads).trace
      ≡ two_threads.trace ++ event ∷ [])
    × (on_record scripted x86_64 4 (record { seq = 6; event = event }) mt_state at_start
        ≡ err (schedule_diverged 6 (other_thread 41 42)))
unfolding contains_key insert Sched.new
on_exit_refused_example =
    on_exit_refused scripted x86_64 4 kernel 42 41 (some (pos 0)) two_threads 6 mt_state at_start
      refl (omega arith) refl (λ e. omega (arith, e)) refl

abbrev at_mt : Session (List WaitStatus)
at_mt = record at_start { mt = some mt_state }

abbrev to_42 : Record
to_42 = record {
  seq = 3;
  event = new_with_tid sched_switch 9 42 (encode_sched_switch (record { tid = 42 }));
}

-- With one thread bound.
abbrev bound_state : MtState
bound_state = record mt_state { tidmap = one_bound }

abbrev at_bound : Session (List WaitStatus)
at_bound = record at_mt { mt = some bound_state }

on_record-Paired_example : Paired (record at_bound {
  cursor = 1;
  current_seq = some 3;
  mt = some (record bound_state { expected_tid = some 42 });
})
unfolding on_record encode_sched_switch decode_sched_switch
on_record-Paired_example =
    on_record-Paired scripted x86_64 4 to_42 bound_state at_bound
      (record at_bound {
        cursor = 1;
        current_seq = some 3;
        mt = some (record bound_state { expected_tid = some 42 });
      })
      none refl one_bound-IsBijective refl
