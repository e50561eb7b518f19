-- ===== src/Dap/Tests.antt =====
-- The theorems about the navigation at a concrete recording.
use mirrorscope.Prelude.{◌+◌, ◌≡◌, ◌≢◌, refl, arith, false, none, some, [], ◌∷◌, ok, err}
use mirrorscope.Capture.Syscall.{Sys}
use mirrorscope.Replay.State.{Session, Os}
use mirrorscope.Replay.Drive.Targets.{Reached}
use mirrorscope.Replay.Drive
use mirrorscope.Replay.Snapshots.{jump_to}
use mirrorscope.Dap.Backend.{
  Backend, StopInfo, step, step_back, out_of_bounds, resume, goto, tracee_pid,
}
use mirrorscope.Dap.Backend.Navigation.{Lands, resume-Lands, goto_stops}

-- A kernel without a value, on which every operation passes.
abbrev idle : Os (Unit {0})
idle = record {
  resume = λ pid sig k. none;
  wait_child = λ pid k. none;
  event_child = λ pid k. none;
  read_regs = λ pid k. none;
  suppress_syscall = λ pid k. some k;
  set_return = λ pid ret k. some k;
  read_memory = λ pid addr len k. none;
  write_memory = λ pid addr bytes k. some k;
  fork_snapshot = λ pid k. some (pid + 1, k);
  spawn_traced = λ k. some (900, k);
  set_options = λ pid k. some k;
  kill = λ pid k. k;
  arm = λ pid wp k. some k;
  disarm = λ pid k. some k;
  is_hit = λ pid k. some false;
  backtrace = λ pid k. none;
  step_over = λ pid k. some k;
}

abbrev x86_64 : Sys
x86_64 = record { read = 0; pread64 = 17; recvfrom = 45; getrandom = 318; clock_gettime = 228 }

-- Stopped at the second of two events, with a checkpoint there.
abbrev session : Session (Unit {0})
session = record {
  os = tt;
  pid = 900;
  records = [];
  cursor = 4;
  current_seq = some 3;
  pending = none;
  resume_signal = none;
  last_regs = none;
  finished = none;
  checkpoint_interval = 1;
  checkpoints =
      record { seq = 3; cursor = 4; current_seq = some 3; last_regs = none; snapshot = 800 } ∷ [];
  watchpoint = none;
  watch_hits = [];
  last_value = none;
  multithreaded = false;
  mt = none;
}

abbrev backend : Backend (Unit {0})
backend = record {
  session = session;
  events = 1 ∷ 3 ∷ [];
  cursor = 0;
  exited = none;
  multithreaded = false;
}

resume-Lands_example :
    (resume idle x86_64 4 step_back backend ≢ err out_of_bounds)
    × ((stop : StopInfo) (b' : Backend (Unit {0}))
        → resume idle x86_64 4 step_back backend ≡ ok (stop, b')
        → Lands backend b')
resume-Lands_example = resume-Lands idle x86_64 4 step_back backend (omega arith)

goto_stops_example :
    ((record backend { cursor = 1 }).cursor ≡ 1)
    × (step ≡ step)
    × (tracee_pid (record backend { cursor = 1 }) ≡ ok session.pid)
    × Reached 3 (some 3)
unfolding goto Drive.run_to jump_to
goto_stops_example =
    goto_stops idle x86_64 4 step step 1 3 backend (record backend { cursor = 1 }) (refl, tt)
      (λ e. ground arith) refl refl
