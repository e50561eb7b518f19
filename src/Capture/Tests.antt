-- ===== src/Capture/Tests.antt =====
-- The theorems about crates/recorder/src/capture at concrete syscalls and statuses.
use mirrorscope.Prelude.{
  ℕ, ◌^◌, ◌≡◌, refl, arith, ltb, if◌then◌else◌, length, List, [], ◌∷◌, true, none, some, ok, err,
}
use mirrorscope.Prelude.Ints.{ℤ, pos, negsuc}
use mirrorscope.Trace.Format.{syscall_enter, thread_spawn, new_with_tid}
use mirrorscope.Capture.Payload.{
  SyscallExit, length_mismatch, decode_enter, encode_enter, decode_exit, encode_exit,
  decode_sched_switch, encode_sched_switch, decode_thread_spawn, encode_thread_spawn,
  decode_thread_exit, encode_thread_exit, decode_signal, encode_signal,
}
use mirrorscope.Capture.Payload.Codec.{
  decode-encode_sched, decode_enter-encode_enter, decode_exit-encode_exit,
}
use mirrorscope.Capture.Syscall.{
  Sys, enter_event, kernel_written_region, injection_addr, injection_addr_mirrors,
}
use mirrorscope.Capture.Sched.{
  Scheduler, Kernel, Wait, got, ptrace_syscall, ptrace_event, exited, vfork, new, run, handle,
  resume_next, is_spawn_event,
}
use mirrorscope.Prelude.Maps.{insert, lookup, contains_key, remove}
use mirrorscope.Capture.Sched.Attribution.{IsCurrent, Attributed, handle-Attributed}
use mirrorscope.Capture.Sched.Invariant.{IsSound}
use mirrorscope.Capture.Sched.Rounds.{Obeys, run-IsSound}

-- The numbers of x86-64.
abbrev x86_64 : Sys
x86_64 = record { read = 0; pread64 = 17; recvfrom = 45; getrandom = 318; clock_gettime = 228 }

injection_addr_mirrors_example :
    ((ret : ℤ) (addr len : ℕ)
      → kernel_written_region x86_64 0 (3 ∷ 4096 ∷ 64 ∷ []) ret ≡ some (addr, len)
      → injection_addr x86_64 0 (3 ∷ 4096 ∷ 64 ∷ []) ≡ some addr)
    × ((addr : ℕ)
        → injection_addr x86_64 0 (3 ∷ 4096 ∷ 64 ∷ []) ≡ some addr
        → (ret : ℤ) × (len : ℕ) × (kernel_written_region x86_64 0 (3 ∷ 4096 ∷ 64 ∷ []) ret
            ≡ some (addr, len)))
injection_addr_mirrors_example = injection_addr_mirrors x86_64 0 (3 ∷ 4096 ∷ 64 ∷ [])

decode-encode_sched_example :
    (decode_sched_switch (encode_sched_switch (record { tid = 41 })) ≡ ok (record { tid = 41 }))
    × (decode_thread_spawn (encode_thread_spawn (record { parent_tid = 41; child_tid = 42 }))
        ≡ ok (record { parent_tid = 41; child_tid = 42 }))
    × (decode_thread_exit (encode_thread_exit (record { tid = 42 })) ≡ ok (record { tid = 42 }))
    × (decode_signal (encode_signal (record { signum = negsuc 4 }))
        ≡ ok (record { signum = negsuc 4 }))
decode-encode_sched_example =
    decode-encode_sched (record { tid = 41 }) (record { parent_tid = 41; child_tid = 42 })
      (record { tid = 42 }) (record { signum = negsuc 4 }) (omega arith) (omega arith) (omega arith)
      (omega arith) (omega arith)

decode_enter-encode_enter_example :
    decode_enter (encode_enter (record { nr = 0; args = 3 ∷ 4096 ∷ 64 ∷ 0 ∷ 0 ∷ 0 ∷ [] }))
    ≡ ok (record { nr = 0; args = 3 ∷ 4096 ∷ 64 ∷ 0 ∷ 0 ∷ 0 ∷ [] })
decode_enter-encode_enter_example = decode_enter-encode_enter 0 3 4096 64 0 0 0 (
  omega arith,
  (omega arith, (omega arith, (omega arith, (omega arith, (omega arith, (omega arith, tt)))))),
)

abbrev read_exit : SyscallExit
read_exit = record { nr = 0; ret = pos 2; data_bytes = 104 ∷ 105 ∷ [] }

decode_exit-encode_exit_example :
    decode_exit (encode_exit read_exit)
    ≡ (if ltb (length read_exit.data_bytes) (2 ^ 32) then ok read_exit else err length_mismatch)
decode_exit-encode_exit_example = decode_exit-encode_exit read_exit (omega arith) (omega arith)

abbrev kernel : ℕ → Kernel
kernel child = record {
  now = 5;
  regs = record { nr = 1; ret = pos 0; args = 1 ∷ 0 ∷ 0 ∷ 0 ∷ 0 ∷ 0 ∷ [] };
  event_child = child;
  memory = λ addr len. none;
}

-- A leader that calls vfork; its child exits, which wakes the leader, and the leader exits.
abbrev waits : List Wait
waits =
    record { kernel = kernel 8; answer = got; status = ptrace_event 7 vfork }
    ∷ record { kernel = kernel 0; answer = got; status = exited 8 (pos 0) }
    ∷ record { kernel = kernel 0; answer = got; status = exited 7 (pos 0) }
    ∷ []

-- Only the leader's own spawn event is in the recording.
abbrev at_end : Scheduler
at_end = record {
  trace =
      new_with_tid thread_spawn 5 7 (encode_thread_spawn (record { parent_tid = 7; child_tid = 8 }))
      ∷ [];
  threads = [];
  ready = [];
  running = none;
  last_scheduled = some 7;
  leader = 7;
  leader_exit = some (pos 0);
  events_recorded = 1;
  threads_followed = 1;
  vfork_pending = [];
}

run-IsSound_example : IsSound at_end
unfolding run handle new resume_next insert is_spawn_event lookup contains_key remove
run-IsSound_example = run-IsSound x86_64 7 waits at_end true obeys refl
  where
    obeys : Obeys x86_64 waits (new 7)
    obeys = (
      refl,
      (tt, (tt, tt, λ s h. tt), λ s h. (tt, tt, λ s h. tt)),
      λ s h. (tt, (tt, tt, λ s h. tt), λ s h. (tt, tt, λ s h. tt)),
    )

-- Thread 7 runs, and enters `write`.
abbrev at_write : Scheduler
at_write = record (new 7) { ready = []; running = some 7 }

abbrev after_write : Scheduler
after_write = record at_write {
  trace =
      new_with_tid syscall_enter 5 7
        (encode_enter (record { nr = 1; args = 1 ∷ 0 ∷ 0 ∷ 0 ∷ 0 ∷ 0 ∷ [] }))
      ∷ [];
  threads = (7, record { pending_enter = some (kernel 0).regs; resume_signal = none }) ∷ [];
  ready = 7 ∷ [];
  running = none;
  events_recorded = 1;
}

handle-Attributed_example :
    IsCurrent (resume_next (kernel 0) at_write) × Attributed at_write after_write
unfolding new handle enter_event insert lookup contains_key
handle-Attributed_example =
    handle-Attributed x86_64 (kernel 0) (ptrace_syscall 7) at_write after_write
      (λ p h. ground arith) refl refl
