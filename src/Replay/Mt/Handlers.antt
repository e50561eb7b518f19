-- ===== src/Replay/Mt/Handlers.antt =====
-- The handlers of crates/replay/src/mt.rs, one for each kind of record, and its `drive`. The
-- argument `mt` is the `MtState` of the session; the loops over stops take fuel.
use mirrorscope.Prelude.{
  ℕ, zero, suc, ◌+◌, ◌==◌, if◌then◌else◌, true, false, Option, none, some, [], get_elem?, Result,
  ok, err, ◌>>=◌, ◌>>◌, guard, ok_or,
}
use mirrorscope.Prelude.Ints.{pos, eq_ℤ}
use mirrorscope.Prelude.Maps.{insert}
use mirrorscope.Trace.Format.{
  Record, checkpoint, sched_switch, syscall_enter, syscall_exit, thread_spawn, thread_exit, signal,
}
use mirrorscope.Capture.Payload.{
  decode_enter, SyscallExit, decode_exit, decode_signal, decode_sched_switch, decode_thread_spawn,
}
use mirrorscope.Capture.Syscall.{Sys}
use mirrorscope.Capture.Sched.{
  WaitStatus, ptrace_syscall, ptrace_event, stopped, exited, signaled, vfork, is_spawn_event,
}
use mirrorscope.Replay.State.{
  Session, Os, MtState, PendingSys, ThreadRt, default_rt, Detail, missing_tid, other_thread,
  unbound_tid, no_entry, other_stop, other_signal, tid_conflict, child_stop, ReplayError, ptrace,
  diverged, schedule_diverged, unexpected_record, trace_exhausted, out_of_fuel, ExitOutcome,
  running, payload_or,
}
use mirrorscope.Replay.Session.{is_reached}
use mirrorscope.Replay.Snapshots.{is_watch_hit, on_watch_hit}
use mirrorscope.Replay.State
use mirrorscope.Replay.Mt.{
  classify, new_state, directed, take_resume_signal, set_pending, take_pending, remove_thread,
  bind_child, update_rt, advance, is_exec, is_trap,
}

abbrev exit_of : ℕ → ℕ → WaitStatus → Result ReplayError ExitOutcome
exit_of seq tid (exited pid code) = ok (State.exited code)
exit_of seq tid (signaled pid sig) = ok (State.signaled sig)
exit_of seq tid status = err (schedule_diverged seq (other_stop tid status))

abbrev stop_of : ℕ → ℕ → WaitStatus → Result ReplayError ℕ
stop_of seq tid (stopped pid sig) = ok sig
stop_of seq tid status = err (schedule_diverged seq (other_stop tid status))

module _ {K : Type 0} where
  unfoldable pub ensure_state : Session K → MtState × Session K
  unfolding new_state
  ensure_state s =
      let fresh = new_state s.pid in
      let mt = record fresh { threads = insert s.pid default_rt [] } in
      elim s.mt [ some mt ↦ (mt, s) | none ↦ (mt, record s { mt = some mt }) ]

module _ {K : Type 0} (os : Os K) (sys : Sys) where
  -- Resumes the thread up to a stop that the schedule is about: an exec and a hit of the
  -- watchpoint are passed over, with the signal given to the first resume only.
  unfoldable pub step_thread :
      ℕ → ℕ → Option ℕ → Session K → Result ReplayError (WaitStatus × Session K)
  unfolding is_watch_hit on_watch_hit
  step_thread zero live sig s = err out_of_fuel
  step_thread (suc fuel) live sig s = do
    (status, k) ← ok_or (os.resume live sig s.os) ptrace
    let s1 = record s { os = k } in
        if is_exec status then step_thread fuel live none s1 else (do
          hit ← (if is_trap status then is_watch_hit os live s1 else ok false)
          elim hit [
            | true ↦ on_watch_hit os live s1 >>= step_thread fuel live none
            | false ↦ ok (status, s1)
          ])

  unfoldable pub on_sched_switch : Record → MtState → Session K → Result ReplayError (Session K)
  unfolding advance
  on_sched_switch r mt s = do
    switch ← payload_or (decode_sched_switch r.event.payload)
    ok (advance r.seq (record s { mt = some (record mt { expected_tid = some switch.tid }) }))

  unfoldable pub on_syscall_enter :
      ℕ → Record → MtState → Session K → Result ReplayError (Session K)
  unfolding directed take_resume_signal step_thread classify set_pending advance
  on_syscall_enter fuel r mt s = do
    (tid, live, mt) ← directed r mt
    let (sig, mt) = take_resume_signal live mt in
        (do
          (status, s) ← step_thread fuel live sig s
          guard (elim status [ ptrace_syscall pid ↦ true | _ ↦ false ])
              (schedule_diverged r.seq (other_stop tid status))
          regs ← ok_or (os.read_regs live s.os) ptrace
          enter ← payload_or (decode_enter r.event.payload)
          guard (enter.nr == regs.nr) (diverged r.seq enter.nr regs.nr)
          let (suppress, addr) = classify sys regs.nr regs.args in
              (do
                k ← ok_or (if suppress then os.suppress_syscall live s.os else some s.os) ptrace
                let pending : PendingSys = record { suppressed = suppress; inject_addr = addr } in
                    ok (
                      advance r.seq (record s {
                        os = k;
                        last_regs = some regs;
                        mt = some (set_pending live (some pending) mt);
                      }))))

  unfoldable pub inject : ℕ → PendingSys → SyscallExit → K → Option K
  inject live pending exit k =
      let written : Option K = elim pending.inject_addr [
        | none ↦ some k
        | some addr ↦ os.write_memory live addr exit.data_bytes k
      ] in
      if pending.suppressed
      then elim written [ none ↦ none | some k ↦ os.set_return live exit.ret k ]
      else some k

  unfoldable pub on_syscall_exit : ℕ → Record → MtState → Session K → Result ReplayError (Session K)
  unfolding directed step_thread take_pending inject advance
  on_syscall_exit fuel r mt s = do
    (tid, live, mt) ← directed r mt
    (status, s) ← step_thread fuel live none s
    guard (elim status [ ptrace_syscall pid ↦ true | _ ↦ false ])
        (schedule_diverged r.seq (other_stop tid status))
    regs ← ok_or (os.read_regs live s.os) ptrace
    exit ← payload_or (decode_exit r.event.payload)
    let (found, mt) = take_pending live mt in
        (do
          pending ← ok_or found (schedule_diverged r.seq (no_entry tid))
          k ← ok_or (inject live pending exit s.os) ptrace
          ok (advance r.seq (record s { os = k; last_regs = some regs; mt = some mt })))

  -- The child's first stop is reaped, and its options are set in `wait_child`.
  unfoldable pub register_child : ℕ → ℕ → K → Result ReplayError K
  register_child child seq k = do
    (status, k) ← ok_or (os.wait_child child k) ptrace
    guard (elim status [ stopped pid sig ↦ true | ptrace_event pid e ↦ true | _ ↦ false ])
        (schedule_diverged seq (child_stop child status))
    ok k

  unfoldable pub on_thread_spawn : ℕ → Record → MtState → Session K → Result ReplayError (Session K)
  unfolding directed take_resume_signal step_thread register_child bind_child advance is_spawn_event
  on_thread_spawn fuel r mt s = do
    (tid, parent, mt) ← directed r mt
    spawn ← payload_or (decode_thread_spawn r.event.payload)
    let (sig, mt) = take_resume_signal parent mt in
        (do
          (status, s) ← step_thread fuel parent sig s
          guard (elim status [ ptrace_event pid e ↦ is_spawn_event e | _ ↦ false ])
              (schedule_diverged r.seq (other_stop tid status))
          child ← ok_or (os.event_child parent s.os) ptrace
          k ← register_child child r.seq s.os
          mt ←
              bind_child r.seq spawn.child_tid child parent
                (elim status [ ptrace_event pid vfork ↦ true | _ ↦ false ]) mt
          k ← elim s.watchpoint [ none ↦ ok k | some wp ↦ ok_or (os.arm child wp k) ptrace ]
          ok (advance r.seq (record s { os = k; mt = some mt })))

  -- The outcome is there when the leader exits.
  unfoldable pub on_thread_exit :
      ℕ → Record → MtState → Session K → Result ReplayError (Option ExitOutcome × Session K)
  unfolding directed take_resume_signal step_thread remove_thread advance
  on_thread_exit fuel r mt s = do
    (tid, live, mt) ← directed r mt
    let (sig, mt) = take_resume_signal live mt in
        (do
          (status, s) ← step_thread fuel live sig s
          outcome ← exit_of r.seq tid status
          let s1 = advance r.seq (record s { mt = some (remove_thread tid live mt) }) in
              (if live == mt.leader
                then ok (some outcome, record s1 { finished = some outcome })
                else ok (none, s1)))

  unfoldable pub on_signal : ℕ → Record → MtState → Session K → Result ReplayError (Session K)
  unfolding directed take_resume_signal step_thread update_rt advance
  on_signal fuel r mt s = do
    (tid, live, mt) ← directed r mt
    let (sig, mt) = take_resume_signal live mt in
        (do
          (status, s) ← step_thread fuel live sig s
          delivered ← stop_of r.seq tid status
          recorded ← payload_or (decode_signal r.event.payload)
          guard (eq_ℤ recorded.signum (pos delivered))
              (schedule_diverged r.seq (other_signal recorded.signum delivered))
          let mt1 = update_rt live (λ t. record t { resume_signal = some delivered }) mt in
              ok (advance r.seq (record s { mt = some mt1 })))

  -- One record, by its kind.
  unfoldable pub on_record :
      ℕ → Record → MtState → Session K → Result ReplayError (Option ExitOutcome × Session K)
  unfolding on_sched_switch on_syscall_enter on_syscall_exit on_thread_spawn on_thread_exit
      on_signal
  on_record fuel r mt s =
      let go_on : Result ReplayError (Session K)
          → Result ReplayError (Option ExitOutcome × Session K) =
        λ result. result >>= λ s. ok (none, s) in
      elim r.event.kind [
        | checkpoint ↦ ok (none, record s { cursor = s.cursor + 1 })
        | sched_switch ↦ go_on (on_sched_switch r mt s)
        | syscall_enter ↦ go_on (on_syscall_enter fuel r mt s)
        | syscall_exit ↦ go_on (on_syscall_exit fuel r mt s)
        | thread_spawn ↦ go_on (on_thread_spawn fuel r mt s)
        | thread_exit ↦ on_thread_exit fuel r mt s
        | signal ↦ go_on (on_signal fuel r mt s)
        | other ↦ err (unexpected_record r.seq other)
      ]

  unfoldable pub drive_loop :
      ℕ → Option ℕ → Session K → Result ReplayError (ExitOutcome × Session K)
  unfolding on_record ensure_state
  drive_loop zero stop_at s = err out_of_fuel
  drive_loop (suc fuel) stop_at s =
      if is_reached stop_at s.current_seq
      then ok (running, s)
      else elim (get_elem? s.records s.cursor) [
        | none ↦ err trace_exhausted
        | some r ↦
            let (mt, s1) = ensure_state s in
            (do
              (ended, s2) ← on_record fuel r mt s1
              elim ended [ some outcome ↦ ok (outcome, s2) | none ↦ drive_loop fuel stop_at s2 ])
      ]

  unfoldable pub drive : ℕ → Option ℕ → Session K → Result ReplayError (ExitOutcome × Session K)
  unfolding drive_loop ensure_state
  drive fuel stop_at s = elim s.mt [
    | some mt ↦ drive_loop fuel stop_at s
    | none ↦ (do
      k ← ok_or (os.set_options s.pid s.os) ptrace
      drive_loop fuel stop_at (ensure_state (record s { os = k })).1)
  ]
