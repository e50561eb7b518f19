-- ===== src/Replay/Mt.antt =====
-- crates/replay/src/mt.rs: replay of several threads in the recorded schedule. Each handler takes
-- the session with its `MtState`, which `ensure_state` has put there.
pub mod Handlers
pub mod Frame
pub mod Schedule
pub mod Tids
use mirrorscope.Prelude.{
  ℕ, ◌+◌, ◌==◌, ◌&&◌, not, if◌then◌else◌, Bool, true, false, Option, none, some, List, [], ◌∷◌,
  get_elem?, Result, ok, err, ◌>>=◌, ◌>>◌, guard, ok_or,
}
use mirrorscope.Prelude.Ints.{ℤ, pos, eq_ℤ}
use mirrorscope.Prelude.Maps.{Map, keys, lookup, insert, remove}
use mirrorscope.Trace.Format.{
  EventKind, Record, checkpoint, sched_switch, syscall_enter, syscall_exit, thread_spawn,
  thread_exit, signal,
}
use mirrorscope.Capture.Payload.{
  decode_enter, decode_exit, decode_signal, decode_sched_switch, decode_thread_spawn,
}
use mirrorscope.Capture.Syscall.{Sys, injection_addr}
use mirrorscope.Capture.Sched.{
  WaitStatus, ptrace_syscall, ptrace_event, stopped, exited, signaled, PtraceEvent, vfork, exec,
  is_spawn_event,
}
use mirrorscope.Replay.TidMap.{TidMap, TidMapError, new, bind, live_of, unbind_recorded, is_empty}
use mirrorscope.Replay.State.{
  Session, Os, MtState, PendingSys, ThreadRt, default_rt, Detail, missing_tid, other_thread,
  unbound_tid, no_entry, other_stop, other_signal, tid_conflict, child_stop, ReplayError, ptrace,
  diverged, schedule_diverged, unexpected_record, trace_exhausted, out_of_fuel, ExitOutcome,
  running, payload_or,
}
use mirrorscope.Replay.Session.{is_some}
use mirrorscope.Replay.Snapshots.{is_watch_hit, on_watch_hit}

-- Whether the syscall is cancelled, and where its recorded bytes go.
unfoldable pub classify : Sys → ℕ → List ℕ → Bool × Option ℕ
classify sys nr args = elim (injection_addr sys nr args) [
  | none ↦ (false, none)
  | some addr ↦ (true, some addr)
]

unfoldable pub new_state : ℕ → MtState
new_state leader = record {
  leader = leader;
  threads = [];
  tidmap = new;
  vfork_suspended = [];
  expected_tid = none;
}

-- `map_err` on the conflicts of the table.
abbrev pub bind_or : ℕ → Result TidMapError TidMap → Result ReplayError TidMap
bind_or seq (ok m) = ok m
bind_or seq (err e) = err (schedule_diverged seq (tid_conflict e))

-- The tid of a record is the one that the schedule expects.
unfoldable pub enforce_tid : Record → MtState → Result ReplayError (ℕ × MtState)
enforce_tid r mt = do
  tid ← ok_or r.event.tid (schedule_diverged r.seq missing_tid)
  elim mt.expected_tid [
    | none ↦ ok (tid, record mt { expected_tid = some tid })
    | some expected ↦
        if expected == tid
        then ok (tid, mt)
        else err (schedule_diverged r.seq (other_thread expected tid))
  ]

-- The live pid of a recorded tid; the first tid of all is the leader's.
unfoldable pub live_for : ℕ → ℕ → MtState → Result ReplayError (ℕ × MtState)
unfolding live_of is_empty bind
live_for tid seq mt = elim (live_of mt.tidmap tid) [
  | some live ↦ ok (live, mt)
  | none ↦
      if is_empty mt.tidmap
      then (do
        tidmap ← bind_or seq (bind mt.tidmap tid mt.leader)
        ok (mt.leader, record mt { tidmap = tidmap }))
      else err (schedule_diverged seq (unbound_tid tid))
]

-- `if let Some(t) = threads.get_mut(&live) { … }`
unfoldable pub update_rt : ℕ → (ThreadRt → ThreadRt) → MtState → MtState
update_rt live f mt = elim (lookup live mt.threads) [
  | none ↦ mt
  | some t ↦ record mt { threads = insert live (f t) mt.threads }
]

unfoldable pub take_resume_signal : ℕ → MtState → Option ℕ × MtState
unfolding update_rt
take_resume_signal live mt = (
  elim (lookup live mt.threads) [ none ↦ none | some t ↦ t.resume_signal ],
  update_rt live (λ t. record t { resume_signal = none }) mt,
)

unfoldable pub set_pending : ℕ → Option PendingSys → MtState → MtState
unfolding update_rt
set_pending live pending mt = update_rt live (λ t. record t { pending = pending }) mt

unfoldable pub take_pending : ℕ → MtState → Option PendingSys × MtState
unfolding update_rt
take_pending live mt = (
  elim (lookup live mt.threads) [ none ↦ none | some t ↦ t.pending ],
  update_rt live (λ t. record t { pending = none }) mt,
)

unfoldable pub remove_thread : ℕ → ℕ → MtState → MtState
unfolding unbind_recorded
remove_thread tid live mt = record mt {
  threads = remove live mt.threads;
  tidmap = (unbind_recorded mt.tidmap tid).0;
  vfork_suspended = remove live mt.vfork_suspended;
}

unfoldable pub bind_child : ℕ → ℕ → ℕ → ℕ → Bool → MtState → Result ReplayError MtState
unfolding bind
bind_child seq child_tid child parent vforked mt = do
  tidmap ← bind_or seq (bind mt.tidmap child_tid child)
  ok (record mt {
    tidmap = tidmap;
    threads = insert child default_rt mt.threads;
    vfork_suspended =
        if vforked then insert child parent mt.vfork_suspended else mt.vfork_suspended;
  })

abbrev pub sigtrap : ℕ
sigtrap = 5

abbrev pub is_exec : WaitStatus → Bool
is_exec (ptrace_event pid exec) = true
is_exec _ = false

abbrev pub is_trap : WaitStatus → Bool
is_trap (stopped pid sig) = sig == sigtrap
is_trap _ = false

-- `enforce_tid` and `live_for`, with the table that they leave.
unfoldable pub directed : Record → MtState → Result ReplayError (ℕ × ℕ × MtState)
unfolding enforce_tid live_for
directed r mt = do
  (tid, mt) ← enforce_tid r mt
  (live, mt) ← live_for tid r.seq mt
  ok (tid, live, mt)

unfoldable pub advance : {K : Type 0} → ℕ → Session K → Session K
advance seq s = record s { current_seq = some seq; cursor = s.cursor + 1 }
