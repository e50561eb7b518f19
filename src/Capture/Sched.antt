-- ===== src/Capture/Sched.antt =====
-- crates/recorder/src/capture/sched.rs: the single-core scheduler that records the interleaving.
-- The calls of `writer.append` are the list `trace`; what the kernel answers is a `Kernel`.
pub mod Queue
pub mod Invariant
pub mod Steps
pub mod Handle
pub mod Rounds
pub mod Attribution
use mirrorscope.Prelude.{
  ℕ, zero, suc, ◌+◌, ◌==◌, ltb, not, ◌&&◌, if◌then◌else◌, Option, none, some, List, [], ◌∷◌, ◌++◌,
  Bool, true, false, Result, ok, err, ◌>>=◌,
}
use mirrorscope.Prelude.Bytes.{Bytes}
use mirrorscope.Prelude.Ints.{ℤ, pos}
use mirrorscope.Prelude.Maps.{Map, lookup, contains_key, insert, remove}
use mirrorscope.Trace.Format.{Event, sched_switch, signal, thread_spawn, thread_exit, new_with_tid}
use mirrorscope.Capture.Payload.{
  encode_sched_switch, encode_signal, encode_thread_spawn, encode_thread_exit,
}
use mirrorscope.Capture.Syscall.{Sys, SyscallRegs, CaptureError, enter_event, exit_event}

pub record Thread : Type 0 where
  pub pending_enter : Option SyscallRegs
  pub resume_signal : Option ℕ

abbrev pub new_thread : Thread
new_thread = record { pending_enter = none; resume_signal = none }

-- Pids are positive, so that `pid.as_raw() as u32` is the pid. `started` and `timer` are not kept.
pub record Scheduler : Type 0 where
  pub trace : List Event
  pub threads : Map Thread
  pub ready : List ℕ
  pub running : Option ℕ
  pub last_scheduled : Option ℕ
  pub leader : ℕ
  pub leader_exit : Option ℤ
  pub events_recorded : ℕ
  pub threads_followed : ℕ
  pub vfork_pending : Map ℕ

-- What a step reads from the kernel: the clock, the registers of the stopped thread, the child's
-- pid of a spawn event, and the thread's memory.
pub record Kernel : Type 0 where
  pub now : ℕ
  pub regs : SyscallRegs
  pub event_child : ℕ
  pub memory : ℕ → ℕ → Option Bytes

-- The ptrace events that the code tells apart: `is_spawn_event` holds of the first three.
pub data PtraceEvent : Type 0 where
  clone fork vfork exec other_event : PtraceEvent

pub data WaitStatus : Type 0 where
  ptrace_syscall : (pid : ℕ) → WaitStatus
  ptrace_event : (pid : ℕ) → PtraceEvent → WaitStatus
  stopped : (pid sig : ℕ) → WaitStatus
  exited : (pid : ℕ) → (code : ℤ) → WaitStatus
  signaled : (pid sig : ℕ) → WaitStatus
  other_status : WaitStatus

abbrev pub sigstop : ℕ
sigstop = 19

unfoldable pub is_spawn_event : PtraceEvent → Bool
is_spawn_event clone = true
is_spawn_event fork = true
is_spawn_event vfork = true
is_spawn_event _ = false

unfoldable pub new : ℕ → Scheduler
new leader = record {
  trace = [];
  threads = insert leader new_thread [];
  ready = leader ∷ [];
  running = none;
  last_scheduled = some leader;
  leader = leader;
  leader_exit = none;
  events_recorded = 0;
  threads_followed = 1;
  vfork_pending = [];
}

abbrev pub contains : List ℕ → ℕ → Bool
contains [] p = false
contains (x ∷ xs) p = if p == x then true else contains xs p

-- `ready.retain(|&p| p != pid)`
abbrev pub retain_ne : ℕ → List ℕ → List ℕ
retain_ne p [] = []
retain_ne p (x ∷ xs) = let rest = retain_ne p xs in if p == x then rest else x ∷ rest

abbrev pub eq_some : Option ℕ → ℕ → Bool
eq_some none p = false
eq_some (some q) p = q == p

unfoldable pub append : Event → Scheduler → Scheduler
append event s = record s { trace = s.trace ++ event ∷ []; events_recorded = s.events_recorded + 1 }

unfoldable pub requeue : ℕ → Scheduler → Scheduler
requeue pid s =
    if contains_key pid s.threads && not (contains s.ready pid)
    then record s { ready = s.ready ++ pid ∷ [] }
    else s

unfoldable pub clear_running : ℕ → Scheduler → Scheduler
clear_running pid s = if eq_some s.running pid then record s { running = none } else s

-- `if let Some(t) = self.threads.get_mut(&pid) { … }`
unfoldable pub update_thread : ℕ → (Thread → Thread) → Scheduler → Scheduler
update_thread pid f s = elim (lookup pid s.threads) [
  | none ↦ s
  | some t ↦ record s { threads = insert pid (f t) s.threads }
]

unfoldable pub record_sched_switch : Kernel → ℕ → Scheduler → Scheduler
unfolding append
record_sched_switch k next s =
    if eq_some s.last_scheduled next
    then s
    else append (new_with_tid sched_switch k.now next (encode_sched_switch (record { tid = next })))
        (record s { last_scheduled = some next })

-- The resume signal is taken, and given to `ptrace::syscall` with the thread.
unfoldable pub resume_next : Kernel → Scheduler → Scheduler
unfolding record_sched_switch update_thread
resume_next k s = elim s.ready [
  | [] ↦ s
  | next ∷ rest ↦
      let s1 = record_sched_switch k next (record s { ready = rest }) in
      let s2 = update_thread next (λ t. record t { resume_signal = none }) s1 in
      record s2 { running = some next }
]

-- `pin_to_serialization_cpu` and `setoptions` have no state here.
unfoldable pub register_child : ℕ → Scheduler → Scheduler
register_child pid s = record s {
  threads = insert pid new_thread s.threads;
  threads_followed = s.threads_followed + 1;
}

unfoldable pub on_spawn : Kernel → ℕ → Scheduler → Scheduler
unfolding append
on_spawn k parent s =
    append
      (new_with_tid thread_spawn k.now parent
        (encode_thread_spawn (record { parent_tid = parent; child_tid = k.event_child })))
      s

unfoldable pub on_stopped : Kernel → ℕ → ℕ → Scheduler → Scheduler
unfolding register_child requeue clear_running append update_thread
on_stopped k pid sig s =
    if not (contains_key pid s.threads)
    then requeue pid (register_child pid s)
    else (let s1 = clear_running pid s in
        let s2 =
          append (new_with_tid signal k.now pid (encode_signal (record { signum = pos sig }))) s1 in
        let s3 = update_thread pid (λ t. record t { resume_signal = some sig }) s2 in
        requeue pid (if sig == sigstop then s1 else s3))

-- `on_exit` up to `leader_exit`: the thread leaves the table and the queue, with an event in a
-- recording that has followed several threads.
unfoldable pub leave : Kernel → ℕ → Option ℤ → Scheduler → Scheduler
unfolding append
leave k pid code s =
    let tracked = contains_key pid s.threads in
    let s2 = record s { threads = remove pid s.threads } in
    let event = new_with_tid thread_exit k.now pid (encode_thread_exit (record { tid = pid })) in
    let s3 = if tracked && ltb 1 s2.threads_followed then append event s2 else s2 in
    let s4 = record s3 { ready = retain_ne pid s3.ready } in
    if pid == s4.leader then record s4 { leader_exit = code } else s4

-- The rest of `on_exit`: a parent that the thread's vfork suspended waits for its turn again.
unfoldable pub wake_parent : ℕ → Scheduler → Scheduler
unfolding requeue
wake_parent pid s = elim (lookup pid s.vfork_pending) [
  | none ↦ s
  | some parent ↦ requeue parent (record s { vfork_pending = remove pid s.vfork_pending })
]

unfoldable pub on_exit : Kernel → ℕ → Option ℤ → Scheduler → Scheduler
unfolding clear_running leave wake_parent
on_exit k pid code s = wake_parent pid (leave k pid code (clear_running pid s))

-- One round of `run`: how `waitpid` returned, and with which status. After a timer tick (`EINTR`)
-- the status is that of the running thread, which `preempt` stops and waits for.
pub data Answer : Type 0 where
  got tick no_child : Answer

pub record Wait : Type 0 where
  pub kernel : Kernel
  pub answer : Answer
  pub status : WaitStatus

abbrev pub is_empty {ℓ} : {V : Type ℓ} → Map V → Bool
is_empty [] = true
is_empty _ = false

abbrev pub is_none : Option ℕ → Bool
is_none none = true
is_none (some _) = false

abbrev pub pending_enter_of : ℕ → Scheduler → Option SyscallRegs
pending_enter_of pid s = elim (lookup pid s.threads) [ none ↦ none | some t ↦ t.pending_enter ]

-- The state in which a round's status is handled: some thread runs, if any can.
abbrev pub at_wait : Kernel → Scheduler → Scheduler
at_wait k s = if is_none s.running then resume_next k s else s

module _ (sys : Sys) where
  unfoldable pub on_syscall : Kernel → ℕ → Scheduler → Result CaptureError Scheduler
  unfolding append update_thread
  on_syscall k pid s = elim (pending_enter_of pid s) [
    | none ↦ ok (
        update_thread pid (λ t. record t { pending_enter = some k.regs })
          (append (enter_event sys k.now pid k.regs) s))
    | some enter ↦
        let s1 = update_thread pid (λ t. record t { pending_enter = none }) s in
        (do event ← exit_event sys k.now pid k.memory enter k.regs.ret; ok (append event s1))
  ]

  unfoldable pub handle : Kernel → WaitStatus → Scheduler → Result CaptureError Scheduler
  unfolding on_syscall requeue clear_running on_spawn on_stopped on_exit
  handle k (ptrace_syscall pid) s = do
    s ← on_syscall k pid (clear_running pid s)
    ok (requeue pid s)
  handle k (ptrace_event pid event) s =
      let s1 = clear_running pid s in
      if is_spawn_event event
      then (let s2 = on_spawn k pid s1 in
          elim event [
            | vfork ↦ ok (record s2 { vfork_pending = insert k.event_child pid s2.vfork_pending })
            | _ ↦ ok (requeue pid s2)
          ])
      else ok (requeue pid s1)
  handle k (stopped pid sig) s = ok (on_stopped k pid sig s)
  handle k (exited pid code) s = ok (on_exit k pid (some code) s)
  handle k (signaled pid sig) s = ok (on_exit k pid none s)
  handle k other_status s = ok s

  -- `run`, on the answers that the kernel gives until the recording ends. The flag says that it
  -- ended; otherwise `run` waits for a further answer.
  unfoldable pub run : List Wait → Scheduler → Result CaptureError (Scheduler × Bool)
  unfolding handle
  run [] s = ok (s, is_empty s.threads)
  run (w ∷ ws) s =
      let s1 = at_wait w.kernel s in
      let go_on = handle w.kernel w.status s1 >>= run ws in
      let rest = run ws s1 in
      if is_empty s.threads then ok (s, true) else elim w.answer [
        | got ↦ go_on
        | tick ↦ if is_none s1.running then rest else go_on
        | no_child ↦ ok (s1, true)
      ]
