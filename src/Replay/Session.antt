-- ===== src/Replay/Session.antt =====
-- crates/replay/src/session.rs: the handlers of the single-threaded replay. A failed operation
-- leaves no state: `?` hands the error on.
pub mod Injection
use mirrorscope.Prelude.{
  ℕ, ◌+◌, ◌==◌, leb, if◌then◌else◌, Bool, true, false, Option, none, some, List, [], ◌∷◌, drop,
  get_elem?, Result, ok, err, ◌>>=◌, ◌>>◌, guard, ok_or,
}
use mirrorscope.Prelude.Ints.{pos, eq_ℤ}
use mirrorscope.Trace.Format.{EventKind, Record, checkpoint, syscall_enter, syscall_exit, signal}
use mirrorscope.Capture.Payload.{decode_enter, decode_exit, decode_signal}
use mirrorscope.Capture.Syscall.{Sys, SyscallRegs, injection_addr}
use mirrorscope.Replay.State.{
  Session, Os, Pending, ReplayError, ptrace, diverged, schedule_diverged, other_signal,
  unexpected_record, trace_exhausted, CheckpointInfo, ExitOutcome, payload_or,
}

abbrev pub is_some : {A : Type 0} → Option A → Bool
is_some none = false
is_some (some _) = true

-- `current >= target`, when there is a target and a record was consumed.
abbrev pub is_reached : Option ℕ → Option ℕ → Bool
is_reached (some target) (some current) = leb target current
is_reached _ _ = false

abbrev pub is_checkpoint : EventKind → Bool
is_checkpoint checkpoint = true
is_checkpoint _ = false

abbrev pub is_signal : EventKind → Bool
is_signal signal = true
is_signal _ = false

-- How many checkpoint records stand at the front.
abbrev pub count_checkpoints : List Record → ℕ
count_checkpoints [] = 0
count_checkpoints (r ∷ rs) =
    let rest = count_checkpoints rs in if is_checkpoint r.event.kind then 1 + rest else 0

abbrev pub last_seq : List CheckpointInfo → Option ℕ
last_seq [] = none
last_seq (cp ∷ []) = some cp.seq
last_seq (cp ∷ cps) = last_seq cps

module _ {K : Type 0} where
  unfoldable pub skip_checkpoints : Session K → Session K
  skip_checkpoints s = record s { cursor = s.cursor + count_checkpoints (drop s.cursor s.records) }

  unfoldable pub next_record : Session K → Result ReplayError (Record × Session K)
  unfolding skip_checkpoints
  next_record s =
      let s1 = skip_checkpoints s in
      elim (get_elem? s1.records s1.cursor) [
        | none ↦ err trace_exhausted
        | some r ↦ ok (r, record s1 { cursor = s1.cursor + 1 })
      ]

  unfoldable pub finish : ExitOutcome → Session K → Session K
  finish outcome s = record s { finished = some outcome }

module _ {K : Type 0} (os : Os K) (sys : Sys) where
  unfoldable pub on_entry : SyscallRegs → Session K → Result ReplayError (Session K)
  unfolding next_record
  on_entry regs s = do
    (r, s) ← next_record s
    guard (elim r.event.kind [ syscall_enter ↦ true | _ ↦ false ])
        (unexpected_record r.seq r.event.kind)
    enter ← payload_or (decode_enter r.event.payload)
    guard (enter.nr == regs.nr) (diverged r.seq enter.nr regs.nr)
    let addr = injection_addr sys regs.nr regs.args in
        (do
          k ← ok_or (if is_some addr then os.suppress_syscall s.pid s.os else some s.os) ptrace
          ok (record s {
            os = k;
            current_seq = some r.seq;
            pending = some (record { inject_addr = addr });
          }))

  unfoldable pub on_exit : Pending → Session K → Result ReplayError (Session K)
  unfolding next_record
  on_exit pending s = do
    (r, s) ← next_record s
    guard (elim r.event.kind [ syscall_exit ↦ true | _ ↦ false ])
        (unexpected_record r.seq r.event.kind)
    exit ← payload_or (decode_exit r.event.payload)
    elim pending.inject_addr [
      | none ↦ ok (record s { current_seq = some r.seq })
      | some addr ↦ (do
        k ← ok_or (os.write_memory s.pid addr exit.data_bytes s.os) ptrace
        k ← ok_or (os.set_return s.pid exit.ret k) ptrace
        ok (record s { os = k; current_seq = some r.seq }))
    ]

  unfoldable pub on_syscall_stop : Session K → Result ReplayError (Session K)
  unfolding on_entry on_exit
  on_syscall_stop s = do
    regs ← ok_or (os.read_regs s.pid s.os) ptrace
    elim s.pending [
      | none ↦ on_entry regs (record s { last_regs = some regs })
      | some pending ↦ on_exit pending (record s { last_regs = some regs; pending = none })
    ]

  unfoldable pub on_signal_stop : ℕ → Session K → Result ReplayError (Session K)
  unfolding skip_checkpoints
  on_signal_stop sig s =
      let s1 = skip_checkpoints s in
      let resumed = record s1 { resume_signal = some sig } in
      elim (get_elem? s1.records s1.cursor) [
        | none ↦ ok resumed
        | some r ↦
            if is_signal r.event.kind
            then (do
              recorded ← payload_or (decode_signal r.event.payload)
              guard (eq_ℤ recorded.signum (pos sig))
                  (schedule_diverged r.seq (other_signal recorded.signum sig))
              ok (record resumed { current_seq = some r.seq; cursor = s1.cursor + 1 }))
            else ok resumed
      ]
