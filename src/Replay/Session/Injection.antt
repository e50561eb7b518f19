-- ===== src/Replay/Session/Injection.antt =====
-- A syscall that crates/recorder/src/capture/syscall.rs recorded, in the replay of
-- crates/replay/src/session.rs.
use mirrorscope.Prelude.{
  ℕ, ◌+◌, ◌^◌, ◌≡◌, ◌<◌, arith, ==-refl, lt→ltb, length, All, if◌then◌else◌, Option, none, some, [],
  ◌∷◌, get_elem?, ok,
}
use mirrorscope.Prelude.Bytes.{Bytes}
use mirrorscope.Prelude.Ints.{ℤ, IsI64}
use mirrorscope.Trace.Format.{Event, syscall_exit, new_with_tid}
use mirrorscope.Capture.Payload.{SyscallExit, encode_exit, decode_exit}
use mirrorscope.Capture.Payload.Codec.{decode_enter-encode_enter, decode_exit-encode_exit}
use mirrorscope.Capture.Syscall.{
  Sys, SyscallRegs, kernel_written_region, injection_addr, enter_event, exit_event,
}
use mirrorscope.Replay.State.{Session, Os}
use mirrorscope.Replay.Session.{
  skip_checkpoints, next_record, on_entry, on_exit, on_syscall_stop, is_some,
}

-- The bytes that a recorder's exit event carries.
abbrev pub Captured : Sys → (ℕ → ℕ → Option Bytes) → SyscallRegs → ℤ → Bytes → Type 0
Captured sys memory enter ret bytes = elim (kernel_written_region sys enter.nr enter.args ret) [
  | none ↦ bytes ≡ []
  | some (addr, len) ↦ memory addr len ≡ some bytes
]

exit_event_lem :
    (sys : Sys) (now tid : ℕ) (memory : ℕ → ℕ → Option Bytes) (enter : SyscallRegs) (ret : ℤ)
    (bytes : Bytes)
    → Captured sys memory enter ret bytes
    → exit_event sys now tid memory enter ret
      ≡ ok (
          new_with_tid syscall_exit now tid
            (encode_exit (record { nr = enter.nr; ret = ret; data_bytes = bytes })))
unfolding exit_event
exit_event_lem sys now tid memory enter ret bytes c = ground arith

module _ {K : Type 0} (os : Os K) (sys : Sys) where
  -- At the exit stop of a syscall that is injected, the next record being the exit event that the
  -- recorder made: the bytes it captured from the recorded tracee are written to the address that
  -- the entry stop kept, and the recorded result is set; the record is consumed, and no syscall is
  -- pending any more. (The number and the result are 64-bit words, fewer than 4 GiB were captured,
  -- and reading the registers, the write and the setting of the result succeed.)
  pub recorded_exit_replays :
      (now tid seq : ℕ) (memory : ℕ → ℕ → Option Bytes) (enter now_regs : SyscallRegs) (ret : ℤ)
      (bytes : Bytes) (event : Event) (s : Session K) (k1 k2 : K) (addr : ℕ)
      → enter.nr < 2 ^ 64
      → IsI64 ret
      → length bytes < 2 ^ 32
      → Captured sys memory enter ret bytes
      → exit_event sys now tid memory enter ret ≡ ok event
      → get_elem? s.records (skip_checkpoints s).cursor ≡ some (record { seq = seq; event = event })
      → s.pending ≡ some (record { inject_addr = injection_addr sys enter.nr enter.args })
      → os.read_regs s.pid s.os ≡ some now_regs
      → injection_addr sys enter.nr enter.args ≡ some addr
      → os.write_memory s.pid addr bytes s.os ≡ some k1
      → os.set_return s.pid ret k1 ≡ some k2
      → on_syscall_stop os sys s
        ≡ ok (record s {
          os = k2;
          cursor = (skip_checkpoints s).cursor + 1;
          current_seq = some seq;
          pending = none;
          last_regs = some now_regs;
        })
  unfolding on_syscall_stop on_exit next_record skip_checkpoints
  recorded_exit_replays now tid seq memory enter now_regs ret bytes event s k1 k2 addr hn hr hl c
        made here pending regs inject wrote set =
      let exit : SyscallExit = record { nr = enter.nr; ret = ret; data_bytes = bytes } in
      let same : event ≡ new_with_tid syscall_exit now tid (encode_exit exit) =
        ground (arith, exit_event_lem sys now tid memory enter ret bytes c) in
      let decoded : decode_exit (encode_exit exit) ≡ ok exit =
        ground (arith, decode_exit-encode_exit exit hn hr, lt→ltb (length bytes) (2 ^ 32) hl) in
      ground (arith, same, decoded)

  -- At an entry stop with no syscall pending, where the tracee makes the syscall of the next record,
  -- an entry event of the recorder with six arguments: the syscall is cancelled exactly if it has an
  -- address to inject at, it is pending with that address, and the record is consumed. (The words
  -- are 64-bit, and reading the registers and the cancelling succeed.)
  pub recorded_enter_replays :
      (now tid seq nr a0 a1 a2 a3 a4 a5 : ℕ) (ret : ℤ) (regs : SyscallRegs) (s : Session K) (k1 : K)
      → All (λ w. w < 2 ^ 64) (nr ∷ a0 ∷ a1 ∷ a2 ∷ a3 ∷ a4 ∷ a5 ∷ [])
      → get_elem? s.records (skip_checkpoints s).cursor
        ≡ some (record {
          seq = seq;
          event =
              enter_event sys now tid
                (record { nr = nr; ret = ret; args = a0 ∷ a1 ∷ a2 ∷ a3 ∷ a4 ∷ a5 ∷ [] });
        })
      → s.pending ≡ none
      → os.read_regs s.pid s.os ≡ some regs
      → regs.nr ≡ nr
      → (if is_some (injection_addr sys nr regs.args)
          then os.suppress_syscall s.pid s.os
          else some s.os)
        ≡ some k1
      → on_syscall_stop os sys s
        ≡ ok (record s {
          os = k1;
          cursor = (skip_checkpoints s).cursor + 1;
          current_seq = some seq;
          pending = some (record { inject_addr = injection_addr sys nr regs.args });
          last_regs = some regs;
        })
  unfolding on_syscall_stop on_entry next_record skip_checkpoints enter_event
  recorded_enter_replays now tid seq nr a0 a1 a2 a3 a4 a5 ret regs s k1 h here idle read same
        cancelled =
      ground (arith, decode_enter-encode_enter nr a0 a1 a2 a3 a4 a5 h, ==-refl nr)
