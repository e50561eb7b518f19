-- ===== src/Capture/Syscall.antt =====
-- crates/recorder/src/capture/syscall.rs, and `injection_addr` of crates/replay/src/inject.rs,
-- which mirrors its table.
use mirrorscope.Prelude.{
  ℕ, Bool-cases, inl, inr, ◌==◌, ◌||◌, if◌then◌else◌, Option, none, some, List, [], get_elem?, Bool,
  false, ◌&&◌, ◌≡◌, arith, Result, ok, ◌>>=◌, ok_or,
}
use mirrorscope.Prelude.Bytes.{Bytes}
use mirrorscope.Prelude.Ints.{ℤ, pos, negsuc}
use mirrorscope.Trace.Format.{Event, syscall_enter, syscall_exit, new_with_tid}
use mirrorscope.Capture.Payload.{encode_enter, encode_exit}
use mathlib.Core.Option.{get_or}

-- The numbers that `libc` gives to the syscalls that write into the tracee.
pub record Sys : Type 0 where
  pub read : ℕ
  pub pread64 : ℕ
  pub recvfrom : ℕ
  pub getrandom : ℕ
  pub clock_gettime : ℕ

-- `args` is an array of six words.
pub record SyscallRegs : Type 0 where
  pub nr : ℕ
  pub ret : ℤ
  pub args : List ℕ

abbrev pub arg : List ℕ → ℕ → ℕ
arg args i = get_or (get_elem? args i) 0

-- `ret > 0` with `ret as usize`, and `ret == 0`.
abbrev positive : ℤ → Option ℕ
positive (pos n) = if n == 0 then none else some n
positive (negsuc n) = none

abbrev is_zero : ℤ → Bool
is_zero (pos n) = n == 0
is_zero (negsuc n) = false

abbrev pub timespec_len : ℕ
timespec_len = 16

-- A failed read of the tracee's memory.
pub data CaptureError : Type 0 where
  tracee_read : (addr len : ℕ) → CaptureError

module _ (sys : Sys) where
  unfoldable pub kernel_written_region : ℕ → List ℕ → ℤ → Option (ℕ × ℕ)
  kernel_written_region nr args ret =
      if nr == sys.read || (nr == sys.pread64 || nr == sys.recvfrom)
      then elim (positive ret) [ none ↦ none | some len ↦ some (arg args 1, len) ]
      else if nr == sys.getrandom
      then elim (positive ret) [ none ↦ none | some len ↦ some (arg args 0, len) ]
      else if nr == sys.clock_gettime && is_zero ret
      then some (arg args 1, timespec_len)
      else none

  -- `injection_addr` of the replay engine.
  unfoldable pub injection_addr : ℕ → List ℕ → Option ℕ
  injection_addr nr args =
      if nr == sys.read || (nr == sys.pread64 || nr == sys.recvfrom)
      then some (arg args 1)
      else if nr == sys.getrandom
      then some (arg args 0)
      else if nr == sys.clock_gettime
      then some (arg args 1)
      else none

  unfoldable pub enter_event : ℕ → ℕ → SyscallRegs → Event
  enter_event timestamp_ns tid regs =
      new_with_tid syscall_enter timestamp_ns tid
        (encode_enter (record { nr = regs.nr; args = regs.args }))

  -- `memory` is `process_vm_readv` on the tracee: address and length to the bytes.
  unfoldable pub exit_event :
      ℕ → ℕ → (ℕ → ℕ → Option Bytes) → SyscallRegs → ℤ → Result CaptureError Event
  exit_event timestamp_ns tid memory enter ret = do
    captured ← elim (kernel_written_region enter.nr enter.args ret) [
      | none ↦ ok []
      | some (addr, len) ↦ ok_or (memory addr len) (tracee_read addr len)
    ]
    ok (
        new_with_tid syscall_exit timestamp_ns tid
          (encode_exit (record { nr = enter.nr; ret = ret; data_bytes = captured })))

  -- Whatever region the recorder captures at a syscall's exit, the replay engine injects at the
  -- same address; and it suppresses no syscall of which the recorder can capture nothing.
  pub injection_addr_mirrors :
      (nr : ℕ) (args : List ℕ)
      → ((ret : ℤ) (addr len : ℕ)
          → kernel_written_region nr args ret ≡ some (addr, len)
          → injection_addr nr args ≡ some addr)
        × ((addr : ℕ)
            → injection_addr nr args ≡ some addr
            → (ret : ℤ) × (len : ℕ) × (kernel_written_region nr args ret ≡ some (addr, len)))
  unfolding kernel_written_region injection_addr
  injection_addr_mirrors nr args = (
    λ ret addr len h. ground arith,
    λ addr h. elim (Bool-cases (nr == sys.read || (nr == sys.pread64 || nr == sys.recvfrom))) [
      | inl reads ↦ (pos 1, 1, ground arith)
      | inr other ↦ elim (Bool-cases (nr == sys.getrandom)) [
        | inl random ↦ (pos 1, 1, ground arith)
        | inr clock ↦ (pos 0, timespec_len, ground arith)
      ]
    ],
  )
