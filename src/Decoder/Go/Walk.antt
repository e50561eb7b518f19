-- ===== src/Decoder/Go/Walk.antt =====
-- crates/decoder/src/go/gwalk.rs: the goroutines of a stopped process, from the slice
-- `runtime.allgs`.
pub mod Bounds
use mirrorscope.Prelude.{
  ℕ, zero, suc, ◌+◌, ◌*◌, ◌%◌, ◌^◌, ◌==◌, leb, if◌then◌else◌, Bool, true, false, not, ◌&&◌, Option,
  none, some, List, [], ◌∷◌, length, Result, ok, err, ◌>>=◌, ◌>>◌, guard,
}
use mirrorscope.Prelude.Bytes.{Bytes, from_le}
use mirrorscope.Prelude.Ints.{ℤ, of_bits}
use mirrorscope.Decoder.TaskTree.{
  TaskState, DecoderError, memory_read_failed, not_applicable, implausible_length,
}
use mirrorscope.Decoder.Frame.{ProcessView}
use mirrorscope.Decoder.Go.Status.{
  GoStatus, running, syscall, from_raw, is_dead, to_task_state, wait_reason_str,
}
use mirrorscope.Decoder.Go.Offsets.{GoLayout, slice_len_offset}

abbrev pub max_goroutines : ℕ
max_goroutines = 2 ^ 20

-- Addresses are `u64`; their sums wrap, as in a build without overflow checks.
unfoldable pub offset_by : ℕ → ℕ → ℕ
offset_by addr off = (addr + off) % 2 ^ 64

pub record GoroutineInfo : Type 0 where
  pub goid : ℤ
  pub raw_status : ℕ
  pub status : GoStatus
  pub state : TaskState
  pub wait_reason : ℕ
  pub wait_reason_text : Bytes
  pub gopc : ℕ
  pub startpc : ℕ
  pub sched_pc : ℕ
  pub sched_sp : ℕ
  pub stack_lo : ℕ
  pub stack_hi : ℕ
  pub m_ptr : ℕ
  pub parent_goid : Option ℤ
  pub thread : Option ℕ

-- `read_u64` and `read_u32`: a read of another length is a short read.
unfoldable pub read_word : (size : ℕ) → ProcessView → (addr : ℕ) → Result DecoderError ℕ
read_word size view addr = do
  bytes ← view.read_memory addr size
  guard (length bytes == size) (memory_read_failed addr size)
  ok (from_le bytes)

abbrev first_byte : ℕ → Bytes → Result DecoderError ℕ
first_byte addr [] = err (memory_read_failed addr 1)
first_byte addr (b ∷ bs) = ok b

unfoldable pub read_u8 : ProcessView → (addr : ℕ) → Result DecoderError ℕ
read_u8 view addr = view.read_memory addr 1 >>= first_byte addr

unfoldable pub read_allgs_header : ProcessView → GoLayout → Result DecoderError (ℕ × ℕ)
unfolding offset_by read_word slice_len_offset
read_allgs_header view layout = do
  let allgs = offset_by layout.allgs_addr layout.load_bias
  data_ptr ← read_word 8 view allgs
  len ← read_word 8 view (offset_by allgs (slice_len_offset layout))
  guard (leb len max_goroutines) (not_applicable (implausible_length len))
  ok (data_ptr, len)

abbrev is_on_m : GoStatus → Bool
is_on_m running = true
is_on_m syscall = true
is_on_m _ = false

unfoldable pub resolve_thread :
    ProcessView → GoLayout → GoStatus → (m_ptr : ℕ) → Result DecoderError (Option ℕ)
unfolding offset_by read_word
resolve_thread view layout status m_ptr = elim layout.m_procid [
  | none ↦ ok none
  | some procid_off ↦
      if is_on_m status && not (m_ptr == 0)
      then (read_word 8 view (offset_by m_ptr procid_off) >>= λ procid. ok (some procid))
      else ok none
]

unfoldable pub read_parent : ProcessView → (gp : ℕ) → Option ℕ → Result DecoderError (Option ℤ)
unfolding offset_by read_word
read_parent view gp none = ok none
read_parent view gp (some off) =
    read_word 8 view (offset_by gp off) >>= λ n. ok (some (of_bits 64 n))

unfoldable pub read_goroutine :
    ProcessView → GoLayout → (gp : ℕ) → Result DecoderError GoroutineInfo
unfolding offset_by read_word read_u8 resolve_thread read_parent from_raw to_task_state
read_goroutine view layout gp = do
  let g = layout.g
  raw_status ← read_word 4 view (offset_by gp g.atomicstatus)
  let status = from_raw raw_status
  wait_reason ← read_u8 view (offset_by gp g.waitreason)
  m_ptr ← read_word 8 view (offset_by gp g.m)
  parent_goid ← read_parent view gp g.parent_goid
  thread ← resolve_thread view layout status m_ptr
  goid ← read_word 8 view (offset_by gp g.goid)
  gopc ← read_word 8 view (offset_by gp g.gopc)
  startpc ← read_word 8 view (offset_by gp g.startpc)
  sched_pc ← read_word 8 view (offset_by gp g.sched_pc)
  sched_sp ← read_word 8 view (offset_by gp g.sched_sp)
  stack_lo ← read_word 8 view (offset_by gp g.stack_lo)
  stack_hi ← read_word 8 view (offset_by gp g.stack_hi)
  ok (record {
    goid = of_bits 64 goid;
    raw_status = raw_status;
    status = status;
    state = to_task_state status wait_reason;
    wait_reason = wait_reason;
    wait_reason_text = wait_reason_str wait_reason;
    gopc = gopc;
    startpc = startpc;
    sched_pc = sched_pc;
    sched_sp = sched_sp;
    stack_lo = stack_lo;
    stack_hi = stack_hi;
    m_ptr = m_ptr;
    parent_goid = parent_goid;
    thread = thread;
  })

-- A goroutine is pushed if it is not dead.
unfoldable pub push_live : GoroutineInfo → List GoroutineInfo → List GoroutineInfo
unfolding is_dead
push_live info later = if is_dead info.status then later else info ∷ later

-- The loop over the slots from `index` on, `count` of them; the goroutines found are put in front
-- of those of the later slots.
unfoldable pub walk_slots :
    ProcessView → GoLayout → (data_ptr index count : ℕ) → Result DecoderError (List GoroutineInfo)
unfolding offset_by read_word read_goroutine push_live
walk_slots view layout data_ptr index zero = ok []
walk_slots view layout data_ptr index (suc count) =
    let rest = walk_slots view layout data_ptr (index + 1) count in
    let visit : ℕ → Result DecoderError (List GoroutineInfo) =
      λ gp. read_goroutine view layout gp >>= λ info. rest >>= λ later. ok (push_live info later) in
    read_word 8 view (offset_by data_ptr ((index * layout.ptr_size) % 2 ^ 64)) >>= λ gp.
    if gp == 0 then rest else visit gp

unfoldable pub walk_goroutines : ProcessView → GoLayout → Result DecoderError (List GoroutineInfo)
unfolding read_allgs_header walk_slots
walk_goroutines view layout = do
  (data_ptr, len) ← read_allgs_header view layout
  walk_slots view layout data_ptr 0 len
