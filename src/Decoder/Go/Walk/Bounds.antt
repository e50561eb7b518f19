-- ===== src/Decoder/Go/Walk/Bounds.antt =====
-- What the walk over `runtime.allgs` (crates/decoder/src/go/gwalk.rs) returns.
use mirrorscope.Prelude.{
  ℕ, zero, suc, ◌+◌, ◌*◌, ◌%◌, ◌≡◌, subst, ◌≤◌, ◌^◌, arith, ◌==◌, refl, false, Option, none, some,
  List, length, All, ok, ◌>>=◌, Ensures, Ensures-bind, Ensures-intro, Ensures-if, Result, err,
  if◌then◌else◌, Ensures-ok, bind-ok, ok-inj, Bool-cases, inl, inr,
}
use mirrorscope.Prelude.Ints.{ℤ, of_bits, IsI64}
use mirrorscope.Decoder.TaskTree.{DecoderError}
use mirrorscope.Decoder.Frame.{ProcessView}
use mirrorscope.Decoder.Go.Status.{from_raw, is_dead, to_task_state, wait_reason_str}
use mirrorscope.Decoder.Go.Offsets.{GoLayout, slice_len_offset}
use mirrorscope.Decoder.Go.Walk.{
  GoroutineInfo, max_goroutines, read_word, read_parent, read_allgs_header, read_goroutine,
  walk_slots, push_live, walk_goroutines, offset_by, read_u8, resolve_thread,
}

-- The parent's id, if there is one, is an `i64`.
abbrev pub ParentInRange : Option ℤ → Type 0
ParentInRange none = Unit
ParentInRange (some p) = IsI64 p

-- Its fields agree with each other: the status is that of the raw word, the state that of the
-- status and the wait reason, and the ids are `i64`.
pub record IsConsistent (g : GoroutineInfo) : Type 0 where
  pub status_agrees : g.status ≡ from_raw g.raw_status
  pub state_agrees : g.state ≡ to_task_state g.status g.wait_reason
  pub text_agrees : g.wait_reason_text ≡ wait_reason_str g.wait_reason
  pub goid_fits : IsI64 g.goid
  pub parent_fits : ParentInRange g.parent_goid

of_bits-IsI64 : (n : ℕ) → IsI64 (of_bits 64 n)
of_bits-IsI64 n = ground arith

read_parent-InRange :
    (view : ProcessView) (gp : ℕ) (off : Option ℕ) → Ensures ParentInRange (read_parent view gp off)
unfolding read_parent
read_parent-InRange view gp none = tt
read_parent-InRange view gp (some off) =
    Ensures-bind ParentInRange (read_word 8 view (offset_by gp off)) (λ n. ok (some (of_bits 64 n)))
      λ n _. of_bits-IsI64 n

read-IsConsistent :
    (view : ProcessView) (layout : GoLayout) (gp : ℕ) (g : GoroutineInfo)
    → read_goroutine view layout gp ≡ ok g
    → IsConsistent g
unfolding read_goroutine
read-IsConsistent view layout gp g h0 =
    let (raw, _, h1) = bind-ok (read_word 4 view (offset_by gp layout.g.atomicstatus)) _ _ h0 in
    let (reason, _, h2) = bind-ok (read_u8 view (offset_by gp layout.g.waitreason)) _ _ h1 in
    let (m, _, h3) = bind-ok (read_word 8 view (offset_by gp layout.g.m)) _ _ h2 in
    let (parent, read, h4) = bind-ok (read_parent view gp layout.g.parent_goid) _ _ h3 in
    let (thread, _, h5) = bind-ok (resolve_thread view layout (from_raw raw) m) _ _ h4 in
    let (goid, _, h6) = bind-ok (read_word 8 view (offset_by gp layout.g.goid)) _ _ h5 in
    let (gopc, _, h7) = bind-ok (read_word 8 view (offset_by gp layout.g.gopc)) _ _ h6 in
    let (startpc, _, h8) = bind-ok (read_word 8 view (offset_by gp layout.g.startpc)) _ _ h7 in
    let (pc, _, h9) = bind-ok (read_word 8 view (offset_by gp layout.g.sched_pc)) _ _ h8 in
    let (sp, _, h10) = bind-ok (read_word 8 view (offset_by gp layout.g.sched_sp)) _ _ h9 in
    let (lo, _, h11) = bind-ok (read_word 8 view (offset_by gp layout.g.stack_lo)) _ _ h10 in
    let (hi, _, h12) = bind-ok (read_word 8 view (offset_by gp layout.g.stack_hi)) _ _ h11 in
    let in_range : ParentInRange parent =
      Ensures-ok ParentInRange (read_parent view gp layout.g.parent_goid) parent
        (read_parent-InRange view gp layout.g.parent_goid) read in
    subst IsConsistent (ok-inj h12) (record {
      status_agrees = refl;
      state_agrees = refl;
      text_agrees = refl;
      goid_fits = of_bits-IsI64 goid;
      parent_fits = in_range;
    })

read_goroutine-IsConsistent :
    (view : ProcessView) (layout : GoLayout) (gp : ℕ)
    → Ensures IsConsistent (read_goroutine view layout gp)
read_goroutine-IsConsistent view layout gp =
    Ensures-intro IsConsistent (read_goroutine view layout gp) (read-IsConsistent view layout gp)

-- A goroutine as the list has it.
abbrev pub IsListed : GoroutineInfo → Type 0
IsListed g = (is_dead g.status ≡ false) × IsConsistent g

AtMost : ℕ → List GoroutineInfo → Type 0
AtMost count gs = (length gs ≤ count) × All IsListed gs

push_live-AtMost :
    (count : ℕ) (g : GoroutineInfo) (gs : List GoroutineInfo)
    → IsConsistent g
    → AtMost count gs
    → AtMost (suc count) (push_live g gs)
unfolding AtMost push_live
push_live-AtMost count g gs c h = elim (Bool-cases (is_dead g.status)) [
  | inl dead ↦ ground (arith, h.0, h.1)
  | inr live ↦ ground (arith, h.0, h.1, c)
]

AtMost-suc : (count : ℕ) (gs : List GoroutineInfo) → AtMost count gs → AtMost (suc count) gs
unfolding AtMost
AtMost-suc count gs h = (omega (arith, h.0), h.1)

slot_addr : GoLayout → (data_ptr index : ℕ) → ℕ
slot_addr layout data_ptr index = offset_by data_ptr ((index * layout.ptr_size) % 2 ^ 64)

module _ (count : ℕ) (rest : Result DecoderError (List GoroutineInfo))
    (rest_ok : Ensures (AtMost count) rest) where
  visit-AtMost :
      (r : Result DecoderError GoroutineInfo)
      → Ensures IsConsistent r
      → Ensures (AtMost (suc count)) (r >>= λ info. rest >>= λ later. ok (push_live info later))
  visit-AtMost (err e) c = tt
  visit-AtMost (ok info) c =
      Ensures-bind (AtMost (suc count)) rest (λ later. ok (push_live info later))
        λ later same.
          push_live-AtMost count info later c (Ensures-ok (AtMost count) rest later rest_ok same)

  skip-AtMost : Ensures (AtMost (suc count)) rest
  skip-AtMost = weaken rest rest_ok
    where
      weaken :
          (r : Result DecoderError (List GoroutineInfo))
          → Ensures (AtMost count) r
          → Ensures (AtMost (suc count)) r
      weaken (ok gs) h = AtMost-suc count gs h
      weaken (err e) h = tt

walk_slots-AtMost :
    (view : ProcessView) (layout : GoLayout) (data_ptr index count : ℕ)
    → Ensures (AtMost count) (walk_slots view layout data_ptr index count)
unfolding walk_slots slot_addr AtMost
walk_slots-AtMost view layout data_ptr index zero = (omega arith, tt)
walk_slots-AtMost view layout data_ptr index (suc count) =
    let rest = walk_slots view layout data_ptr (index + 1) count in
    let rest_ok = walk_slots-AtMost view layout data_ptr (index + 1) count in
    let consistent : (gp : ℕ) → Ensures IsConsistent (read_goroutine view layout gp) =
      λ gp. read_goroutine-IsConsistent view layout gp in
    Ensures-bind (AtMost (suc count)) (read_word 8 view (slot_addr layout data_ptr index))
      (λ gp.
        if gp == 0
        then rest
        else read_goroutine view layout gp >>= λ info. rest >>= λ later. ok (push_live info later))
      λ gp _.
        Ensures-if (AtMost (suc count)) (gp == 0) rest _ (skip-AtMost count rest rest_ok)
          (visit-AtMost count rest rest_ok (read_goroutine view layout gp) (consistent gp))

header_bound :
    (view : ProcessView) (layout : GoLayout) (data_ptr len : ℕ)
    → read_allgs_header view layout ≡ ok (data_ptr, len)
    → len ≤ max_goroutines
unfolding read_allgs_header
header_bound view layout data_ptr len h =
    let allgs = offset_by layout.allgs_addr layout.load_bias in
    let (d, _, h1) = bind-ok (read_word 8 view allgs) _ (data_ptr, len) h in
    let (n, _, h2) =
      bind-ok (read_word 8 view (offset_by allgs (slice_len_offset layout))) _ (data_ptr, len) h1 in
    ground arith

-- A walk that succeeds answers at most 2^20 goroutines, none of them dead. Of each, the status is
-- that of the raw word, the state and the text are those of the status and the wait reason, and
-- the ids are `i64`.
pub walk_goroutines-IsListed :
    (view : ProcessView) (layout : GoLayout) (gs : List GoroutineInfo)
    → walk_goroutines view layout ≡ ok gs
    → (length gs ≤ max_goroutines) × All IsListed gs
unfolding walk_goroutines AtMost
walk_goroutines-IsListed view layout gs h =
    let ((data_ptr, len), read, walked) = bind-ok (read_allgs_header view layout) _ gs h in
    let (few, listed) =
      Ensures-ok (AtMost len) (walk_slots view layout data_ptr 0 len) gs
        (walk_slots-AtMost view layout data_ptr 0 len) walked in
    (omega (arith, few, header_bound view layout data_ptr len read), listed)
