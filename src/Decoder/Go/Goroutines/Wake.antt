-- ===== src/Decoder/Go/Goroutines/Wake.antt =====
-- The wake cause that the decoder of goroutines (crates/decoder/src/go/decoder.rs, status.rs)
-- answers.
use mirrorscope.Prelude.{
  ℕ, ◌≡◌, arith, refl, subst, none, some, ok, Bool-cases, inl, inr, bind-ok, List, [], ◌∷◌, All,
}
use mirrorscope.Prelude.Ints.{ℤ, eq_ℤ, of_bits}
use mirrorscope.Decoder.TaskTree as Model
use mirrorscope.Decoder.TaskTree.{BlockReason, TaskState}
use mirrorscope.Decoder.Frame
use mirrorscope.Decoder.Frame.{WakeCause, ProcessView}
use mirrorscope.Decoder.Go.Status
use mirrorscope.Decoder.Go.Status.{GoStatus, block_reason, wake_cause, on_channel, to_task_state}
use mirrorscope.Decoder.Go.Offsets.{GoLayout}
use mirrorscope.Decoder.Go.Walk.{GoroutineInfo, walk_goroutines}
use mirrorscope.Decoder.Go.Walk.Bounds.{IsConsistent, IsListed, walk_goroutines-IsListed}
use mirrorscope.Decoder.Go.Goroutines.{find_goid, find_goroutine, task_wake_cause, wake_answer}

-- The event that ends a wait, by its reason.
abbrev pub cause_of : BlockReason → WakeCause
cause_of (Model.channel detail) = Frame.channel detail
cause_of (Model.io detail) = Frame.io (record { fd = none; description = detail })
cause_of (Model.lock detail) = Frame.manual
cause_of (Model.join on) = Frame.manual
cause_of Model.timer = Frame.timer
cause_of Model.unknown = Frame.unknown

abbrev pub cause_in : TaskState → WakeCause
cause_in (Model.blocked on) = cause_of on
cause_in Model.runnable = Frame.unknown
cause_in Model.running = Frame.unknown
cause_in Model.completed = Frame.unknown

wake_cause-block_reason : (w : ℕ) → wake_cause w ≡ cause_of (block_reason w)
unfolding wake_cause block_reason on_channel
wake_cause-block_reason w = ground arith

answer_in_state :
    (s : GoStatus) (w : ℕ) → wake_answer w (to_task_state s w) ≡ cause_in (to_task_state s w)
unfolding wake_answer to_task_state
answer_in_state Status.waiting w = wake_cause-block_reason w
answer_in_state Status.idle w = refl
answer_in_state Status.runnable w = refl
answer_in_state Status.running w = refl
answer_in_state Status.syscall w = refl
answer_in_state Status.dead w = refl
answer_in_state Status.copystack w = refl
answer_in_state Status.preempted w = refl
answer_in_state (Status.other raw) w = refl

find_goid-IsConsistent :
    (z : ℤ) (gs : List GoroutineInfo) (g : GoroutineInfo)
    → All IsListed gs
    → find_goid z gs ≡ some g
    → IsConsistent g
unfolding find_goid
find_goid-IsConsistent z [] g h found = ground arith
find_goid-IsConsistent z (x ∷ xs) g h found = elim (Bool-cases (eq_ℤ x.goid z)) [
  | inl here ↦ let same : x ≡ g = ground arith in subst IsConsistent same h.0.1
  | inr later ↦ find_goid-IsConsistent z xs g h.1 (ground arith)
]

-- The wake cause of a task that the walk finds is the event that its state, as the tree shows it,
-- waits for: a channel or I/O with the text of the state's detail, a timer, a hand-made wake for a
-- lock or a join; and unknown for a state that is not blocked or blocked for an unknown reason.
pub task_wake_cause-state :
    (view : ProcessView) (layout : GoLayout) (task : ℕ) (g : GoroutineInfo)
    → find_goroutine view layout task ≡ ok g
    → task_wake_cause view layout task ≡ ok (cause_in g.state)
unfolding task_wake_cause find_goroutine
task_wake_cause-state view layout task g found =
    let (gs, walked, picked) = bind-ok (walk_goroutines view layout) _ g found in
    let in_list : find_goid (of_bits 64 task) gs ≡ some g = ground arith in
    let c =
      find_goid-IsConsistent (of_bits 64 task) gs g
        (walk_goroutines-IsListed view layout gs walked).1 in_list in
    rw (found, c.state_agrees, answer_in_state g.status g.wait_reason)
