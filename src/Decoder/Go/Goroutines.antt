-- ===== src/Decoder/Go/Goroutines.antt =====
-- crates/decoder/src/go/decoder.rs: the decoder of goroutines, on top of the walk.
pub mod Index
pub mod Tree
pub mod Wake
use mirrorscope.Prelude.{
  ℕ, ◌≡◌, ◌==◌, if◌then◌else◌, Bool, true, false, not, ◌&&◌, ◌||◌, Option, none, some, List, [],
  ◌∷◌, ◌++◌, map, Result, ok, err, ◌>>=◌, ok_or,
}
use mirrorscope.Prelude.Bytes.{Bytes}
use mirrorscope.Prelude.Ints.{ℤ, pos, negsuc, to_bits, of_bits, eq_ℤ}
use mirrorscope.Prelude.Text.{codes, decimal, hex}
use mirrorscope.Decoder.TaskTree as Model
use mirrorscope.Decoder.TaskTree.{
  BlockReason, TaskNode, TaskState, TaskTree, DecoderError, unknown_task, unknown_thread, goroutine,
  blocked, runnable, running, completed, try_from_nodes,
}
use mirrorscope.Decoder.Frame.{
  ProcessView, LogicalFrame, SuspendKind, WakeCause, Variable, synthesized, from_physical,
}
use mirrorscope.Decoder.Frame
use mirrorscope.Decoder.Go.Status.{wake_cause}
use mirrorscope.Decoder.Go.Offsets.{GoLayout}
use mirrorscope.Decoder.Go.Walk.{GoroutineInfo, walk_goroutines}

-- `goid > 0`
abbrev pub is_positive : ℤ → Bool
is_positive (pos n) = not (n == 0)
is_positive (negsuc n) = false

-- A `HashSet<i64>`
abbrev pub member : ℤ → List ℤ → Bool
member z [] = false
member z (y ∷ ys) = let rest = member z ys in if eq_ℤ z y then true else rest

-- The set of the positive ids.
unfoldable pub live_ids : List GoroutineInfo → List ℤ
live_ids [] = []
live_ids (g ∷ gs) = let rest = live_ids gs in if is_positive g.goid then g.goid ∷ rest else rest

-- `format!("{}", n)` of an `i64`.
unfoldable pub decimal_ℤ : ℤ → Bytes
decimal_ℤ (pos n) = decimal n
decimal_ℤ (negsuc n) = b'-' ∷ decimal (Prim.Native.Nat.suc n)

-- The parent edge: only to another goroutine that is live itself.
unfoldable pub parent_of : (goid : ℤ) → (live : List ℤ) → Option ℤ → Option ℕ
parent_of goid live none = none
parent_of goid live (some p) =
    if is_positive p && not (eq_ℤ p goid) && member p live then some (to_bits 64 p) else none

unfoldable pub node_for : GoroutineInfo → List ℤ → TaskNode
unfolding parent_of decimal_ℤ
node_for g live = record {
  id = to_bits 64 g.goid;
  name = codes "goroutine " ++ decimal_ℤ g.goid;
  kind = goroutine;
  state = g.state;
  parent = parent_of g.goid live g.parent_goid;
}

-- The loop of `decode_tasks`, with the ids seen so far.
unfoldable pub collect_nodes : (live seen : List ℤ) → List GoroutineInfo → List TaskNode
unfolding node_for
collect_nodes live seen [] = []
collect_nodes live seen (g ∷ gs) =
    let skipped = collect_nodes live seen gs in
    let pushed = node_for g live ∷ collect_nodes live (g.goid ∷ seen) gs in
    if not (is_positive g.goid) || member g.goid seen then skipped else pushed

unfoldable pub decode_tasks : ProcessView → GoLayout → Result DecoderError TaskTree
unfolding live_ids collect_nodes
decode_tasks view layout =
    walk_goroutines view layout >>= λ gs. try_from_nodes (collect_nodes (live_ids gs) [] gs)

unfoldable pub find_goid : ℤ → List GoroutineInfo → Option GoroutineInfo
find_goid z [] = none
find_goid z (g ∷ gs) = let rest = find_goid z gs in if eq_ℤ g.goid z then some g else rest

-- `self.goroutine(view, task)`
unfoldable pub find_goroutine :
    ProcessView → GoLayout → (task : ℕ) → Result DecoderError GoroutineInfo
unfolding find_goid
find_goroutine view layout task =
    walk_goroutines view layout >>= λ gs. ok_or (find_goid (of_bits 64 task) gs) (unknown_task task)

unfoldable pub suspend_kind : BlockReason → SuspendKind
suspend_kind (Model.channel detail) = Frame.channel_recv
suspend_kind (Model.lock detail) = Frame.lock
suspend_kind (Model.io detail) = Frame.io
suspend_kind (Model.join on) = Frame.join
suspend_kind Model.timer = Frame.timer
suspend_kind Model.unknown = Frame.other

unfoldable pub parked_start_frame : GoroutineInfo → LogicalFrame
unfolding suspend_kind decimal_ℤ
parked_start_frame g = record {
  display_name =
      codes "goroutine "
      ++ decimal_ℤ g.goid
      ++ codes " (parked @ 0x"
      ++ hex g.sched_pc
      ++ codes ")";
  location = none;
  suspend = elim g.state [
    | blocked on ↦ some (record { kind = suspend_kind on; detail = some g.wait_reason_text })
    | runnable ↦ none
    | running ↦ none
    | completed ↦ none
  ];
  origin = synthesized;
}

unfoldable pub running_stack : ProcessView → (thread : ℕ) → Result DecoderError (List LogicalFrame)
running_stack view thread = elim (view.physical_frames thread) [
  | ok frames ↦ ok (map from_physical frames)
  | err e ↦ err (unknown_thread thread)
]

unfoldable pub logical_stack :
    ProcessView → GoLayout → (task : ℕ) → Result DecoderError (List LogicalFrame)
unfolding find_goroutine running_stack parked_start_frame
logical_stack view layout task = find_goroutine view layout task >>= λ g. elim g.thread [
  | some thread ↦ running_stack view thread
  | none ↦ ok (parked_start_frame g ∷ [])
]

unfoldable pub wake_answer : ℕ → TaskState → WakeCause
wake_answer w (blocked on) = wake_cause w
wake_answer w runnable = Frame.unknown
wake_answer w running = Frame.unknown
wake_answer w completed = Frame.unknown

unfoldable pub task_wake_cause : ProcessView → GoLayout → (task : ℕ) → Result DecoderError WakeCause
unfolding find_goroutine wake_answer
task_wake_cause view layout task =
    find_goroutine view layout task >>= λ g. ok (wake_answer g.wait_reason g.state)

-- `locals_at` only checks that the task exists.
unfoldable pub locals_at : ProcessView → GoLayout → (task : ℕ) → Result DecoderError (List Variable)
unfolding find_goroutine
locals_at view layout task = find_goroutine view layout task >>= λ g. ok []
