-- ===== src/Decoder/Native.antt =====
-- crates/decoder/src/native.rs: the decoder that shows each thread as a root task.
use mirrorscope.Prelude.{ℕ, List, [], ◌∷◌, ◌++◌, map, Result, ok, err}
use mirrorscope.Prelude.Text.{codes, decimal}
use mirrorscope.Decoder.TaskTree.{
  TaskNode, TaskTree, DecoderError, unknown_task, thread, running, root, try_from_nodes,
}
use mirrorscope.Decoder.Frame.{
  ProcessView, LogicalFrame, Variable, WakeCause, unknown, from_physical,
}

-- Ids of tasks and of threads have the same numbers.
unfoldable pub thread_node : ℕ → TaskNode
unfolding root
thread_node id = root id (codes "thread " ++ decimal id) thread running

unfoldable pub thread_nodes : List ℕ → List TaskNode
unfolding thread_node
thread_nodes [] = []
thread_nodes (id ∷ ids) = thread_node id ∷ thread_nodes ids

unfoldable pub decode_threads : ProcessView → Result DecoderError TaskTree
unfolding thread_nodes
decode_threads view = try_from_nodes (thread_nodes view.thread_ids)

unfoldable pub thread_stack : ProcessView → (task : ℕ) → Result DecoderError (List LogicalFrame)
thread_stack view task = elim (view.physical_frames task) [
  | ok frames ↦ ok (map from_physical frames)
  | err e ↦ err (unknown_task task)
]

unfoldable pub thread_wake_cause : ProcessView → (task : ℕ) → Result DecoderError WakeCause
thread_wake_cause view task = elim (view.registers task) [
  | ok regs ↦ ok unknown
  | err e ↦ err (unknown_task task)
]

unfoldable pub thread_locals : ProcessView → (task : ℕ) → Result DecoderError (List Variable)
thread_locals view task = elim (view.registers task) [
  | ok regs ↦ ok []
  | err e ↦ err (unknown_task task)
]
