-- ===== src/Decoder/AsyncRust/Tasks.antt =====
-- crates/decoder/src/async_rust/decoder.rs: the tree of async tasks.
pub mod Walk
pub mod Expand
pub mod Index
pub mod Tree
use mirrorscope.Prelude.{
  ℕ, zero, suc, ◌+◌, ◌%◌, ◌^◌, ◌==◌, leb, ltb, if◌then◌else◌, Bool, true, false, Option, none, some,
  List, [], ◌∷◌, ◌++◌, length, Result, ok, err, ◌>>=◌, ◌>>◌, ok_or, guard,
}
use mirrorscope.Prelude.Bytes.{Bytes}
use mirrorscope.Decoder.TaskTree.{
  TaskNode, TaskState, TaskTree, DecoderError, not_applicable, no_layout, too_many_tasks, no_roots,
  no_decodable_tasks, enumeration_declined, unknown_task, async_task, try_from_nodes,
}
use mirrorscope.Decoder.Frame.{ProcessView, LogicalFrame, WakeCause, Variable}
use mirrorscope.Decoder.AsyncRust.Layout.{AsyncLayouts, get_layout, coroutine_name}
use mirrorscope.Decoder.AsyncRust.Decode.{
  task_state, coroutine_wake_cause, fan_out_children, coroutine_stack,
}
use mirrorscope.Decoder.AsyncRust.Owned.{EnumerateError}
use mirrorscope.Decoder.AsyncRust.Plan.{TaskRoot, TlsVariant, EnumerationPlan, enumerate_roots}

abbrev pub max_tasks : ℕ
max_tasks = 2 ^ 16

pub record DecodedNode : Type 0 where
  pub id : ℕ
  pub parent : Option ℕ
  pub base : ℕ
  pub type_name : Bytes
  pub state : TaskState
  pub wake : WakeCause

-- What the walk changes: the next free id and the nodes so far.
pub record Walked : Type 0 where
  pub next_id : ℕ
  pub out : List DecodedNode

-- A coroutine to decode.
pub record Job : Type 0 where
  pub id : ℕ
  pub parent : Option ℕ
  pub base : ℕ
  pub type_name : Bytes
  pub header_addr : Option ℕ

-- The error of the walk; `out_of_fuel` is none of the code's.
pub data WalkError : Type 0 where
  decoder : DecoderError → WalkError
  out_of_fuel : WalkError

abbrev pub lift : {A : Type 0} → Result DecoderError A → Result WalkError A
lift (ok a) = ok a
lift (err e) = err (decoder e)

-- The loop over the children, each with the next free id.
unfoldable pub expand_children :
    (visit : Job → Walked → Result WalkError Walked)
    → (parent : ℕ) → List (ℕ × Bytes)
    → Walked
    → Result WalkError Walked
expand_children visit parent [] s = ok s
expand_children visit parent ((base, type_name) ∷ children) s =
    let job : Job = record {
      id = s.next_id;
      parent = some parent;
      base = base;
      type_name = type_name;
      header_addr = none;
    } in
    visit job (record s { next_id = (s.next_id + 1) % 2 ^ 64 })
    >>= expand_children visit parent children

abbrev pub root_job : TaskRoot → Job
root_job r = record {
  id = r.id;
  parent = none;
  base = r.base;
  type_name = r.type_name;
  header_addr = r.header_addr;
}

-- `roots.iter().map(|r| r.id).max().unwrap_or(0)`
unfoldable pub max_id : List TaskRoot → ℕ
max_id [] = 0
max_id (r ∷ rs) = let rest = max_id rs in if leb rest r.id then r.id else rest

unfoldable pub task_node : DecodedNode → TaskNode
unfolding coroutine_name
task_node n = record {
  id = n.id;
  name = coroutine_name n.type_name;
  kind = async_task;
  state = n.state;
  parent = n.parent;
}

unfoldable pub task_nodes : List DecodedNode → List TaskNode
unfolding task_node
task_nodes [] = []
task_nodes (n ∷ ns) = task_node n ∷ task_nodes ns

unfoldable pub find_node : ℕ → List DecodedNode → Result DecoderError DecodedNode
find_node task [] = err (unknown_task task)
find_node task (n ∷ ns) = let rest = find_node task ns in if n.id == task then ok n else rest

-- The roots that a plan found, or the refusal for want of them.
unfoldable pub found_roots :
    Result EnumerateError (List TaskRoot) → Result DecoderError (List TaskRoot)
found_roots (err e) = err (not_applicable enumeration_declined)
found_roots (ok []) = err (not_applicable no_decodable_tasks)
found_roots (ok (r ∷ rs)) = ok (r ∷ rs)

module _ (view : ProcessView) (layouts : AsyncLayouts) where
  -- The node of a coroutine and its children.
  unfoldable pub decode_job : Job → Result DecoderError (DecodedNode × List (ℕ × Bytes))
  unfolding task_state coroutine_wake_cause fan_out_children get_layout
  decode_job job = do
    layout ← ok_or (get_layout job.type_name layouts) (not_applicable (no_layout job.type_name))
    state ← task_state view job.base layout layouts job.header_addr
    wake ← coroutine_wake_cause view job.base layout layouts
    children ← fan_out_children view job.base layout
    ok (
      record {
        id = job.id;
        parent = job.parent;
        base = job.base;
        type_name = job.type_name;
        state = state;
        wake = wake;
      },
      children,
    )

  -- Each coroutine takes a place among the tasks, so that their bound is fuel enough.
  unfoldable pub expand : (fuel : ℕ) → Job → Walked → Result WalkError Walked
  unfolding decode_job expand_children
  expand zero job s = err out_of_fuel
  expand (suc fuel) job s = do
    guard (ltb (length s.out) max_tasks) (decoder (not_applicable too_many_tasks))
    (node, children) ← lift (decode_job job)
    expand_children (expand fuel) job.id children (record s { out = s.out ++ node ∷ [] })

  unfoldable pub expand_roots : (fuel : ℕ) → List TaskRoot → Walked → Result WalkError Walked
  unfolding expand
  expand_roots fuel [] s = ok s
  expand_roots fuel (r ∷ rs) s = expand fuel (root_job r) s >>= expand_roots fuel rs

  -- The plan, where there is one, finds the roots in the runtime of the target.
  module _ (host : TlsVariant) (plan : Option EnumerationPlan) where
    unfoldable pub planned_roots : Result DecoderError (List TaskRoot)
    unfolding enumerate_roots found_roots
    planned_roots = elim plan [
      | none ↦ err (not_applicable no_roots)
      | some resolved ↦ found_roots (enumerate_roots host resolved view layouts)
    ]

    unfoldable pub effective_roots : List TaskRoot → Result DecoderError (List TaskRoot)
    unfolding planned_roots
    effective_roots [] = planned_roots
    effective_roots (r ∷ rs) = ok (r ∷ rs)

    unfoldable pub enumerate : List TaskRoot → Result WalkError (List DecodedNode)
    unfolding expand_roots max_id effective_roots
    enumerate given = do
      roots ← lift (effective_roots given)
      s ←
          expand_roots (suc max_tasks) roots
            (record { next_id = (max_id roots + 1) % 2 ^ 64; out = [] })
      ok s.out

    unfoldable pub decode_async_tasks : List TaskRoot → Result WalkError TaskTree
    unfolding enumerate task_nodes
    decode_async_tasks roots = enumerate roots >>= λ nodes. lift (try_from_nodes (task_nodes nodes))

    unfoldable pub task_stack : List TaskRoot → (task : ℕ) → Result WalkError (List LogicalFrame)
    unfolding enumerate find_node coroutine_stack
    task_stack roots task = enumerate roots >>= λ nodes.
        lift (find_node task nodes >>= λ n. coroutine_stack view n.base n.type_name layouts)

    unfoldable pub async_wake_cause : List TaskRoot → (task : ℕ) → Result WalkError WakeCause
    unfolding enumerate find_node
    async_wake_cause roots task =
        enumerate roots >>= λ nodes. lift (find_node task nodes >>= λ n. ok n.wake)

    unfoldable pub async_locals : List TaskRoot → (task : ℕ) → Result WalkError (List Variable)
    unfolding enumerate find_node
    async_locals roots task =
        enumerate roots >>= λ nodes. lift (find_node task nodes >>= λ n. ok [])
