-- ===== src/Decoder/AsyncRust/Owned.antt =====
-- crates/decoder/src/async_rust/enumerate/walk.rs: the tasks that the runtime of tokio owns.
pub mod Ends
use mirrorscope.Prelude.{
  ℕ, zero, suc, ◌+◌, ◌*◌, ◌%◌, ◌^◌, ◌==◌, leb, ltb, if◌then◌else◌, Bool, true, false, Option, none,
  some, List, [], ◌∷◌, ◌++◌, length, Result, ok, err, ◌>>=◌, ◌>>◌, guard,
}
use mirrorscope.Prelude.Bytes.{Bytes, from_le}
use mirrorscope.Decoder.TaskTree.{DecoderError}
use mirrorscope.Decoder.Frame.{ProcessView}

pub record TokioRuntimeLayout : Type 0 where
  pub context_current : ℕ
  pub handle_cell_value : ℕ
  pub arc_data : ℕ
  pub handle_shared : ℕ
  pub shared_owned : ℕ
  pub owned_list : ℕ
  pub sharded_lists : ℕ
  pub shard_stride : ℕ
  pub mutex_data : ℕ
  pub list_head : ℕ
  pub header_vtable : ℕ
  pub vtable_poll : ℕ
  pub vtable_trailer_offset : ℕ
  pub trailer_owned_next : ℕ
  pub future_offset : ℕ

pub record RawTask : Type 0 where
  pub header : ℕ
  pub poll_runtime : ℕ
  pub future : ℕ

pub record TokioVersion : Type 0 where
  pub major : ℕ
  pub minor : ℕ
  pub patch : ℕ

-- `Implausible` is apart by its reasons, and the text of `Parse` is left out. `out_of_fuel` is none
-- of the code's.
pub data EnumerateError : Type 0 where
  unsupported_tokio_version : (version : TokioVersion) → EnumerateError
  tokio_version_unknown context_symbol_missing : EnumerateError
  thread_pointer_unavailable load_base_unavailable : EnumerateError
  unreadable : (addr : ℕ) → EnumerateError
  unreadable_thread : (thread : ℕ) → EnumerateError
  implausible_shards : (len : ℕ) → EnumerateError
  too_many no_runtime_handle no_debug_info unparsable out_of_fuel : EnumerateError

abbrev pub max_shards : ℕ
max_shards = 2 ^ 16

abbrev pub max_owned : ℕ
max_owned = 2 ^ 20

-- Sums of addresses wrap, as in a build without overflow checks.
abbrev pub plus : ℕ → ℕ → ℕ
plus a b = (a + b) % 2 ^ 64

infixl 40 ◌⊕◌
abbrev pub ◌⊕◌ : ℕ → ℕ → ℕ
a ⊕ b = plus a b

unfoldable pub read : ProcessView → ℕ → Result EnumerateError ℕ
read view addr = elim (view.read_memory addr 8) [
  | err e ↦ err (unreadable addr)
  | ok bytes ↦ if length bytes == 8 then ok (from_le bytes) else err (unreadable addr)
]

module _ (view : ProcessView) (layout : TokioRuntimeLayout) where
  open layout use {
    context_current, handle_cell_value, arc_data, handle_shared, shared_owned, owned_list,
    sharded_lists, shard_stride, mutex_data, list_head, header_vtable, vtable_poll,
    vtable_trailer_offset, trailer_owned_next, future_offset,
  }

  unfoldable pub owned_tasks_addr : ℕ → Result EnumerateError (Option ℕ)
  unfolding read
  owned_tasks_addr context_addr =
      read view (context_addr ⊕ context_current ⊕ handle_cell_value) >>= λ arc_ptr.
      ok (if arc_ptr == 0 then none else some (arc_ptr ⊕ arc_data ⊕ handle_shared ⊕ shared_owned))

  -- The task of a header, and the header behind it in the list.
  unfoldable pub read_task : ℕ → Result EnumerateError (RawTask × ℕ)
  unfolding read
  read_task node = do
    vtable ← read view (node ⊕ header_vtable)
    poll_runtime ← read view (vtable ⊕ vtable_poll)
    trailer_offset ← read view (vtable ⊕ vtable_trailer_offset)
    following ← read view (node ⊕ trailer_offset ⊕ trailer_owned_next)
    ok (
      record { header = node; poll_runtime = poll_runtime; future = node ⊕ future_offset },
      following,
    )

  -- A shard's list from `node` on. Each round adds a task, so that their bound is fuel enough.
  unfoldable pub walk_shard :
      (fuel : ℕ) → (node : ℕ) → List RawTask → Result EnumerateError (List RawTask)
  unfolding read_task
  walk_shard zero node out = err out_of_fuel
  walk_shard (suc fuel) node out =
      let visit : Result EnumerateError (List RawTask) =
        guard (ltb (length out) max_owned) too_many
        >> (read_task node >>= λ (task, following). walk_shard fuel following (out ++ task ∷ [])) in
      if node == 0 then ok out else visit

  -- The shards from `shard` on, `count` of them.
  unfoldable pub walk_shards :
      (data_ptr shard count : ℕ) → List RawTask → Result EnumerateError (List RawTask)
  unfolding read walk_shard
  walk_shards data_ptr shard zero out = ok out
  walk_shards data_ptr shard (suc count) out = do
    head ← read view (data_ptr ⊕ (shard * shard_stride) % 2 ^ 64 ⊕ mutex_data ⊕ list_head)
    more ← walk_shard (suc (suc max_owned)) head out
    walk_shards data_ptr (shard + 1) count more

  unfoldable pub collect_from_owned : ℕ → List RawTask → Result EnumerateError (List RawTask)
  unfolding read walk_shards
  collect_from_owned owned out = do
    let list = owned ⊕ owned_list
    data_ptr ← read view (list ⊕ sharded_lists)
    len ← read view (list ⊕ sharded_lists ⊕ 8)
    guard (leb len max_shards) (implausible_shards len)
    walk_shards data_ptr 0 len out

  -- Whether the thread holds a runtime, and the tasks with those it owns.
  unfoldable pub walk_context : ℕ → List RawTask → Result EnumerateError (Bool × List RawTask)
  unfolding owned_tasks_addr collect_from_owned
  walk_context context_addr out = owned_tasks_addr context_addr >>= λ owned. elim owned [
    | some addr ↦ collect_from_owned addr out >>= λ tasks. ok (true, tasks)
    | none ↦ ok (false, out)
  ]
