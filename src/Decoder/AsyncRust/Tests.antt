-- ===== src/Decoder/AsyncRust/Tests.antt =====
-- The theorems about async tasks at a coroutine that waits for two others, and at a runtime that
-- owns two tasks.
use mirrorscope.Prelude.{
  ℕ, ◌≡◌, ◌<◌, ◌^◌, refl, arith, none, some, List, [], ◌∷◌, ok, err, take, Option, true, Ends,
}
use mirrorscope.Prelude.Bytes.{Bytes, le_bytes}
use mirrorscope.Prelude.Maps.{Map, lookup}
use mirrorscope.Prelude.Text.{codes}
use mirrorscope.Decoder.TaskTree as Model
use mirrorscope.Decoder.TaskTree.{memory_read_failed}
use mirrorscope.Decoder.Frame.{ProcessView}
use mirrorscope.Decoder.AsyncRust.Layout.{
  AsyncLayouts, VariantInfo, unresumed, returned, suspend, terminal,
}
use mirrorscope.Decoder.AsyncRust.Owned.{TokioRuntimeLayout, out_of_fuel, walk_context}
use mirrorscope.Decoder.AsyncRust.Owned.Ends.{Walked, walk_context-Walked}
use mirrorscope.Decoder.AsyncRust.Plan.{TaskRoot, EnumerationPlan, variant_i}
use mirrorscope.Decoder.AsyncRust.Tasks.{DecodedNode, enumerate, max_id, decode_async_tasks}
use mirrorscope.Decoder.AsyncRust.Tasks.Tree.{Settles, decode_async_tasks-Settles}

-- A process of which only the memory is read.
abbrev with_memory : Map Bytes → ProcessView
with_memory memory = record {
  thread_ids = [];
  registers = λ thread. err (Model.register_read_failed thread);
  read_memory = λ addr len. elim (lookup addr memory) [
    | none ↦ err (memory_read_failed addr len)
    | some bytes ↦ ok (take len bytes)
  ];
  physical_frames = λ thread. err (Model.physical_frames_failed thread);
  thread_pointer = λ thread. ok none;
  executable_base = none;
}

abbrev work_type : Bytes
work_type = codes "app::work::{async_fn_env#0}"

abbrev main_type : Bytes
main_type = codes "app::main::{async_fn_env#0}"

abbrev joining : VariantInfo
joining = record {
  kind = suspend 0;
  await_location = none;
  awaitee = some (record { offset = 8; type_name = codes "tokio::time::Sleep" });
  children =
      record { offset = 16; type_name = work_type }
      ∷ record { offset = 32; type_name = work_type }
      ∷ [];
}

abbrev layouts : AsyncLayouts
layouts =
    record {
      type_name = main_type;
      byte_size = 48;
      discr_offset = 0;
      discr_size = 1;
      variants = (0, terminal unresumed) ∷ (3, joining) ∷ [];
    }
    ∷ record {
      type_name = work_type;
      byte_size = 16;
      discr_offset = 0;
      discr_size = 1;
      variants = (0, terminal unresumed) ∷ (1, terminal returned) ∷ [];
    }
    ∷ []

-- The coroutine is suspended, its first child is not started and its second has returned.
abbrev stopped : ProcessView
stopped = with_memory ((0x100, 3 ∷ []) ∷ (0x110, 0 ∷ []) ∷ (0x120, 1 ∷ []) ∷ [])

abbrev roots : List TaskRoot
roots = record { id = 7; base = 0x100; type_name = main_type; header_addr = none } ∷ []

abbrev no_plan : Option EnumerationPlan
no_plan = none

ids : List DecodedNode → List ℕ
ids [] = []
ids (n ∷ ns) = n.id ∷ ids ns

-- Offsets of a small runtime.
abbrev runtime : TokioRuntimeLayout
runtime = record {
  context_current = 8;
  handle_cell_value = 8;
  arc_data = 16;
  handle_shared = 0;
  shared_owned = 104;
  owned_list = 0;
  sharded_lists = 0;
  shard_stride = 24;
  mutex_data = 8;
  list_head = 0;
  header_vtable = 16;
  vtable_poll = 0;
  vtable_trailer_offset = 56;
  trailer_owned_next = 8;
  future_offset = 56;
}

-- One shard, whose list has a task at 0x1000 and one at 0x2000.
abbrev owned_memory : Map Bytes
owned_memory =
    (0x110, le_bytes 8 0x500)
    ∷ (0x578, le_bytes 8 0x600)
    ∷ (0x580, le_bytes 8 1)
    ∷ (0x608, le_bytes 8 0x1000)
    ∷ (0x1010, le_bytes 8 0x900)
    ∷ (0x900, le_bytes 8 0xabc)
    ∷ (0x938, le_bytes 8 0x80)
    ∷ (0x1088, le_bytes 8 0x2000)
    ∷ (0x2010, le_bytes 8 0x900)
    ∷ (0x2088, le_bytes 8 0)
    ∷ []

abbrev owning : ProcessView
owning = with_memory owned_memory

walk_context-Walked_example :
    Ends out_of_fuel (Walked owning runtime []) (walk_context owning runtime 0x100 [])
walk_context-Walked_example = walk_context-Walked owning runtime 0x100 [] (omega arith)

two_owned :
    walk_context owning runtime 0x100 []
    ≡ ok (
      true,
      record { header = 0x1000; poll_runtime = 0xabc; future = 0x1038 }
          ∷ record { header = 0x2000; poll_runtime = 0xabc; future = 0x2038 }
          ∷ [],
    )
unfolding walk_context lookup
two_owned = refl

three_nodes :
    elim (enumerate stopped layouts variant_i no_plan roots) [ ok ns ↦ ids ns | err e ↦ [] ]
    ≡ 7 ∷ 8 ∷ 9 ∷ []
unfolding enumerate lookup ids terminal
three_nodes = refl

-- The same runtime, with two coroutines for its futures and a plan that finds it.
abbrev enumerable : ProcessView
enumerable =
    record (with_memory (
      (0x1038, 0 ∷ [])
      ∷ (0x2038, 1 ∷ [])
      ∷ (0x1000, le_bytes 8 4)
      ∷ (0x2000, le_bytes 8 2)
      ∷ owned_memory)) {
        thread_ids = 1 ∷ [];
        thread_pointer = λ thread. ok (some 0xf0);
        executable_base = some 0;
      }

abbrev plan : EnumerationPlan
plan = record {
  facts = record {
    version = record { major = 1; minor = 44; patch = 2 };
    context_tls_offset = 0;
    tls_align = 8;
    tls_block_size = 0;
    min_load_vaddr = 0;
    poll_types = (0xabc, work_type) ∷ [];
  };
  layout = runtime;
}

two_planned :
    elim (enumerate enumerable layouts variant_i (some plan) []) [ ok ns ↦ ids ns | err e ↦ [] ]
    ≡ 1 ∷ 2 ∷ []
unfolding enumerate lookup ids terminal
two_planned = refl

small : max_id [] < 2 ^ 63
unfolding max_id
small = omega arith

decode_async_tasks-Settles_example :
    Settles
      (enumerate enumerable layouts variant_i (some plan) [])
      (decode_async_tasks enumerable layouts variant_i (some plan) [])
decode_async_tasks-Settles_example =
    decode_async_tasks-Settles enumerable layouts variant_i (some plan) [] tt small (omega arith)
