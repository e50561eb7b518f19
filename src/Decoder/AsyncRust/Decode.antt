-- ===== src/Decoder/AsyncRust/Decode.antt =====
-- crates/decoder/src/async_rust/decode.rs: one coroutine in memory, its state and its stack.
use mirrorscope.Prelude.{
  ℕ, zero, suc, ◌+◌, ◌%◌, ◌^◌, if◌then◌else◌, not, Option, none, some, List, [], ◌∷◌, take, Result,
  ok, ◌>>=◌, ok_or,
}
use mirrorscope.Prelude.Bytes.{Bytes, from_le}
use mirrorscope.Decoder.TaskTree as Model
use mirrorscope.Decoder.TaskTree.{
  TaskState, DecoderError, not_applicable, no_variant, no_layout, blocked, runnable, running,
  completed,
}
use mirrorscope.Decoder.Frame as Frame
use mirrorscope.Decoder.Frame.{ProcessView, LogicalFrame, SuspendPoint, WakeCause, synthesized}
use mirrorscope.Decoder.AsyncRust.Layout.{
  AsyncFnLayout, AsyncLayouts, ChildRef, VariantInfo, variant_for, short_name, get_layout,
  is_suspend,
}
use mirrorscope.Decoder.AsyncRust.State.{
  LeafClass, classify_header_state, state_from_variant, classify_leaf, short_type,
}

abbrev pub max_await_depth : ℕ
max_await_depth = 64

-- Addresses wrap, as in a build without overflow checks.
abbrev pub at_offset : ℕ → ℕ → ℕ
at_offset base offset = (base + offset) % 2 ^ 64

-- A discriminant has at most 8 bytes.
unfoldable pub read_discriminant : ProcessView → ℕ → AsyncFnLayout → Result DecoderError ℕ
read_discriminant view base layout =
    view.read_memory (at_offset base layout.discr_offset) layout.discr_size >>= λ bytes.
    ok (from_le bytes)

unfoldable pub active_variant : ProcessView → ℕ → AsyncFnLayout → Result DecoderError VariantInfo
unfolding read_discriminant variant_for
active_variant view base layout = do
  discr ← read_discriminant view base layout
  ok_or (variant_for layout discr) (not_applicable (no_variant discr))

-- The chain of awaited futures, for `depth` more steps.
unfoldable pub leaf_from :
    (depth : ℕ)
    → ProcessView
    → AsyncLayouts
    → ℕ
    → AsyncFnLayout
    → Result DecoderError (Option Bytes)
unfolding active_variant get_layout
leaf_from zero view layouts base layout = ok none
leaf_from (suc depth) view layouts base layout = active_variant view base layout >>= λ variant.
    elim variant.awaitee [
      | none ↦ ok none
      | some awaitee ↦ elim (get_layout awaitee.type_name layouts) [
        | some next ↦ leaf_from depth view layouts (at_offset base awaitee.offset) next
        | none ↦ ok (some awaitee.type_name)
      ]
    ]

unfoldable pub leaf_type :
    ProcessView → ℕ → AsyncFnLayout → AsyncLayouts → Result DecoderError (Option Bytes)
unfolding leaf_from
leaf_type view base layout layouts = leaf_from max_await_depth view layouts base layout

-- A word of at most 8 bytes.
unfoldable pub read_usize : Bytes → ℕ
read_usize bytes = from_le (take 8 bytes)

unfoldable pub base_state : ProcessView → Option ℕ → VariantInfo → Result DecoderError TaskState
unfolding classify_header_state state_from_variant read_usize
base_state view (some addr) variant =
    view.read_memory addr 8 >>= λ bytes. ok (classify_header_state (read_usize bytes))
base_state view none variant = ok (state_from_variant variant.kind)

-- A blocked state gets the reason of the leaf.
unfoldable pub refine_state :
    Result DecoderError (Option Bytes) → TaskState → Result DecoderError TaskState
unfolding classify_leaf
refine_state leaf (blocked on) = leaf >>= λ found. elim found [
  | some name ↦ ok (blocked (classify_leaf name).block)
  | none ↦ ok (blocked Model.unknown)
]
refine_state leaf runnable = ok runnable
refine_state leaf running = ok running
refine_state leaf completed = ok completed

unfoldable pub task_state :
    ProcessView
    → ℕ
    → AsyncFnLayout
    → AsyncLayouts
    → (header_addr : Option ℕ) → Result DecoderError TaskState
unfolding active_variant base_state refine_state leaf_type
task_state view base layout layouts header_addr = do
  variant ← active_variant view base layout
  state ← base_state view header_addr variant
  refine_state (leaf_type view base layout layouts) state

unfoldable pub coroutine_wake_cause :
    ProcessView → ℕ → AsyncFnLayout → AsyncLayouts → Result DecoderError WakeCause
unfolding leaf_type classify_leaf
coroutine_wake_cause view base layout layouts = leaf_type view base layout layouts >>= λ leaf.
    elim leaf [ some name ↦ ok (classify_leaf name).wake | none ↦ ok Frame.unknown ]

unfoldable pub child_addresses : ℕ → List ChildRef → List (ℕ × Bytes)
child_addresses base [] = []
child_addresses base (c ∷ cs) = (at_offset base c.offset, c.type_name) ∷ child_addresses base cs

unfoldable pub fan_out_children :
    ProcessView → ℕ → AsyncFnLayout → Result DecoderError (List (ℕ × Bytes))
unfolding active_variant child_addresses
fan_out_children view base layout =
    active_variant view base layout >>= λ variant. ok (child_addresses base variant.children)

unfoldable pub coroutine_frame : AsyncFnLayout → VariantInfo → Option SuspendPoint → LogicalFrame
unfolding short_name
coroutine_frame layout variant suspend = record {
  display_name = short_name layout;
  location = variant.await_location;
  suspend = suspend;
  origin = synthesized;
}

unfoldable pub leaf_suspend : LeafClass → ChildRef → SuspendPoint
unfolding short_type
leaf_suspend leaf child = record { kind = leaf.suspend; detail = some (short_type child.type_name) }

unfoldable pub leaf_frame : ChildRef → LeafClass → LogicalFrame
unfolding short_type leaf_suspend
leaf_frame child leaf = record {
  display_name = short_type child.type_name;
  location = none;
  suspend = some (leaf_suspend leaf child);
  origin = synthesized;
}

-- The frames of the chain, for `depth` more coroutines.
unfoldable pub stack_from :
    (depth : ℕ)
    → ProcessView
    → AsyncLayouts
    → ℕ
    → (type_name : Bytes) → Result DecoderError (List LogicalFrame)
unfolding active_variant get_layout coroutine_frame leaf_suspend leaf_frame classify_leaf is_suspend
stack_from zero view layouts base type_name = ok []
stack_from (suc depth) view layouts base type_name = do
  layout ← ok_or (get_layout type_name layouts) (not_applicable (no_layout type_name))
  variant ← active_variant view base layout
  if not (is_suspend variant.kind)
      then ok (coroutine_frame layout variant none ∷ [])
      else elim variant.awaitee [
        | none ↦ ok (coroutine_frame layout variant none ∷ [])
        | some child ↦ elim (get_layout child.type_name layouts) [
          | some nested ↦
              stack_from depth view layouts (at_offset base child.offset) child.type_name
              >>= λ frames. ok (
                  coroutine_frame layout variant (
                    some
                      (record { kind = Frame.other; detail = some (short_type child.type_name) }))
                  ∷ frames)
          | none ↦
              let leaf = classify_leaf child.type_name in
              ok (
                coroutine_frame layout variant (some (leaf_suspend leaf child))
                ∷ leaf_frame child leaf
                ∷ [])
        ]
      ]

unfoldable pub coroutine_stack :
    ProcessView → ℕ → (type_name : Bytes) → AsyncLayouts → Result DecoderError (List LogicalFrame)
unfolding stack_from
coroutine_stack view base type_name layouts = stack_from max_await_depth view layouts base type_name
