-- ===== src/Decoder/AsyncRust/Plan.antt =====
-- crates/decoder/src/async_rust/enumerate: the roots that a plan finds in the runtime (mod.rs), the
-- addresses of thread-local variables (tls.rs), and the facts of a binary (dwarf.rs).
pub mod Roots
use mirrorscope.Prelude.{
  ℕ, ◌+◌, ◌-◌, ◌*◌, ◌/◌, ◌%◌, ◌^◌, ◌==◌, leb, ltb, if◌then◌else◌, Bool, true, false, ◌||◌, Option,
  none, some, List, [], ◌∷◌, ◌++◌, length, Result, ok, err, ◌>>=◌, ◌>>◌, ok_or, guard,
}
use mirrorscope.Prelude.Bytes.{Bytes}
use mirrorscope.Prelude.Maps.{Map, insert}
use mirrorscope.Decoder.Frame.{ProcessView}
use mirrorscope.Decoder.AsyncRust.Layout.{AsyncLayouts, is_coroutine}
use mirrorscope.Decoder.AsyncRust.Owned.{
  TokioVersion, TokioRuntimeLayout, RawTask, EnumerateError, unreadable_thread,
  thread_pointer_unavailable, load_base_unavailable, no_runtime_handle, walk_context,
}

pub record TaskRoot : Type 0 where
  pub id : ℕ
  pub base : ℕ
  pub type_name : Bytes
  pub header_addr : Option ℕ

pub record BinaryFacts : Type 0 where
  pub version : TokioVersion
  pub context_tls_offset : ℕ
  pub tls_align : ℕ
  pub tls_block_size : ℕ
  pub min_load_vaddr : ℕ
  pub poll_types : List (ℕ × Bytes)

unfoldable pub find_type : ℕ → List (ℕ × Bytes) → Option Bytes
find_type addr [] = none
find_type addr ((a, name) ∷ types) =
    let rest = find_type addr types in if a == addr then some name else rest

unfoldable pub future_type_for : BinaryFacts → (static_addr : ℕ) → Option Bytes
unfolding find_type
future_type_for facts static_addr = find_type static_addr facts.poll_types

unfoldable pub poll_type_count : BinaryFacts → ℕ
poll_type_count facts = length facts.poll_types

pub data TlsVariant : Type 0 where
  variant_i variant_ii : TlsVariant

abbrev pub wrapping_add : ℕ → ℕ → ℕ
wrapping_add a b = (a + b) % 2 ^ 64

abbrev pub wrapping_sub : ℕ → ℕ → ℕ
wrapping_sub a b = (a + (2 ^ 64 - b % 2 ^ 64)) % 2 ^ 64

abbrev max : ℕ → ℕ → ℕ
max a b = if ltb a b then b else a

unfoldable pub align_up : (value align : ℕ) → ℕ
align_up value align =
    if leb align 1 then value else ((value + (align - 1)) / align * align) % 2 ^ 64

abbrev aarch64_tcb_size : ℕ
aarch64_tcb_size = 16

unfoldable pub static_tls_address :
    TlsVariant → (thread_pointer tls_offset tls_align block_size : ℕ) → ℕ
unfolding align_up
static_tls_address variant_i thread_pointer tls_offset tls_align block_size =
    wrapping_add (wrapping_add thread_pointer (align_up aarch64_tcb_size (max tls_align 1)))
      tls_offset
static_tls_address variant_ii thread_pointer tls_offset tls_align block_size =
    wrapping_add (wrapping_sub thread_pointer (align_up block_size (max tls_align 1))) tls_offset

pub record EnumerationPlan : Type 0 where
  pub facts : BinaryFacts
  pub layout : TokioRuntimeLayout

-- What the loop over the threads has found.
pub record Found : Type 0 where
  pub by_header : Map RawTask
  pub any_thread_pointer : Bool
  pub any_runtime : Bool

unfoldable pub insert_raw : List RawTask → Map RawTask → Map RawTask
unfolding insert
insert_raw [] m = m
insert_raw (t ∷ ts) m = insert_raw ts (insert t.header t m)

unfoldable pub values : Map RawTask → List RawTask
values [] = []
values ((header, t) ∷ m) = t ∷ values m

-- `host` is the TLS variant of the architecture.
module _ (host : TlsVariant) (plan : EnumerationPlan) (view : ProcessView) where
  unfoldable pub load_bias : Result EnumerateError ℕ
  load_bias = ok_or view.executable_base load_base_unavailable >>= λ base.
      ok (wrapping_sub base plan.facts.min_load_vaddr)

  unfoldable pub context_of : (thread_pointer : ℕ) → ℕ
  unfolding static_tls_address
  context_of thread_pointer =
      static_tls_address host thread_pointer plan.facts.context_tls_offset plan.facts.tls_align
        plan.facts.tls_block_size

  unfoldable pub found_on : Bool × List RawTask → Found → Found
  unfolding insert_raw
  found_on (true, raw) s = record {
    by_header = insert_raw raw s.by_header;
    any_thread_pointer = true;
    any_runtime = true;
  }
  found_on (false, raw) s = record s { any_thread_pointer = true }

  unfoldable pub visit_thread : ℕ → Found → Result EnumerateError Found
  unfolding walk_context context_of found_on
  visit_thread tid s = elim (view.thread_pointer tid) [
    | err e ↦ err (unreadable_thread tid)
    | ok none ↦ ok s
    | ok (some tp) ↦
        walk_context view plan.layout (context_of tp) [] >>= λ walked. ok (found_on walked s)
  ]

  unfoldable pub visit_threads : List ℕ → Found → Result EnumerateError Found
  unfolding visit_thread
  visit_threads [] s = ok s
  visit_threads (tid ∷ tids) s = visit_thread tid s >>= visit_threads tids

  unfoldable pub collect_raw : Result EnumerateError (List RawTask)
  unfolding visit_threads values
  collect_raw = do
    s ←
        visit_threads view.thread_ids
          (record { by_header = []; any_thread_pointer = false; any_runtime = false })
    guard s.any_thread_pointer thread_pointer_unavailable
    guard s.any_runtime no_runtime_handle
    ok (values s.by_header)

  unfoldable pub root_of : (id : ℕ) → RawTask → (type_name : Bytes) → TaskRoot
  root_of id task type_name = record {
    id = id;
    base = task.future;
    type_name = type_name;
    header_addr = some task.header;
  }

  unfoldable pub coroutine_type : (bias : ℕ) → AsyncLayouts → RawTask → Option Bytes
  unfolding future_type_for is_coroutine
  coroutine_type bias layouts task =
      elim (future_type_for plan.facts (wrapping_sub task.poll_runtime bias)) [
        | none ↦ none
        | some type_name ↦ if is_coroutine type_name layouts then some type_name else none
      ]

  unfoldable pub roots_from_raw :
      (next_id : ℕ) → List RawTask → (bias : ℕ) → AsyncLayouts → List TaskRoot
  unfolding root_of coroutine_type
  roots_from_raw next_id [] bias layouts = []
  roots_from_raw next_id (task ∷ raw) bias layouts = elim (coroutine_type bias layouts task) [
    | none ↦ roots_from_raw next_id raw bias layouts
    | some type_name ↦
        root_of next_id task type_name ∷ roots_from_raw ((next_id + 1) % 2 ^ 64) raw bias layouts
  ]

  unfoldable pub enumerate_roots : AsyncLayouts → Result EnumerateError (List TaskRoot)
  unfolding load_bias collect_raw roots_from_raw
  enumerate_roots layouts = do
    bias ← load_bias
    raw ← collect_raw
    ok (roots_from_raw 1 raw bias layouts)
