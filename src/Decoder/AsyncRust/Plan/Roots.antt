-- ===== src/Decoder/AsyncRust/Plan/Roots.antt =====
-- The roots that a plan finds: how many there can be, and how they are numbered.
use mirrorscope.Prelude.{
  ℕ, suc, ◌+◌, ◌*◌, ◌%◌, ◌^◌, ◌≡◌, ◌≤◌, ◌<◌, arith, refl, Bool, true, false, Option-cases, inl, inr,
  Option, none, some, List, [], ◌∷◌, length, Result, ok, err, ◌>>=◌, Ends, Ends-bind, Ends-guard,
  Ends-weaken, ok_or,
}
use mirrorscope.Prelude.Maps.{Map, insert}
use mirrorscope.Decoder.TaskTree.{DecoderError}
use mirrorscope.Decoder.Frame.{ProcessView}
use mirrorscope.Decoder.AsyncRust.Layout.{AsyncLayouts}
use mirrorscope.Decoder.AsyncRust.Owned.{
  RawTask, out_of_fuel, unreadable_thread, thread_pointer_unavailable, load_base_unavailable,
  no_runtime_handle, max_owned, walk_context,
}
use mirrorscope.Decoder.AsyncRust.Owned.Ends.{Walked, walk_context-Walked}
use mirrorscope.Decoder.AsyncRust.Plan.{
  TaskRoot, TlsVariant, EnumerationPlan, Found, insert_raw, values, load_bias, context_of, found_on,
  wrapping_sub, visit_thread, visit_threads, collect_raw, root_of, coroutine_type, roots_from_raw,
  enumerate_roots,
}

length-insert : (k : ℕ) (t : RawTask) (m : Map RawTask) → length (insert k t m) ≤ suc (length m)
unfolding insert
length-insert k t [] = omega arith
length-insert k t ((j, u) ∷ m) = ground (arith, length-insert k t m)

length-insert_raw :
    (ts : List RawTask) (m : Map RawTask) → length (insert_raw ts m) ≤ length ts + length m
unfolding insert_raw
length-insert_raw [] m = omega arith
length-insert_raw (t ∷ ts) m =
    omega (arith, length-insert_raw ts (insert t.header t m), length-insert t.header t m)

length-values : (m : Map RawTask) → length (values m) ≡ length m
unfolding values
length-values [] = refl
length-values ((k, t) ∷ m) = omega (arith, length-values m)

-- At most `n` tasks are found.
abbrev HasAtMost : ℕ → Found → Type 0
HasAtMost n s = length s.by_header ≤ n

-- The roots have the ids from `n` on.
abbrev pub Numbered : ℕ → List TaskRoot → Type 0
Numbered n [] = Unit
Numbered n (r ∷ rs) = (r.id ≡ n) × Numbered (n + 1) rs

-- The roots are numbered from 1 on, and there are at most 2^20 for each thread.
abbrev pub AreRoots : ProcessView → List TaskRoot → Type 0
AreRoots view rs = Numbered 1 rs × (length rs ≤ length view.thread_ids * max_owned)

module _ (host : TlsVariant) (plan : EnumerationPlan) (view : ProcessView) where
  found_on-HasAtMost :
      (n : ℕ) (walked : Bool × List RawTask) (s : Found)
      → HasAtMost n s
      → Walked view plan.layout [] walked
      → HasAtMost (n + max_owned) (found_on host plan view walked s)
  unfolding found_on
  found_on-HasAtMost n (true, raw) s h w = omega (arith, h, w.0, length-insert_raw raw s.by_header)
  found_on-HasAtMost n (false, raw) s h w = omega (arith, h)

  visit_thread-HasAtMost :
      (n tid : ℕ) (s : Found)
      → HasAtMost n s
      → Ends out_of_fuel (HasAtMost (n + max_owned)) (visit_thread host plan view tid s)
  unfolding visit_thread
  visit_thread-HasAtMost n tid s h = by_pointer (view.thread_pointer tid)
    where
      by_pointer :
          (r : Result DecoderError (Option ℕ))
          → Ends out_of_fuel (HasAtMost (n + max_owned)) (elim r [
            | err e ↦ err (unreadable_thread tid)
            | ok none ↦ ok s
            | ok (some tp) ↦
                walk_context view plan.layout (context_of host plan view tp) [] >>= λ walked.
                ok (found_on host plan view walked s)
          ])
      by_pointer (err e) = ground arith
      by_pointer (ok none) = omega (arith, h)
      by_pointer (ok (some tp)) =
          Ends-bind out_of_fuel (Walked view plan.layout []) (HasAtMost (n + max_owned))
            (walk_context view plan.layout (context_of host plan view tp) []) _
            (walk_context-Walked view plan.layout (context_of host plan view tp) [] (omega arith))
            λ walked _ w. found_on-HasAtMost n walked s h w

  visit_threads-HasAtMost :
      (n : ℕ) (tids : List ℕ) (s : Found)
      → HasAtMost n s
      → Ends out_of_fuel
          (HasAtMost (n + length tids * max_owned))
          (visit_threads host plan view tids s)
  unfolding visit_threads
  visit_threads-HasAtMost n [] s h = omega (arith, h)
  visit_threads-HasAtMost n (tid ∷ tids) s h =
      Ends-bind out_of_fuel (HasAtMost (n + max_owned))
        (HasAtMost (n + length (tid ∷ tids) * max_owned)) (visit_thread host plan view tid s) _
        (visit_thread-HasAtMost n tid s h)
        λ t _ at_most.
          Ends-weaken out_of_fuel (HasAtMost (n + max_owned + length tids * max_owned))
            (HasAtMost (n + length (tid ∷ tids) * max_owned)) _
            (visit_threads-HasAtMost (n + max_owned) tids t at_most) λ u few. omega (arith, few)

  FewRaw : List RawTask → Type 0
  FewRaw raw = length raw ≤ length view.thread_ids * max_owned

  collect_raw-FewRaw : Ends out_of_fuel FewRaw (collect_raw host plan view)
  unfolding collect_raw FewRaw
  collect_raw-FewRaw =
      Ends-bind out_of_fuel (HasAtMost (0 + length view.thread_ids * max_owned)) FewRaw
        (visit_threads host plan view view.thread_ids _) _
        (visit_threads-HasAtMost 0 view.thread_ids _ (omega arith))
        λ s _ few.
          Ends-guard out_of_fuel FewRaw s.any_thread_pointer thread_pointer_unavailable _
            (ground arith)
            λ _.
              Ends-guard out_of_fuel FewRaw s.any_runtime no_runtime_handle _ (ground arith)
                λ _. omega (arith, few, length-values s.by_header)

  roots_from_raw-Numbered :
      (n : ℕ) (raw : List RawTask) (bias : ℕ) (layouts : AsyncLayouts)
      → n + length raw < 2 ^ 64
      → Numbered n (roots_from_raw host plan view n raw bias layouts)
        × (length (roots_from_raw host plan view n raw bias layouts) ≤ length raw)
  unfolding roots_from_raw root_of
  roots_from_raw-Numbered n [] bias layouts small = (tt, omega arith)
  roots_from_raw-Numbered n (task ∷ raw) bias layouts small =
      elim (Option-cases (coroutine_type host plan view bias layouts task)) [
        | inl foreign ↦
            rw (roots_from_raw, foreign)
              (let (numbered, few) =
                  roots_from_raw-Numbered n raw bias layouts (omega (arith, small)) in
                (numbered, omega (arith, few)))
        | inr (type_name, known) ↦
            let wraps : (n + 1) % 2 ^ 64 ≡ n + 1 = omega (arith, small) in
            rw (roots_from_raw, known, wraps)
              (let (numbered, few) =
                  roots_from_raw-Numbered (n + 1) raw bias layouts (omega (arith, small)) in
                ((refl, numbered), omega (arith, few)))
      ]

  Any : ℕ → Type 0
  Any n = Unit

  load_bias-Any : Ends out_of_fuel Any (load_bias host plan view)
  unfolding load_bias Any
  load_bias-Any = by_base view.executable_base
    where
      by_base :
          (base : Option ℕ)
          → Ends out_of_fuel Any (
              ok_or base load_base_unavailable >>= λ b.
              ok (wrapping_sub b plan.facts.min_load_vaddr))
      by_base none = ground arith
      by_base (some b) = tt

  pub enumerate_roots-AreRoots :
      (layouts : AsyncLayouts)
      → length view.thread_ids ≤ 2 ^ 32
      → Ends out_of_fuel (AreRoots view) (enumerate_roots host plan view layouts)
  unfolding enumerate_roots FewRaw load_bias
  enumerate_roots-AreRoots layouts threads =
      Ends-bind out_of_fuel Any (AreRoots view) (load_bias host plan view) _ load_bias-Any
        λ bias _ _.
          Ends-bind out_of_fuel FewRaw (AreRoots view) (collect_raw host plan view) _
            collect_raw-FewRaw
            λ raw _ few.
              let (numbered, fewer) =
                roots_from_raw-Numbered 1 raw bias layouts (omega (arith, few, threads)) in
              (numbered, omega (arith, few, fewer))
