-- ===== src/Decoder/AsyncRust/Owned/Ends.antt =====
-- What the walk over the tasks of a runtime returns, and that its fuel is enough.
use mirrorscope.Prelude.{
  ℕ, zero, suc, ◌+◌, ◌%◌, ◌^◌, ◌*◌, ◌≡◌, ◌≢◌, ◌≤◌, arith, refl, ◌==◌, leb, ltb, if◌then◌else◌, Bool,
  true, sym, ap, ◌∙◌, ◌<◌, false, Option, none, some, List, [], ◌∷◌, ◌++◌, length, length-append,
  All, All-append, Result, ok, err, ◌>>=◌, Ends, Ends-bind, Ends-guard, Ends-if, Ends-weaken,
}
use mathlib.Core.List.{append-nil, append_assoc}
use mirrorscope.Prelude.Bytes.{Bytes, from_le}
use mirrorscope.Decoder.TaskTree.{DecoderError}
use mirrorscope.Decoder.Frame.{ProcessView}
use mirrorscope.Decoder.AsyncRust.Owned.{
  TokioRuntimeLayout, RawTask, unreadable, implausible_shards, too_many, out_of_fuel, max_owned,
  max_shards, ◌⊕◌, read, owned_tasks_addr, read_task, walk_shard, walk_shards, collect_from_owned,
  walk_context,
}

Always : ℕ → Type 0
Always n = Unit

read-Ends : (view : ProcessView) (addr : ℕ) → Ends out_of_fuel Always (read view addr)
unfolding read Always
read-Ends view addr = by_bytes (view.read_memory addr 8)
  where
    by_bytes :
        (r : Result DecoderError Bytes)
        → Ends out_of_fuel Always (elim r [
          | err e ↦ err (unreadable addr)
          | ok bytes ↦ if length bytes == 8 then ok (from_le bytes) else err (unreadable addr)
        ])
    by_bytes (err e) = ground arith
    by_bytes (ok bytes) =
        Ends-if out_of_fuel Always (length bytes == 8) (ok (from_le bytes)) (err (unreadable addr))
          (λ _. tt) λ _. ground arith

module _ (view : ProcessView) (layout : TokioRuntimeLayout) where
  -- A task whose header is `node`.
  IsTaskAt : ℕ → RawTask × ℕ → Type 0
  IsTaskAt node (t, following) = (t.header ≡ node) × (t.future ≡ node ⊕ layout.future_offset)

  read_task-IsTaskAt : (node : ℕ) → Ends out_of_fuel (IsTaskAt node) (read_task view layout node)
  unfolding read_task IsTaskAt
  read_task-IsTaskAt node =
      Ends-bind out_of_fuel Always (IsTaskAt node) (read view (node ⊕ layout.header_vtable)) _
        (read-Ends view (node ⊕ layout.header_vtable))
        λ vtable _ _.
          Ends-bind out_of_fuel Always (IsTaskAt node) (read view (vtable ⊕ layout.vtable_poll)) _
            (read-Ends view (vtable ⊕ layout.vtable_poll))
            λ poll _ _.
              Ends-bind out_of_fuel Always (IsTaskAt node)
                (read view (vtable ⊕ layout.vtable_trailer_offset)) _
                (read-Ends view (vtable ⊕ layout.vtable_trailer_offset))
                λ trailer _ _.
                  Ends-bind out_of_fuel Always (IsTaskAt node)
                    (read view (node ⊕ trailer ⊕ layout.trailer_owned_next)) _
                    (read-Ends view (node ⊕ trailer ⊕ layout.trailer_owned_next))
                    λ following _ _. (refl, refl)

  -- A header that is not null, and the future at its offset behind it.
  abbrev pub IsOwned : RawTask → Type 0
  IsOwned t = (t.header ≢ 0) × (t.future ≡ t.header ⊕ layout.future_offset)

  -- The tasks of before, then those found.
  abbrev pub Collected : List RawTask → List RawTask → Type 0
  Collected out ts =
      (length ts ≤ max_owned) × (found : List RawTask) × (ts ≡ out ++ found) × All IsOwned found

  Collected-nil : (out : List RawTask) → length out ≤ max_owned → Collected out out
  Collected-nil out few = (few, [], sym (append-nil out), tt)

  Collected-cons :
      (out ts : List RawTask) (t : RawTask)
      → IsOwned t
      → Collected (out ++ t ∷ []) ts
      → Collected out ts
  Collected-cons out ts t is (few, found, same, all) =
      (few, t ∷ found, same ∙ append_assoc out (t ∷ []) found, (is, all))

  IsOwned-at :
      (node : ℕ) (t : RawTask)
      → node == 0 ≡ false
      → t.header ≡ node
      → t.future ≡ node ⊕ layout.future_offset
      → IsOwned t
  IsOwned-at node t found header future = (ground (arith, found, header), rw header future)

  walk_shard-Collected :
      (fuel node : ℕ) (out : List RawTask)
      → length out ≤ max_owned
      → suc max_owned < length out + fuel
      → Ends out_of_fuel (Collected out) (walk_shard view layout fuel node out)
  unfolding walk_shard IsTaskAt
  walk_shard-Collected zero node out few fuel = absurd (omega (arith, few, fuel))
  walk_shard-Collected (suc fuel) node out few enough =
      Ends-if out_of_fuel (Collected out) (node == 0) (ok out) _ (λ _. Collected-nil out few)
        λ found.
          Ends-guard out_of_fuel (Collected out) (ltb (length out) max_owned) too_many _
            (ground arith)
            λ room.
              Ends-bind out_of_fuel (IsTaskAt node) (Collected out) (read_task view layout node) _
                (read_task-IsTaskAt node)
                λ (t, following) _ (header, future).
                  Ends-weaken out_of_fuel (Collected (out ++ t ∷ [])) (Collected out) _
                    (walk_shard-Collected fuel following (out ++ t ∷ [])
                      (ground (arith, room, length-append out (t ∷ [])))
                      (omega (arith, enough, length-append out (t ∷ []))))
                    λ ts. Collected-cons out ts t (IsOwned-at node t found header future)

  Collected-trans :
      (out more ts : List RawTask) → Collected out more → Collected more ts → Collected out ts
  Collected-trans out more ts (_, found, is, all) (few, later, behind, rest) = (
    few,
    found ++ later,
    behind ∙ ap (λ xs. xs ++ later) is ∙ append_assoc out found later,
    All-append IsOwned found later all rest,
  )

  walk_shards-Collected :
      (data_ptr shard count : ℕ) (out : List RawTask)
      → length out ≤ max_owned
      → Ends out_of_fuel (Collected out) (walk_shards view layout data_ptr shard count out)
  unfolding walk_shards
  walk_shards-Collected data_ptr shard zero out few = Collected-nil out few
  walk_shards-Collected data_ptr shard (suc count) out few =
      let at =
        data_ptr ⊕ (shard * layout.shard_stride) % 2 ^ 64 ⊕ layout.mutex_data ⊕ layout.list_head in
      Ends-bind out_of_fuel Always (Collected out) (read view at) _ (read-Ends view at) λ head _ _.
        Ends-bind out_of_fuel (Collected out) (Collected out)
          (walk_shard view layout (suc (suc max_owned)) head out) _
          (walk_shard-Collected (suc (suc max_owned)) head out few (omega arith))
          λ more _ c.
            Ends-weaken out_of_fuel (Collected more) (Collected out) _
              (walk_shards-Collected data_ptr (shard + 1) count more c.0)
              λ ts. Collected-trans out more ts c

  collect_from_owned-Collected :
      (owned : ℕ) (out : List RawTask)
      → length out ≤ max_owned
      → Ends out_of_fuel (Collected out) (collect_from_owned view layout owned out)
  unfolding collect_from_owned Always
  collect_from_owned-Collected owned out few =
      let list = owned ⊕ layout.owned_list in
      Ends-bind out_of_fuel Always (Collected out) (read view (list ⊕ layout.sharded_lists)) _
        (read-Ends view (list ⊕ layout.sharded_lists))
        λ data_ptr _ _.
          Ends-bind out_of_fuel Always (Collected out) (read view (list ⊕ layout.sharded_lists ⊕ 8))
            _ (read-Ends view (list ⊕ layout.sharded_lists ⊕ 8))
            λ len _ _.
              Ends-guard out_of_fuel (Collected out) (leb len max_shards) (implausible_shards len) _
                (ground arith) λ _. walk_shards-Collected data_ptr 0 len out few

  -- Without a runtime the tasks are those of before.
  abbrev pub Walked : List RawTask → Bool × List RawTask → Type 0
  Walked out (true, ts) = Collected out ts
  Walked out (false, ts) = ts ≡ out

  MaybeAddr : Option ℕ → Type 0
  MaybeAddr owned = Unit

  owned_tasks_addr-Ends :
      (context_addr : ℕ) → Ends out_of_fuel MaybeAddr (owned_tasks_addr view layout context_addr)
  unfolding owned_tasks_addr MaybeAddr
  owned_tasks_addr-Ends context_addr =
      let at = context_addr ⊕ layout.context_current ⊕ layout.handle_cell_value in
      Ends-bind out_of_fuel Always MaybeAddr (read view at) _ (read-Ends view at) λ arc_ptr _ _. tt

  walk_from :
      (owned : Option ℕ) (out : List RawTask)
      → length out ≤ max_owned
      → Ends out_of_fuel (Walked out) (elim owned [
        | some addr ↦ collect_from_owned view layout addr out >>= λ tasks. ok (true, tasks)
        | none ↦ ok (false, out)
      ])
  walk_from none out few = refl
  walk_from (some addr) out few =
      Ends-bind out_of_fuel (Collected out) (Walked out) (collect_from_owned view layout addr out) _
        (collect_from_owned-Collected addr out few) λ tasks _ c. c

  -- Whatever the memory holds, a list that is a cycle included, the walk ends: it fails with one of
  -- its errors, or it answers the tasks of before, and behind them those found, each with a header
  -- that is not null and the future at its offset behind the header. There are at most 2^20 in all,
  -- if there were not more before, and none is added where the thread holds no runtime.
  pub walk_context-Walked :
      (context_addr : ℕ) (out : List RawTask)
      → length out ≤ max_owned
      → Ends out_of_fuel (Walked out) (walk_context view layout context_addr out)
  unfolding walk_context
  walk_context-Walked context_addr out few =
      Ends-bind out_of_fuel MaybeAddr (Walked out) (owned_tasks_addr view layout context_addr) _
        (owned_tasks_addr-Ends context_addr) λ owned _ _. walk_from owned out few
