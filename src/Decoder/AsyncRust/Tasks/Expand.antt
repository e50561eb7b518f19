-- ===== src/Decoder/AsyncRust/Tasks/Expand.antt =====
-- A coroutine and its children: what `expand` keeps of the nodes, and that its fuel is enough.
use mirrorscope.Prelude.{
  ℕ, zero, suc, ◌+◌, ◌%◌, ◌^◌, ◌≡◌, ◌≤◌, ◌<◌, arith, refl, sym, subst, ltb, true, false, none, some,
  List, [], ◌∷◌, ◌++◌, length, length-append, Result, ok, err, Ends, Ends-bind, Ends-guard,
  Ends-weaken, bind-ok, ok-inj, ok_or,
}
use mirrorscope.Prelude.Bytes.{Bytes}
use mirrorscope.Decoder.TaskTree.{DecoderError, not_applicable, too_many_tasks}
use mirrorscope.Decoder.Frame.{ProcessView}
use mirrorscope.Decoder.AsyncRust.Layout.{AsyncLayouts, get_layout}
use mirrorscope.Decoder.AsyncRust.Decode.{task_state, coroutine_wake_cause, fan_out_children}
use mirrorscope.Decoder.AsyncRust.Tasks.{
  max_tasks, DecodedNode, Walked, Job, WalkError, decoder, out_of_fuel, lift, expand_children,
  decode_job, expand,
}
use mirrorscope.Decoder.AsyncRust.Tasks.Walk.{
  has_id, has_id-append, AllDistinct-append, ParentIn, AllParents-append, IsWalked, no_news, only,
  Reached, IsReady,
}

-- The walk with one more node.
abbrev with_node : DecodedNode → Walked → Walked
with_node n s = record s { out = s.out ++ n ∷ [] }

abbrev child_job : (parent base : ℕ) (type_name : Bytes) → Walked → Job
child_job parent base type_name s = record {
  id = s.next_id;
  parent = some parent;
  base = base;
  type_name = type_name;
  header_addr = none;
}

module _ (first : ℕ) where
  push-IsWalked :
      (n : DecodedNode) (s : Walked)
      → IsWalked first 1 s
      → length s.out < max_tasks
      → n.id < s.next_id
      → has_id n.id s.out ≡ false
      → ParentIn s.out n.parent
      → IsWalked first 0 (with_node n s)
  push-IsWalked n s w room below is_new parent = record {
    few = omega (arith, room, length-append s.out (n ∷ []));
    in_range = omega (arith, w.in_range, length-append s.out (n ∷ []));
    unused = λ x h. ground (arith, has_id-append x s.out n, w.unused x h, below, h);
    distinct = AllDistinct-append s.out n w.distinct is_new;
    parents = AllParents-append s.out s.out n w.parents parent;
  }

  -- The next id is taken for a child.
  abbrev taken : Walked → Walked
  taken s = record s { next_id = (s.next_id + 1) % 2 ^ 64 }

  module _ (in_range : first ≤ 2 ^ 63) where
    next-taken : (s : Walked) → IsWalked first 0 s → (taken s).next_id ≡ s.next_id + 1
    next-taken s w = omega (arith, w.few, w.in_range, in_range)

    taken-IsWalked : (s : Walked) → IsWalked first 0 s → IsWalked first 1 (taken s)
    taken-IsWalked s w = record {
      few = w.few;
      in_range = omega (arith, next-taken s w, w.in_range);
      unused = λ x h. w.unused x (omega (arith, h, next-taken s w));
      distinct = w.distinct;
      parents = w.parents;
    }

    Reached-child :
        (s t u : Walked)
        → IsWalked first 0 s
        → Reached first (only s.next_id) (taken s) t
        → Reached first no_news t u
        → Reached first no_news s u
    Reached-child s t u w (_, e) (v, f) = (
      v,
      record {
        grows = omega (arith, e.grows, f.grows, next-taken s w);
        longer = omega (arith, e.longer, f.longer);
        keeps = λ x h. ground (
          arith,
          e.keeps x (omega (arith, h, next-taken s w)),
          f.keeps x (omega (arith, h, e.grows, next-taken s w)),
          h,
        );
      },
    )

    -- What a visit of a job ensures, where `fuel` more nodes fill the list.
    abbrev pub Visits : ℕ → (Job → Walked → Result WalkError Walked) → Type 0
    Visits fuel visit =
        (job : Job) (s : Walked)
        → IsWalked first 1 s
        → IsReady job s
        → max_tasks < length s.out + fuel
        → Ends out_of_fuel (Reached first (only job.id) s) (visit job s)

    module _ (fuel : ℕ) (visit : Job → Walked → Result WalkError Walked)
        (visits : Visits fuel visit) where
      expand_children-Reached :
          (parent : ℕ) (children : List (ℕ × Bytes)) (s : Walked)
          → IsWalked first 0 s
          → has_id parent s.out ≡ true
          → parent < s.next_id
          → max_tasks < length s.out + fuel
          → Ends out_of_fuel (Reached first no_news s) (expand_children visit parent children s)
      unfolding expand_children
      expand_children-Reached parent [] s w has below enough =
          (w, record { grows = omega arith; longer = omega arith; keeps = λ x h. ground arith })
      expand_children-Reached parent ((base, type_name) ∷ children) s w has below enough =
          let ready : IsReady (child_job parent base type_name s) (taken s) = record {
            below = omega (arith, next-taken s w);
            is_new = w.unused s.next_id (omega arith);
            parent_in = has;
          } in
          Ends-bind out_of_fuel (Reached first (only s.next_id) (taken s)) (Reached first no_news s)
            (visit (child_job parent base type_name s) (taken s)) _
            (visits (child_job parent base type_name s) (taken s) (taken-IsWalked s w) ready enough)
            λ t _ r.
              Ends-weaken out_of_fuel (Reached first no_news t) (Reached first no_news s) _
                (expand_children-Reached parent children t r.0
                  (ground (arith, r.1.keeps parent (omega (arith, below, next-taken s w)), has))
                  (omega (arith, below, r.1.grows, next-taken s w))
                  (omega (arith, enough, r.1.longer)))
                λ u. Reached-child s t u w r

  Reached-node :
      (id : ℕ) (n : DecodedNode) (s u : Walked)
      → n.id ≡ id
      → Reached first no_news (with_node n s) u
      → Reached first (only id) s u
  Reached-node id n s u is (w, e) = (
    w,
    record {
      grows = e.grows;
      longer = omega (arith, e.longer, length-append s.out (n ∷ []));
      keeps = λ x h. ground (arith, e.keeps x h, has_id-append x s.out n, is);
    },
  )

  -- The node of a job.
  IsNodeOf : Job → DecodedNode × List (ℕ × Bytes) → Type 0
  IsNodeOf job (n, children) = (n.id ≡ job.id) × (n.parent ≡ job.parent)

  module _ (view : ProcessView) (layouts : AsyncLayouts) where
    decode_job-IsNodeOf :
        (job : Job) → Ends out_of_fuel (IsNodeOf job) (lift (decode_job view layouts job))
    unfolding decode_job IsNodeOf
    decode_job-IsNodeOf job = by_result (decode_job view layouts job) λ made h.
        let (layout, _, h1) = bind-ok (ok_or (get_layout job.type_name layouts) _) _ made h in
        let (state, _, h2) =
          bind-ok (task_state view job.base layout layouts job.header_addr) _ made h1 in
        let (wake, _, h3) = bind-ok (coroutine_wake_cause view job.base layout layouts) _ made h2 in
        let (children, _, h4) = bind-ok (fan_out_children view job.base layout) _ made h3 in
        subst (IsNodeOf job) (ok-inj h4) (refl, refl)
      where
        by_result :
            (r : Result DecoderError (DecodedNode × List (ℕ × Bytes)))
            → ((made : DecodedNode × List (ℕ × Bytes)) → r ≡ ok made → IsNodeOf job made)
            → Ends out_of_fuel (IsNodeOf job) (lift r)
        by_result (ok made) h = h made refl
        by_result (err e) h = ground arith

    module _ (in_range : first ≤ 2 ^ 63) where
      pub expand-Reached : (fuel : ℕ) → Visits in_range fuel (expand view layouts fuel)
      unfolding expand IsNodeOf
      expand-Reached zero job s w ready enough = absurd (omega (arith, enough, w.few))
      expand-Reached (suc fuel) job s w ready enough =
          Ends-guard out_of_fuel (Reached first (only job.id) s) (ltb (length s.out) max_tasks)
            (decoder (not_applicable too_many_tasks)) _ (ground arith)
            λ room.
              Ends-bind out_of_fuel (IsNodeOf job) (Reached first (only job.id) s)
                (lift (decode_job view layouts job)) _ (decode_job-IsNodeOf job)
                λ (node, children) _ (id_is, parent_is).
                  let pushed : IsWalked first 0 (with_node node s) =
                    push-IsWalked node s w (ground arith)
                      (subst (λ x. x < s.next_id) (sym id_is) ready.below)
                      (subst (λ x. has_id x s.out ≡ false) (sym id_is) ready.is_new)
                      (subst (ParentIn s.out) (sym parent_is) ready.parent_in) in
                  Ends-weaken out_of_fuel (Reached first no_news (with_node node s))
                    (Reached first (only job.id) s) _
                    (expand_children-Reached in_range fuel (expand view layouts fuel)
                      (expand-Reached fuel) job.id children (with_node node s) pushed
                      (ground (arith, has_id-append job.id s.out node, id_is)) ready.below
                      (omega (arith, enough, length-append s.out (node ∷ []))))
                    λ u. Reached-node job.id node s u id_is
