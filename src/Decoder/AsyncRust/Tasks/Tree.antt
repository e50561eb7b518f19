-- ===== src/Decoder/AsyncRust/Tasks/Tree.antt =====
-- The tree of async tasks: the walk over all the roots, and that its nodes are accepted.
use mirrorscope.Prelude.{
  ℕ, suc, ◌+◌, ◌%◌, ◌^◌, ◌≡◌, ◌≢◌, ◌≤◌, ◌<◌, arith, refl, ◌==◌, if◌then◌else◌, Bool, true, false,
  Option, none, some, List, [], ◌∷◌, length, Result, ok, err, ◌>>=◌, Ensures, Ends, Ends-bind,
}
use mirrorscope.Decoder.TaskTree.{TaskTree, DecoderError, try_from_nodes, node}
use mirrorscope.Decoder.Frame.{ProcessView}
use mirrorscope.Decoder.AsyncRust.Layout.{AsyncLayouts}
use mirrorscope.Decoder.AsyncRust.Owned as Owned
use mirrorscope.Decoder.AsyncRust.Owned.{EnumerateError}
use mirrorscope.Decoder.AsyncRust.Plan.{TaskRoot, TlsVariant, EnumerationPlan, enumerate_roots}
use mirrorscope.Decoder.AsyncRust.Plan.Roots.{Numbered, AreRoots, enumerate_roots-AreRoots}
use mirrorscope.Decoder.AsyncRust.Tasks.{
  max_tasks, DecodedNode, Walked, WalkError, out_of_fuel, lift, root_job, max_id, expand,
  expand_roots, found_roots, planned_roots, effective_roots, enumerate, task_nodes,
  decode_async_tasks,
}
use mirrorscope.Decoder.AsyncRust.Tasks.Walk.{
  has_id, AllDistinct, AllParents, IsWalked, only, Reached,
}
use mirrorscope.Decoder.AsyncRust.Tasks.Expand.{expand-Reached}
use mirrorscope.Decoder.AsyncRust.Tasks.Index.{task_with, try_from_nodes-distinct}

abbrev has_root : ℕ → List TaskRoot → Bool
has_root x [] = false
has_root x (r ∷ rs) = if r.id == x then true else has_root x rs

-- No two roots have the same id.
abbrev pub DistinctRoots : List TaskRoot → Type 0
DistinctRoots [] = Unit
DistinctRoots (r ∷ rs) = (has_root r.id rs ≡ false) × DistinctRoots rs

-- The roots to come have ids that are not among the nodes, and that are not given out.
abbrev Pending : List TaskRoot → Walked → Type 0
Pending [] s = Unit
Pending (r ∷ rs) s = ((r.id < s.next_id) × (has_id r.id s.out ≡ false)) × Pending rs s

Pending-step :
    (first id : ℕ) (rs : List TaskRoot) (s t : Walked)
    → Reached first (only id) s t
    → has_root id rs ≡ false
    → Pending rs s
    → Pending rs t
Pending-step first id [] s t r other p = tt
Pending-step first id (q ∷ rs) s t r other p = (
  (omega (arith, p.0.0, r.1.grows), ground (arith, r.1.keeps q.id p.0.0, p.0.1, other)),
  Pending-step first id rs s t r (ground (arith, other)) p.1,
)

relax : (first : ℕ) (s : Walked) → IsWalked first 0 s → IsWalked first 1 s
relax first s w = record {
  few = w.few;
  in_range = omega (arith, w.in_range);
  unused = w.unused;
  distinct = w.distinct;
  parents = w.parents;
}

Pending-start :
    (rs : List TaskRoot) (next : ℕ)
    → max_id rs < next
    → Pending rs (record { next_id = next; out = [] })
unfolding max_id
Pending-start [] next h = tt
Pending-start (r ∷ rs) next h =
    ((ground (arith, h), refl), Pending-start rs next (ground (arith, h)))

-- Where the walk starts.
abbrev start_of : List TaskRoot → Walked
start_of roots = record { next_id = (max_id roots + 1) % 2 ^ 64; out = [] }

start_of-IsWalked :
    (roots : List TaskRoot) → max_id roots < 2 ^ 63 → IsWalked (max_id roots + 1) 0 (start_of roots)
start_of-IsWalked roots small = record {
  few = omega arith;
  in_range = omega (arith, small);
  unused = λ x h. refl;
  distinct = tt;
  parents = tt;
}

module _ (view : ProcessView) (layouts : AsyncLayouts) where
  expand_roots-IsWalked :
      (first : ℕ) (rs : List TaskRoot) (s : Walked)
      → first ≤ 2 ^ 63
      → IsWalked first 0 s
      → DistinctRoots rs
      → Pending rs s
      → Ends out_of_fuel (IsWalked first 0) (expand_roots view layouts (suc max_tasks) rs s)
  unfolding expand_roots
  expand_roots-IsWalked first [] s small w d p = w
  expand_roots-IsWalked first (r ∷ rs) s small w d p =
      Ends-bind out_of_fuel (Reached first (only r.id) s) (IsWalked first 0)
        (expand view layouts (suc max_tasks) (root_job r) s) _
        (expand-Reached first view layouts small (suc max_tasks) (root_job r) s (relax first s w)
          (record { below = p.0.0; is_new = p.0.1; parent_in = tt }) (omega arith))
        λ t _ reached.
          expand_roots-IsWalked first rs t small reached.0 d.1
            (Pending-step first r.id rs s t reached d.0 p.1)

-- The nodes of a walk, and the tree decoded from them.
abbrev pub Settles : Result WalkError (List DecodedNode) → Result WalkError TaskTree → Type 0
Settles (ok ns) decoded =
    (length ns ≤ max_tasks)
    × (tree : TaskTree) × (decoded ≡ ok tree)
    × ((x : ℕ) → node tree x ≡ task_with x ns)
Settles (err e) decoded = (e ≢ out_of_fuel) × (decoded ≡ err e)

-- The list of nodes that can be a tree.
abbrev AreNodes : List DecodedNode → Type 0
AreNodes ns = (length ns ≤ max_tasks) × AllDistinct ns × AllParents ns ns

Settles-decoded :
    (r : Result WalkError (List DecodedNode))
    → Ends out_of_fuel AreNodes r
    → Settles r (r >>= λ ns. lift (try_from_nodes (task_nodes ns)))
Settles-decoded (ok ns) (few, distinct, parents) =
    let (tree, accepted, nodes) = try_from_nodes-distinct ns distinct parents in
    (few, tree, rw accepted, nodes)
Settles-decoded (err e) h = (h, refl)

-- Roots with ids from `n` on are distinct, and the last has the greatest.
has_root-Numbered : (x n : ℕ) (rs : List TaskRoot) → x < n → Numbered n rs → has_root x rs ≡ false
has_root-Numbered x n [] below h = refl
has_root-Numbered x n (r ∷ rs) below h =
    ground (arith, h.0, below, has_root-Numbered x (n + 1) rs (omega (arith, below)) h.1)

DistinctRoots-Numbered : (n : ℕ) (rs : List TaskRoot) → Numbered n rs → DistinctRoots rs
DistinctRoots-Numbered n [] h = tt
DistinctRoots-Numbered n (r ∷ rs) h = (
  has_root-Numbered r.id (n + 1) rs (omega (arith, h.0)) h.1,
  DistinctRoots-Numbered (n + 1) rs h.1,
)

max_id-Numbered : (n : ℕ) (rs : List TaskRoot) → Numbered n rs → max_id rs ≤ n + length rs
unfolding max_id
max_id-Numbered n [] h = omega arith
max_id-Numbered n (r ∷ rs) h = ground (arith, h.0, max_id-Numbered (n + 1) rs h.1)

-- What the roots need for the walk.
abbrev AreUsable : List TaskRoot → Type 0
AreUsable rs = DistinctRoots rs × (max_id rs < 2 ^ 63)

lift-Ends :
    (r : Result DecoderError (List TaskRoot))
    → Ensures AreUsable r
    → Ends out_of_fuel AreUsable (lift r)
lift-Ends (ok rs) h = h
lift-Ends (err e) h = ground arith

module _ (view : ProcessView) (layouts : AsyncLayouts) (host : TlsVariant)
    (plan : Option EnumerationPlan) where
  found_roots-AreUsable :
      (r : Result EnumerateError (List TaskRoot))
      → length view.thread_ids ≤ 2 ^ 32
      → Ends Owned.out_of_fuel (AreRoots view) r
      → Ensures AreUsable (found_roots r)
  unfolding found_roots
  found_roots-AreUsable (err e) threads h = tt
  found_roots-AreUsable (ok []) threads h = tt
  found_roots-AreUsable (ok (r ∷ rs)) threads (numbered, few) = (
    DistinctRoots-Numbered 1 (r ∷ rs) numbered,
    omega (arith, few, threads, max_id-Numbered 1 (r ∷ rs) numbered),
  )

  planned_roots-AreUsable :
      (p : Option EnumerationPlan)
      → length view.thread_ids ≤ 2 ^ 32
      → Ensures AreUsable (planned_roots view layouts host p)
  unfolding planned_roots
  planned_roots-AreUsable none threads = tt
  planned_roots-AreUsable (some resolved) threads =
      found_roots-AreUsable (enumerate_roots host resolved view layouts) threads
        (enumerate_roots-AreRoots host resolved view layouts threads)

  effective_roots-AreUsable :
      (given : List TaskRoot)
      → AreUsable given
      → length view.thread_ids ≤ 2 ^ 32
      → Ensures AreUsable (effective_roots view layouts host plan given)
  unfolding effective_roots
  effective_roots-AreUsable [] usable threads = planned_roots-AreUsable plan threads
  effective_roots-AreUsable (r ∷ rs) usable threads = usable

  enumerate-AreNodes :
      (given : List TaskRoot)
      → AreUsable given
      → length view.thread_ids ≤ 2 ^ 32
      → Ends out_of_fuel AreNodes (enumerate view layouts host plan given)
  unfolding enumerate
  enumerate-AreNodes given usable threads =
      Ends-bind out_of_fuel AreUsable AreNodes (lift (effective_roots view layouts host plan given))
        _
        (lift-Ends (effective_roots view layouts host plan given)
          (effective_roots-AreUsable given usable threads))
        λ roots _ (distinct, small).
          Ends-bind out_of_fuel (IsWalked (max_id roots + 1) 0) AreNodes
            (expand_roots view layouts (suc max_tasks) roots (start_of roots)) (λ s. ok s.out)
            (expand_roots-IsWalked view layouts (max_id roots + 1) roots (start_of roots)
              (omega (arith, small)) (start_of-IsWalked roots small) distinct
              (Pending-start roots ((max_id roots + 1) % 2 ^ 64) (omega (arith, small))))
            λ s _ w. (w.few, w.distinct, w.parents)

  -- For attached roots with different ids below 2^63, or none and a plan, in a process with at most
  -- 2^32 threads, and whatever its memory holds, the walk over the roots and the children they wait
  -- for ends. It fails with one of its errors, which is then that of the decoder, or it gives at
  -- most 2^16 nodes, and `try_from_nodes` accepts them: no id stands twice and no parent is missing.
  -- The tree has for each id the node that the walk gave for it.
  pub decode_async_tasks-Settles :
      (given : List TaskRoot)
      → DistinctRoots given
      → max_id given < 2 ^ 63
      → length view.thread_ids ≤ 2 ^ 32
      → Settles
          (enumerate view layouts host plan given)
          (decode_async_tasks view layouts host plan given)
  unfolding decode_async_tasks
  decode_async_tasks-Settles given distinct small threads =
      Settles-decoded (enumerate view layouts host plan given)
        (enumerate-AreNodes given (distinct, small) threads)
