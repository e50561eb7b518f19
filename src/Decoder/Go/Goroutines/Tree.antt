-- ===== src/Decoder/Go/Goroutines/Tree.antt =====
-- The tree that the decoder of goroutines (crates/decoder/src/go/decoder.rs) builds.
use mirrorscope.Prelude.{
  ℕ, zero, suc, ◌≡◌, ◌∙◌, ◌^◌, ◌%◌, arith, refl, sym, subst, ◌==◌, if◌then◌else◌, Bool, true, false,
  not, ◌&&◌, Bool-cases, inl, inr, Option, none, some, List, [], ◌∷◌, All, ok,
}
use mirrorscope.Prelude.Ints.{ℤ, pos, negsuc, eq_ℤ}
use mirrorscope.Prelude.Maps.{Map, lookup, contains_key, contains_key-lookup}
use mirrorscope.Decoder.TaskTree.{TaskNode, TaskTree, node}
use mirrorscope.Decoder.TaskTree.Accept.{
  All-btree_insert, HasParent, IsLinked, try_from_nodes-IsLinked,
}
use mirrorscope.Decoder.Frame.{ProcessView}
use mirrorscope.Decoder.Go.Offsets.{GoLayout}
use mirrorscope.Decoder.Go.Walk.{GoroutineInfo, walk_goroutines}
use mirrorscope.Decoder.Go.Walk.Bounds.{IsListed, ParentInRange, walk_goroutines-IsListed}
use mirrorscope.Decoder.Go.Goroutines.{
  member, live_ids, parent_of, node_for, collect_nodes, decode_tasks, find_goid,
}
use mirrorscope.Decoder.Go.Goroutines.Index.{
  task_of, no_ids, built, added, index_nodes-built, lookup-built,
}

module _ (live : List ℤ) where
  -- The parent of a node is the id of a live goroutine.
  LiveParent : Option ℕ → Type 0
  LiveParent none = Unit
  LiveParent (some p) = (k : ℕ) × (p ≡ suc k) × (member (pos (suc k)) live ≡ true)

  parent_of-LiveParent :
      (goid : ℤ) (parent : Option ℤ)
      → ParentInRange parent
      → LiveParent (parent_of goid live parent)
  unfolding LiveParent parent_of
  parent_of-LiveParent goid none h = tt
  parent_of-LiveParent goid (some (pos zero)) h = tt
  parent_of-LiveParent goid (some (negsuc k)) h = tt
  parent_of-LiveParent goid (some (pos (suc k))) h =
      kept (not (suc k == 0) && not (eq_ℤ (pos (suc k)) goid) && member (pos (suc k)) live)
        λ passed. (k, omega (arith, h), ground arith)
    where
      kept :
          (b : Bool)
          → (b ≡ true → LiveParent (some (suc k % 2 ^ 64)))
          → LiveParent (if b then some (suc k % 2 ^ 64) else none)
      kept true f = f refl
      kept false f = tt

  HasLiveParent : ℕ × TaskNode → Type 0
  HasLiveParent (k, n) = LiveParent n.parent

  node_for-LiveParent :
      (g : GoroutineInfo) → IsListed g → HasLiveParent ((node_for g live).id, node_for g live)
  unfolding HasLiveParent node_for
  node_for-LiveParent g h = parent_of-LiveParent g.goid g.parent_goid h.1.parent_fits

  built-LiveParent :
      (gs : List GoroutineInfo) (seen : List ℤ) (m : Map TaskNode)
      → All IsListed gs
      → All HasLiveParent m
      → All HasLiveParent (built live seen gs m)
  unfolding built collect_nodes added
  built-LiveParent [] seen m h v = v
  built-LiveParent (g ∷ gs) seen m h v =
      let own : HasLiveParent ((node_for g live).id, node_for g live) = node_for-LiveParent g h.0 in
      let with_own =
        All-btree_insert HasLiveParent (node_for g live).id (node_for g live) m own v in
      ground (
        arith,
        built-LiveParent gs seen m h.1 v,
        built-LiveParent gs (g.goid ∷ seen) (added live g m) h.1 with_own,
      )

eq_ℤ-sym : (a b : ℤ) → eq_ℤ a b ≡ eq_ℤ b a
eq_ℤ-sym (pos a) (pos b) = ground arith
eq_ℤ-sym (negsuc a) (negsuc b) = ground arith
eq_ℤ-sym (pos a) (negsuc b) = refl
eq_ℤ-sym (negsuc a) (pos b) = refl

live_ids-found :
    (gs : List GoroutineInfo) (n : ℕ)
    → member (pos (suc n)) (live_ids gs) ≡ true
    → (g : GoroutineInfo) × (find_goid (pos (suc n)) gs ≡ some g)
unfolding live_ids find_goid
live_ids-found [] n h = ground arith
live_ids-found (g ∷ gs) n h = elim (Bool-cases (eq_ℤ g.goid (pos (suc n)))) [
  | inl here ↦ (g, rw here)
  | inr later ↦
      let deeper : member (pos (suc n)) (live_ids gs) ≡ true =
        ground (arith, eq_ℤ-sym g.goid (pos (suc n))) in
      let (found, is) = live_ids-found gs n deeper in (found, rw later is)
]

-- Each parent stands in the index of all the nodes.
module _ (gs : List GoroutineInfo) (listed : All IsListed gs) where
  all_built : Map TaskNode
  all_built = built (live_ids gs) [] gs []

  contains_key-all_built :
      (k : ℕ) → member (pos (suc k)) (live_ids gs) ≡ true → contains_key (suc k) all_built ≡ true
  unfolding all_built lookup
  contains_key-all_built k live =
      let (g, found) = live_ids-found gs k live in
      ground (
        arith,
        found,
        contains_key-lookup (suc k) all_built,
        lookup-built (live_ids gs) gs [] [] (suc k) listed no_ids,
      )

  all_built-HasParent :
      (parent : Option ℕ) → LiveParent (live_ids gs) parent → HasParent all_built parent
  unfolding LiveParent
  all_built-HasParent none h = tt
  all_built-HasParent (some p) (k, is, live) =
      subst (λ p. contains_key p all_built ≡ true) (sym is) (contains_key-all_built k live)

  all_built-IsLinked :
      (m : Map TaskNode) → All (HasLiveParent (live_ids gs)) m → All (IsLinked all_built) m
  unfolding HasLiveParent
  all_built-IsLinked [] v = tt
  all_built-IsLinked ((k, n) ∷ m) v = (all_built-HasParent n.parent v.0, all_built-IsLinked m v.1)

-- A walk that succeeds gives a tree, whatever the goroutines it found: `try_from_nodes` never
-- refuses the nodes. The tree has a node for an id exactly if a live goroutine with that positive
-- id is in the list, and it is the node of the first of them.
pub decode_tasks-task_of :
    (view : ProcessView) (layout : GoLayout) (gs : List GoroutineInfo)
    → walk_goroutines view layout ≡ ok gs
    → (tree : TaskTree) × (decode_tasks view layout ≡ ok tree)
      × ((x : ℕ) → node tree x ≡ task_of (live_ids gs) gs x)
unfolding decode_tasks lookup all_built
decode_tasks-task_of view layout gs walked =
    let live = live_ids gs in
    let listed = (walk_goroutines-IsListed view layout gs walked).1 in
    let tracked = no_ids in
    let (tree, accepted, nodes) =
      try_from_nodes-IsLinked (collect_nodes live [] gs) (built live [] gs [])
        (index_nodes-built live gs [] [] listed tracked)
        (all_built-IsLinked gs listed (built live [] gs [])
          (built-LiveParent live gs [] [] listed tt)) in
    (tree, rw walked accepted, λ x. nodes x ∙ lookup-built live gs [] [] x listed tracked)
