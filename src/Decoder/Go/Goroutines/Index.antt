-- ===== src/Decoder/Go/Goroutines/Index.antt =====
-- The index of nodes that the loop of `decode_tasks` (crates/decoder/src/go/decoder.rs) gives.
use mirrorscope.Prelude.{
  ℕ, zero, suc, ◌≡◌, arith, refl, ◌==◌, if◌then◌else◌, true, false, Bool-cases, ◌⊎◌, inl, inr,
  Option, none, some, List, [], ◌∷◌, All, ok,
}
use mirrorscope.Prelude.Ints.{ℤ, pos, negsuc, IsI64, to_bits, eq_ℤ}
use mirrorscope.Prelude.Maps.{Map, lookup, contains_key, contains_key-lookup}
use mirrorscope.Decoder.TaskTree.{TaskNode, btree_insert, index_nodes}
use mirrorscope.Decoder.TaskTree.Links.{lookup-btree_insert}
use mirrorscope.Decoder.TaskTree.Accept.{insert_all}
use mirrorscope.Decoder.Go.Walk.{GoroutineInfo}
use mirrorscope.Decoder.Go.Walk.Bounds.{IsListed}
use mirrorscope.Decoder.Go.Goroutines.{is_positive, member, node_for, collect_nodes, find_goid}

-- The node of a task: that of the first goroutine listed with its id, which is positive.
abbrev pub task_of : (live : List ℤ) → List GoroutineInfo → ℕ → Option TaskNode
task_of live gs zero = none
task_of live gs (suc n) = elim (find_goid (pos (suc n)) gs) [
  | none ↦ none
  | some g ↦ some (node_for g live)
]

id_cases :
    (z : ℤ)
    → IsI64 z
    → (is_positive z ≡ false) ⊎ ((n : ℕ) × (z ≡ pos (suc n)) × (to_bits 64 z ≡ suc n))
id_cases (pos zero) h = inl refl
id_cases (pos (suc n)) h = inr (n, refl, omega arith)
id_cases (negsuc n) h = inl refl

-- The ids that stand in the index are the ones seen.
pub Tracks : List ℤ → Map TaskNode → Type 0
Tracks seen m = (x : ℕ) → contains_key x m ≡ member (pos x) seen

Tracks-at :
    (seen : List ℤ) (m : Map TaskNode) (x : ℕ)
    → Tracks seen m
    → contains_key x m ≡ member (pos x) seen
unfolding Tracks
Tracks-at seen m x t = t x

pub no_ids : Tracks [] []
unfolding Tracks contains_key
no_ids x = refl

module _ (live : List ℤ) where
  unfoldable pub built : List ℤ → List GoroutineInfo → Map TaskNode → Map TaskNode
  built seen gs m = insert_all (collect_nodes live seen gs) m

  -- The index with the node of one more goroutine.
  unfoldable pub added : GoroutineInfo → Map TaskNode → Map TaskNode
  added g m = btree_insert (node_for g live).id (node_for g live) m

  module _ (g : GoroutineInfo) (n : ℕ) (is_id : g.goid ≡ pos (suc n))
      (bits : to_bits 64 g.goid ≡ suc n) where
    node_id : (node_for g live).id ≡ suc n
    unfolding node_for
    node_id = bits

    lookup-added :
        (x : ℕ) (m : Map TaskNode)
        → lookup x (added g m) ≡ (if x == suc n then some (node_for g live) else lookup x m)
    unfolding added
    lookup-added x m =
        ground (arith, node_id, lookup-btree_insert (node_for g live).id x (node_for g live) m)

    Tracks-added :
        (seen : List ℤ) (m : Map TaskNode) → Tracks seen m → Tracks (g.goid ∷ seen) (added g m)
    unfolding Tracks
    Tracks-added seen m h x = ground (
      arith,
      is_id,
      h x,
      contains_key-lookup x m,
      contains_key-lookup x (added g m),
      lookup-added x m,
    )

  -- No id is indexed twice.
  pub index_nodes-built :
      (gs : List GoroutineInfo) (seen : List ℤ) (m : Map TaskNode)
      → All IsListed gs
      → Tracks seen m
      → index_nodes (collect_nodes live seen gs) m ≡ ok (built seen gs m)
  unfolding built index_nodes collect_nodes added
  index_nodes-built [] seen m h t = refl
  index_nodes-built (g ∷ gs) seen m h t = elim (id_cases g.goid h.0.1.goid_fits) [
    | inl skipped ↦ ground (arith, index_nodes-built gs seen m h.1 t)
    | inr (n, is_id, bits) ↦ ground (
      arith,
      index_nodes-built gs seen m h.1 t,
      index_nodes-built gs (g.goid ∷ seen) (added g m) h.1 (Tracks-added g n is_id bits seen m t),
      node_id g n is_id bits,
      Tracks-at seen m (suc n) t,
    )
  ]

  task_of-skipped :
      (g : GoroutineInfo) (gs : List GoroutineInfo) (x : ℕ)
      → is_positive g.goid ≡ false
      → task_of live (g ∷ gs) x ≡ task_of live gs x
  unfolding find_goid
  task_of-skipped g gs zero skipped = refl
  task_of-skipped g gs (suc n) skipped = elim (Bool-cases (eq_ℤ g.goid (pos (suc n)))) [
    | inl same ↦ absurd (not_positive g.goid n skipped same)
    | inr other ↦ ground arith
  ]
    where
      not_positive : (z : ℤ) (n : ℕ) → is_positive z ≡ false → eq_ℤ z (pos (suc n)) ≡ true → ⊥
      not_positive (pos k) n h e = ground arith
      not_positive (negsuc k) n h e = ground arith

  task_of-found :
      (g : GoroutineInfo) (gs : List GoroutineInfo) (x n : ℕ)
      → g.goid ≡ pos (suc n)
      → task_of live (g ∷ gs) x ≡ (if x == suc n then some (node_for g live) else task_of live gs x)
  unfolding find_goid
  task_of-found g gs zero n is_id = ground arith
  task_of-found g gs (suc k) n is_id = rw is_id (ground arith)

  pub lookup-built :
      (gs : List GoroutineInfo) (seen : List ℤ) (m : Map TaskNode) (x : ℕ)
      → All IsListed gs
      → Tracks seen m
      → lookup x (built seen gs m)
        ≡ elim (lookup x m) [ some n ↦ some n | none ↦ task_of live gs x ]
  unfolding built collect_nodes added find_goid
  lookup-built [] seen m zero h t = ground arith
  lookup-built [] seen m (suc k) h t = ground arith
  lookup-built (g ∷ gs) seen m x h t = elim (id_cases g.goid h.0.1.goid_fits) [
    | inl skipped ↦ ground (arith, lookup-built gs seen m x h.1 t, task_of-skipped g gs x skipped)
    | inr (n, is_id, bits) ↦ ground (
      arith,
      lookup-built gs seen m x h.1 t,
      lookup-built gs (g.goid ∷ seen) (added g m) x h.1 (Tracks-added g n is_id bits seen m t),
      lookup-added g n is_id bits x m,
      task_of-found g gs x n is_id,
      contains_key-lookup x m,
      Tracks-at seen m x t,
    )
  ]
