-- ===== src/Decoder/AsyncRust/Tasks/Index.antt =====
-- The index that `try_from_nodes` builds of the nodes of async tasks.
use mirrorscope.Prelude.{
  ℕ, ◌≡◌, arith, refl, true, false, Option, none, some, List, [], ◌∷◌, All, ok, err,
}
use mirrorscope.Prelude.Maps.{Map, lookup, contains_key, contains_key-lookup}
use mirrorscope.Decoder.TaskTree.{
  TaskNode, TaskTree, btree_insert, index_nodes, try_from_nodes, node,
}
use mirrorscope.Decoder.TaskTree.Links.{lookup-btree_insert}
use mirrorscope.Decoder.TaskTree.Accept.{
  insert_all, All-btree_insert, HasParent, IsLinked, try_from_nodes-IsLinked,
}
use mirrorscope.Decoder.AsyncRust.Tasks.{DecodedNode, task_node, task_nodes, find_node}
use mirrorscope.Decoder.AsyncRust.Tasks.Walk.{has_id, AllDistinct, ParentIn, AllParents}

has_id-find_node :
    (x : ℕ) (ns : List DecodedNode)
    → has_id x ns ≡ elim (find_node x ns) [ ok n ↦ true | err e ↦ false ]
unfolding find_node
has_id-find_node x [] = refl
has_id-find_node x (n ∷ ns) = ground (arith, has_id-find_node x ns)

abbrev built : List DecodedNode → Map TaskNode → Map TaskNode
built ns m = insert_all (task_nodes ns) m

-- The node of a task among the nodes.
abbrev pub task_with : ℕ → List DecodedNode → Option TaskNode
task_with x ns = elim (find_node x ns) [ ok n ↦ some (task_node n) | err e ↦ none ]

lookup-built :
    (x : ℕ) (ns : List DecodedNode) (m : Map TaskNode)
    → AllDistinct ns
    → lookup x (built ns m) ≡ elim (task_with x ns) [ some t ↦ some t | none ↦ lookup x m ]
unfolding find_node task_nodes task_node
lookup-built x [] m d = ground arith
lookup-built x (n ∷ ns) m d = ground (
  arith,
  lookup-built x ns (btree_insert n.id (task_node n) m) d.1,
  lookup-btree_insert n.id x (task_node n) m,
  has_id-find_node x ns,
  d.0,
)

abbrev AllUnused : Map TaskNode → List DecodedNode → Type 0
AllUnused m [] = Unit
AllUnused m (n ∷ ns) = (contains_key n.id m ≡ false) × AllUnused m ns

AllUnused-insert :
    (ns : List DecodedNode) (n : DecodedNode) (m : Map TaskNode)
    → has_id n.id ns ≡ false
    → AllUnused m ns
    → AllUnused (btree_insert n.id (task_node n) m) ns
AllUnused-insert [] n m new h = tt
AllUnused-insert (k ∷ ns) n m new h = (
  ground (
    arith,
    new,
    h.0,
    contains_key-lookup k.id m,
    contains_key-lookup k.id (btree_insert n.id (task_node n) m),
    lookup-btree_insert n.id k.id (task_node n) m,
  ),
  AllUnused-insert ns n m (ground (arith, new)) h.1,
)

index_nodes-built :
    (ns : List DecodedNode) (m : Map TaskNode)
    → AllDistinct ns
    → AllUnused m ns
    → index_nodes (task_nodes ns) m ≡ ok (built ns m)
unfolding index_nodes task_nodes task_node
index_nodes-built [] m d u = refl
index_nodes-built (n ∷ ns) m d u = ground (
  arith,
  u.0,
  index_nodes-built ns (btree_insert n.id (task_node n) m) d.1 (AllUnused-insert ns n m d.0 u.1),
)

AllUnused-nil : (ns : List DecodedNode) → AllUnused [] ns
unfolding contains_key
AllUnused-nil [] = tt
AllUnused-nil (n ∷ ns) = (refl, AllUnused-nil ns)

module _ (ids : List DecodedNode) (distinct : AllDistinct ids) where
  HasParent-built : (parent : Option ℕ) → ParentIn ids parent → HasParent (built ids []) parent
  unfolding lookup
  HasParent-built none h = tt
  HasParent-built (some p) h = ground (
    arith,
    h,
    has_id-find_node p ids,
    contains_key-lookup p (built ids []),
    lookup-built p ids [] distinct,
  )

  IsLinked-built :
      (ns : List DecodedNode) (m : Map TaskNode)
      → AllParents ids ns
      → All (IsLinked (built ids [])) m
      → All (IsLinked (built ids [])) (built ns m)
  unfolding task_nodes task_node
  IsLinked-built [] m h k = k
  IsLinked-built (n ∷ ns) m h k = IsLinked-built ns (btree_insert n.id (task_node n) m) h.1 (
      All-btree_insert (IsLinked (built ids [])) n.id (task_node n) m (HasParent-built n.parent h.0)
        k)

  -- Nodes with ids of their own, each parent among them, are accepted, and the tree holds them.
  pub try_from_nodes-distinct :
      AllParents ids ids
      → (tree : TaskTree) × (try_from_nodes (task_nodes ids) ≡ ok tree)
        × ((x : ℕ) → node tree x ≡ task_with x ids)
  unfolding lookup
  try_from_nodes-distinct parents =
      let (tree, accepted, nodes) =
        try_from_nodes-IsLinked (task_nodes ids) (built ids [])
          (index_nodes-built ids [] distinct (AllUnused-nil ids))
          (IsLinked-built ids [] parents tt) in
      (tree, accepted, λ x. ground (arith, nodes x, lookup-built x ids [] distinct))
