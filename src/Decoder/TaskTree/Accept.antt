-- ===== src/Decoder/TaskTree/Accept.antt =====
-- When `try_from_nodes` (crates/decoder/src/model/tree.rs) accepts a list of nodes.
use mirrorscope.Prelude.{
  ℕ, ◌≡◌, arith, refl, subst, true, Option-cases, inl, inr, Option, none, some, List, [], ◌∷◌, ◌++◌,
  ok, All,
}
use mirrorscope.Prelude.Maps.{Map, contains_key, lookup}
use mirrorscope.Decoder.TaskTree.{
  TaskNode, TaskTree, btree_insert, index_nodes, link, children_of, try_from_nodes, node,
}

-- What `index_nodes` builds where it finds no id twice.
abbrev pub insert_all : List TaskNode → Map TaskNode → Map TaskNode
insert_all [] m = m
insert_all (n ∷ ns) m = insert_all ns (btree_insert n.id n m)

pub All-btree_insert {κ} :
    (P : ℕ × TaskNode → Type κ) (k : ℕ) (n : TaskNode) (m : Map TaskNode)
    → P (k, n)
    → All P m
    → All P (btree_insert k n m)
unfolding btree_insert
All-btree_insert P k n [] p h = (p, tt)
All-btree_insert P k n ((j, w) ∷ m) p h =
    ground (arith, All-btree_insert P k n m p h.1, h.0, h.1, p)

-- The parent of the node, if it has one, is a key.
abbrev pub HasParent : Map TaskNode → Option ℕ → Type 0
HasParent by_id none = Unit
HasParent by_id (some p) = contains_key p by_id ≡ true

abbrev pub IsLinked : Map TaskNode → ℕ × TaskNode → Type 0
IsLinked by_id (k, n) = HasParent by_id n.parent

link-IsLinked :
    (by_id : Map TaskNode) (es : List (ℕ × TaskNode)) (ch : Map (List ℕ)) (rs : List ℕ)
    → All (IsLinked by_id) es
    → (ch' : Map (List ℕ)) × (rs' : List ℕ) × (link by_id es ch rs ≡ ok (ch', rs'))
unfolding link
link-IsLinked by_id [] ch rs h = (ch, rs, refl)
link-IsLinked by_id ((k, n) ∷ es) ch rs h = elim (Option-cases n.parent) [
  | inl root ↦
      let (ch', rs', linked) = link-IsLinked by_id es ch (rs ++ n.id ∷ []) h.1 in
      (ch', rs', ground arith)
  | inr (p, child) ↦
      let found : contains_key p by_id ≡ true = subst (HasParent by_id) child h.0 in
      let (ch', rs', linked) =
        link-IsLinked by_id es (btree_insert p (children_of p ch ++ n.id ∷ []) ch) rs h.1 in
      (ch', rs', ground arith)
]

-- Where the nodes are indexed and each parent is there, the list is accepted, and the tree holds
-- the index.
pub try_from_nodes-IsLinked :
    (ns : List TaskNode) (m : Map TaskNode)
    → index_nodes ns [] ≡ ok m
    → All (IsLinked m) m
    → (tree : TaskTree) × (try_from_nodes ns ≡ ok tree) × ((x : ℕ) → node tree x ≡ lookup x m)
unfolding try_from_nodes node
try_from_nodes-IsLinked ns m indexed linked =
    let (ch, rs, done) = link-IsLinked m m [] [] linked in
    (record { nodes = m; children = ch; roots = rs }, rw (indexed, done), λ x. refl)
