-- ===== src/Decoder/Tests.antt =====
-- The theorem about the task tree at a concrete list of nodes.
use mirrorscope.Prelude.{ℕ, ◌≡◌, refl, Option, none, some, List, [], ◌∷◌}
use mirrorscope.Prelude.Maps.{lookup, contains_key}
use mirrorscope.Decoder.TaskTree.{
  TaskNode, TaskTree, async_task, runnable, try_from_nodes, node, children, flatten_preorder,
}
use mirrorscope.Decoder.TaskTree.Links.{
  Ascending, contains, is_root, is_child_of, try_from_nodes_links,
}

abbrev task : ℕ → Option ℕ → TaskNode
task id parent = record { id = id; name = []; kind = async_task; state = runnable; parent = parent }

abbrev nodes : List TaskNode
nodes = task 3 (some 1) ∷ task 2 (some 1) ∷ task 1 none ∷ []

abbrev tree : TaskTree
tree = record {
  nodes = (1, task 1 none) ∷ (2, task 2 (some 1)) ∷ (3, task 3 (some 1)) ∷ [];
  children = (1, 2 ∷ 3 ∷ []) ∷ [];
  roots = 1 ∷ [];
}

-- The children stand in the order of their ids, and not in the order given.
flatten_test : flatten_preorder 4 tree ≡ 1 ∷ 2 ∷ 3 ∷ []
unfolding flatten_preorder lookup
flatten_test = refl

try_from_nodes_links_example :
    Ascending tree.nodes
    × ((x : ℕ) → contains tree.roots x ≡ is_root (node tree x))
    × ((p x : ℕ) → contains (children tree p) x ≡ is_child_of p (node tree x))
unfolding try_from_nodes lookup contains_key
try_from_nodes_links_example = try_from_nodes_links nodes tree refl
