-- ===== src/Decoder/TaskTree.antt =====
-- crates/decoder/src/model/tree.rs and task.rs: the tree of tasks, and how it is built from a flat
-- list of nodes. A `BTreeMap` is an association list in ascending order of its keys.
pub mod Links
pub mod Accept
use mirrorscope.Prelude.{
  ℕ, zero, suc, ◌+◌, ◌==◌, ltb, if◌then◌else◌, Bool, true, false, Option, none, some, List, [], ◌∷◌,
  ◌++◌, length, Result, ok, err, ◌>>=◌, ◌>>◌, guard,
}
use mirrorscope.Prelude.Bytes.{Bytes}
use mirrorscope.Prelude.Maps.{Map, lookup, contains_key}

pub data TaskKind : Type 0 where
  thread async_task goroutine coroutine : TaskKind

pub data BlockReason : Type 0 where
  channel lock io : (detail : Option Bytes) → BlockReason
  join : (on : Option ℕ) → BlockReason
  timer unknown : BlockReason

pub data TaskState : Type 0 where
  runnable running completed : TaskState
  blocked : (on : BlockReason) → TaskState

pub record TaskNode : Type 0 where
  pub id : ℕ
  pub name : Bytes
  pub kind : TaskKind
  pub state : TaskState
  pub parent : Option ℕ

-- Why a decoder declines.
pub data Refusal : Type 0 where
  implausible_length no_variant : (n : ℕ) → Refusal
  no_layout : (type_name : Bytes) → Refusal
  too_many_tasks no_roots no_decodable_tasks enumeration_declined : Refusal

-- The two reasons of `InvalidTaskTree` are constructors of their own, and the texts of the others
-- are left out.
pub data DecoderError : Type 0 where
  not_applicable : (reason : Refusal) → DecoderError
  unknown_task unknown_thread : (id : ℕ) → DecoderError
  memory_read_failed : (addr len : ℕ) → DecoderError
  register_read_failed physical_frames_failed : (thread : ℕ) → DecoderError
  duplicate_id : DecoderError
  dangling_parent : (id : ℕ) → DecoderError

unfoldable pub root : (id : ℕ) (name : Bytes) (kind : TaskKind) (state : TaskState) → TaskNode
root id name kind state = record { id = id; name = name; kind = kind; state = state; parent = none }

pub record TaskTree : Type 0 where
  pub nodes : Map TaskNode
  pub children : Map (List ℕ)
  pub roots : List ℕ

-- `BTreeMap::insert`: the value of a key that is there is replaced.
unfoldable pub btree_insert {ℓ} : {V : Type ℓ} → ℕ → V → Map V → Map V
btree_insert k v [] = (k, v) ∷ []
btree_insert k v ((j, w) ∷ m) =
    let rest = btree_insert k v m in
    if k == j then (k, v) ∷ m else if ltb k j then (k, v) ∷ (j, w) ∷ m else (j, w) ∷ rest

abbrev is_some {ℓ} : {A : Type ℓ} → Option A → Bool
is_some none = false
is_some (some a) = true

unfoldable pub index_nodes : List TaskNode → Map TaskNode → Result DecoderError (Map TaskNode)
unfolding btree_insert
index_nodes [] by_id = ok by_id
index_nodes (n ∷ ns) by_id =
    let rest = index_nodes ns (btree_insert n.id n by_id) in
    if contains_key n.id by_id then err duplicate_id else rest

abbrev pub children_of : ℕ → Map (List ℕ) → List ℕ
children_of id children = elim (lookup id children) [ none ↦ [] | some ids ↦ ids ]

-- The loop over `by_id.values()`.
unfoldable pub link :
    Map TaskNode
    → List (ℕ × TaskNode)
    → Map (List ℕ)
    → List ℕ
    → Result DecoderError (Map (List ℕ) × List ℕ)
unfolding btree_insert
link by_id [] children roots = ok (children, roots)
link by_id ((k, n) ∷ es) children roots = elim n.parent [
  | none ↦ link by_id es children (roots ++ n.id ∷ [])
  | some parent ↦
      let rest =
        link by_id es (btree_insert parent (children_of parent children ++ n.id ∷ []) children)
          roots in
      if contains_key parent by_id then rest else err (dangling_parent n.id)
]

unfoldable pub try_from_nodes : List TaskNode → Result DecoderError TaskTree
unfolding index_nodes link
try_from_nodes nodes = do
  by_id ← index_nodes nodes []
  (children, roots) ← link by_id by_id [] []
  ok (record { nodes = by_id; children = children; roots = roots })

unfoldable pub node : TaskTree → ℕ → Option TaskNode
node tree id = lookup id tree.nodes

unfoldable pub children : TaskTree → ℕ → List ℕ
children tree id = children_of id tree.children

unfoldable pub len : TaskTree → ℕ
len tree = length tree.nodes

-- `push_preorder` over a list of siblings. The recursion of the code has no other bound than the
-- depth of the tree, which is the fuel.
unfoldable pub push_preorder : ℕ → TaskTree → List ℕ → List ℕ
unfolding children
push_preorder zero tree ids = []
push_preorder (suc fuel) tree [] = []
push_preorder (suc fuel) tree (id ∷ ids) =
    id ∷ push_preorder fuel tree (children tree id) ++ push_preorder fuel tree ids

unfoldable pub flatten_preorder : ℕ → TaskTree → List ℕ
unfolding push_preorder
flatten_preorder fuel tree = push_preorder fuel tree tree.roots
