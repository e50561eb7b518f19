-- ===== src/Decoder/TaskTree/Links.antt =====
-- The links of a tree that `try_from_nodes` (crates/decoder/src/model/tree.rs) builds.
use mirrorscope.Prelude.{
  ℕ, ◌≡◌, ◌<◌, refl, ◌∙◌, subst, arith, ◌==◌, if◌then◌else◌, Bool, true, false, ◌&&◌, ◌||◌,
  Option-cases, inl, inr, Option, none, some, List, [], ◌∷◌, ◌++◌, ok, Result-cases,
}
use mirrorscope.Prelude.Maps.{Map, lookup}
use mirrorscope.Decoder.TaskTree.{
  TaskNode, TaskTree, btree_insert, index_nodes, link, children_of, try_from_nodes, node, children,
}

abbrev pub contains : List ℕ → ℕ → Bool
contains [] x = false
contains (y ∷ ys) x = if x == y then true else contains ys x

contains-append :
    (xs : List ℕ) (y x : ℕ) → contains (xs ++ y ∷ []) x ≡ (if x == y then true else contains xs x)
contains-append [] y x = refl
contains-append (z ∷ xs) y x = ground (arith, contains-append xs y x)

-- A map in ascending order of its keys.
abbrev pub Ascending {ℓ} : {V : Type ℓ} → Map V → Type 0
Ascending [] = Unit
Ascending ((k, v) ∷ []) = Unit
Ascending ((k, v) ∷ (j, w) ∷ m) = (k < j) × Ascending ((j, w) ∷ m)

-- Keys below the head are not there.
lookup-below {ℓ} :
    {V : Type ℓ} (k j : ℕ) (w : V) (m : Map V)
    → Ascending ((j, w) ∷ m)
    → k < j
    → lookup k ((j, w) ∷ m) ≡ none
unfolding lookup
lookup-below k j w [] a lt = ground arith
lookup-below k j w ((i, u) ∷ m) a lt =
    ground (arith, lookup-below k i u m a.1 (omega (arith, a.0, lt)))

pub lookup-btree_insert {ℓ} :
    {V : Type ℓ} (k j : ℕ) (v : V) (m : Map V)
    → lookup j (btree_insert k v m) ≡ (if j == k then some v else lookup j m)
unfolding lookup btree_insert
lookup-btree_insert k j v [] = ground arith
lookup-btree_insert k j v ((i, w) ∷ m) = ground (arith, lookup-btree_insert k j v m)

-- Which nodes of the list have no parent, and which have the parent `p`.
abbrev root_in : List (ℕ × TaskNode) → ℕ → Bool
root_in [] x = false
root_in ((k, n) ∷ es) x =
    let rest = root_in es x in
    elim n.parent [ none ↦ (if x == n.id then true else rest) | some p ↦ rest ]

abbrev child_in : List (ℕ × TaskNode) → ℕ → ℕ → Bool
child_in [] p x = false
child_in ((k, n) ∷ es) p x =
    let rest = child_in es p x in
    elim n.parent [ none ↦ rest | some q ↦ (if p == q && x == n.id then true else rest) ]

link_roots :
    (by_id : Map TaskNode) (es : List (ℕ × TaskNode)) (ch ch' : Map (List ℕ)) (rs rs' : List ℕ)
    (x : ℕ)
    → link by_id es ch rs ≡ ok (ch', rs')
    → contains rs' x ≡ (contains rs x || root_in es x)
unfolding link
link_roots by_id [] ch ch' rs rs' x h = ground arith
link_roots by_id ((k, n) ∷ es) ch ch' rs rs' x h = elim (Option-cases n.parent) [
  | inl root ↦ ground (
    arith,
    link_roots by_id es ch ch' (rs ++ n.id ∷ []) rs' x (ground arith),
    contains-append rs n.id x,
  )
  | inr (p, child) ↦ ground (
    arith,
    link_roots by_id es (btree_insert p (children_of p ch ++ n.id ∷ []) ch) ch' rs rs' x
        (ground arith),
  )
]

link_children :
    (by_id : Map TaskNode) (es : List (ℕ × TaskNode)) (ch ch' : Map (List ℕ)) (rs rs' : List ℕ)
    (p x : ℕ)
    → link by_id es ch rs ≡ ok (ch', rs')
    → contains (children_of p ch') x ≡ (contains (children_of p ch) x || child_in es p x)
unfolding link
link_children by_id [] ch ch' rs rs' p x h = ground arith
link_children by_id ((k, n) ∷ es) ch ch' rs rs' p x h = elim (Option-cases n.parent) [
  | inl root ↦
      ground (arith, link_children by_id es ch ch' (rs ++ n.id ∷ []) rs' p x (ground arith))
  | inr (q, child) ↦ ground (
    arith,
    link_children by_id es (btree_insert q (children_of q ch ++ n.id ∷ []) ch) ch' rs rs' p x
        (ground arith),
    lookup-btree_insert q p (children_of q ch ++ n.id ∷ []) ch,
    contains-append (children_of q ch) n.id x,
  )
]

-- Each node stands under its own id.
abbrev pub Keyed : Map TaskNode → Type 0
Keyed [] = Unit
Keyed ((k, n) ∷ m) = (n.id ≡ k) × Keyed m

lookup-own {ℓ} :
    {V : Type ℓ} (k : ℕ) (v : V) (m : Map V) → Ascending ((k, v) ∷ m) → lookup k m ≡ none
unfolding lookup
lookup-own k v [] a = refl
lookup-own k v ((j, w) ∷ m) a = lookup-below k j w m a.1 a.0

Ascending-tail {ℓ} : {V : Type ℓ} (k : ℕ) (v : V) (m : Map V) → Ascending ((k, v) ∷ m) → Ascending m
Ascending-tail k v [] a = tt
Ascending-tail k v ((j, w) ∷ m) a = a.1

Ascending-insert {ℓ} :
    {V : Type ℓ} (k : ℕ) (v : V) (m : Map V) → Ascending m → Ascending (btree_insert k v m)
unfolding btree_insert
Ascending-insert k v [] a = tt
Ascending-insert k v ((j, w) ∷ []) a = ground arith
Ascending-insert k v ((j, w) ∷ (i, u) ∷ m) a =
    ground (arith, Ascending-insert k v ((i, u) ∷ m) a.1, a.0, a.1)

Keyed-insert : (n : TaskNode) (m : Map TaskNode) → Keyed m → Keyed (btree_insert n.id n m)
unfolding btree_insert
Keyed-insert n [] v = (refl, tt)
Keyed-insert n ((j, w) ∷ m) v = ground (arith, Keyed-insert n m v.1, v.0, v.1)

index_nodes-sorted :
    (ns : List TaskNode) (m m' : Map TaskNode)
    → Ascending m
    → Keyed m
    → index_nodes ns m ≡ ok m'
    → Ascending m' × Keyed m'
unfolding index_nodes
index_nodes-sorted [] m m' a v h =
    let same : m ≡ m' = ground arith in (subst Ascending same a, subst Keyed same v)
index_nodes-sorted (n ∷ ns) m m' a v h =
    index_nodes-sorted ns (btree_insert n.id n m) m' (Ascending-insert n.id n m a)
      (Keyed-insert n m v) (ground arith)

abbrev pub is_root : Option TaskNode → Bool
is_root none = false
is_root (some n) = elim n.parent [ none ↦ true | some p ↦ false ]

abbrev pub is_child_of : ℕ → Option TaskNode → Bool
is_child_of p none = false
is_child_of p (some n) = elim n.parent [ none ↦ false | some q ↦ p == q ]

root_in-lookup :
    (m : Map TaskNode) (x : ℕ) → Ascending m → Keyed m → root_in m x ≡ is_root (lookup x m)
unfolding lookup
root_in-lookup [] x a v = refl
root_in-lookup ((k, n) ∷ m) x a v =
    ground (arith, root_in-lookup m x (Ascending-tail k n m a) v.1, lookup-own k n m a, v.0)

child_in-lookup :
    (m : Map TaskNode) (p x : ℕ)
    → Ascending m
    → Keyed m
    → child_in m p x ≡ is_child_of p (lookup x m)
unfolding lookup
child_in-lookup [] p x a v = refl
child_in-lookup ((k, n) ∷ m) p x a v =
    ground (arith, child_in-lookup m p x (Ascending-tail k n m a) v.1, lookup-own k n m a, v.0)

-- In a tree that `try_from_nodes` accepts, the roots are the nodes with no parent, the children of
-- an id are the nodes with that parent, and the nodes stand in ascending order of their ids.
pub try_from_nodes_links :
    (ns : List TaskNode) (tree : TaskTree)
    → try_from_nodes ns ≡ ok tree
    → Ascending tree.nodes
      × ((x : ℕ) → contains tree.roots x ≡ is_root (node tree x))
      × ((p x : ℕ) → contains (children tree p) x ≡ is_child_of p (node tree x))
unfolding try_from_nodes node children lookup
try_from_nodes_links ns tree h = elim (Result-cases (index_nodes ns [])) [
  | inr (e, failed) ↦ ground arith
  | inl (m, indexed) ↦ elim (Result-cases (link m m [] [])) [
    | inr (e, failed) ↦ ground arith
    | inl ((ch, rs), linked) ↦
        let (a, v) = index_nodes-sorted ns [] m tt tt indexed in
        let same : record { nodes = m; children = ch; roots = rs } ≡ tree = ground arith in
        subst
          (λ t.
            Ascending t.nodes
            × ((x : ℕ) → contains t.roots x ≡ is_root (node t x))
            × ((p x : ℕ) → contains (children t p) x ≡ is_child_of p (node t x)))
          same
          (
            a,
            λ x. link_roots m m [] ch [] rs x linked ∙ root_in-lookup m x a v,
            λ p x. link_children m m [] ch [] rs p x linked ∙ child_in-lookup m p x a v,
          )
  ]
]
