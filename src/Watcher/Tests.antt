-- ===== src/Watcher/Tests.antt =====
-- The theorems about the watcher, at a Zookeeper that is the list of its nodes.
use sequins.Prelude.{
  ◌≡◌, ◌≢◌, refl, Bool, true, Text, codes, List, [], ◌∷◌, none, if◌then◌else◌, contains, remove,
  arith, All, text_eq, inl, inr, Bool-cases,
}
use sequins.Watcher.{
  Node, node_eq, node_eq_iff, Node_eq, Zookeeper, Watcher, Created, created, node_exists, no_node,
  Listed, children, no_parent, create_all, create_one, create_loop, hook_create_ephemeral,
  run_hooks, restore_nodes, restore_watches, watch_children, children_loop,
}
use sequins.Watcher.Restoring.{Calm}
use sequins.Watcher.Hooks.{IsNamed, below, run_hooks-There}

-- The root is always there.
there : Node → List Node → Bool
there [] w = true
there (n ∷ p) w = contains w (n ∷ p)

tree_create : Node → Bool → List Node → Created × List Node
unfolding there
tree_create [] b w = (node_exists, w)
tree_create (n ∷ p) b w =
    if contains w (n ∷ p)
    then (node_exists, w)
    else if there p w
    then (created, (n ∷ p) ∷ w)
    else (no_node, w)

children_of : Node → List Node → List Text
children_of node [] = []
children_of node ([] ∷ w) = children_of node w
children_of node ((n ∷ p) ∷ w) =
    let names = children_of node w in if node_eq p node then n ∷ names else names

tree_children : Node → List Node → Listed × List Node
unfolding there children_of
tree_children node w = if there node w then (children (children_of node w), w) else (no_parent, w)

abbrev tree : Zookeeper
tree = record {
  World = List Node;
  create = tree_create;
  delete = remove;
  children_w = tree_children;
}

There : Node → List Node → Type 0
There node w = there node w ≡ true

tree_created :
    (node : Node) (b : Bool) (w : List Node)
    → (tree_create node b w).0 ≡ created
    → There node (tree_create node b w).1
unfolding There tree_create there contains
tree_created [] b w h = refl
tree_created (n ∷ p) b w h = elim (Bool-cases (contains w (n ∷ p))) [
  | inl has ↦ rw has has
  | inr new ↦ elim (Bool-cases (there p w)) [
    | inl up ↦ rw (new, up) (ground (arith, node_eq_iff (n ∷ p) (n ∷ p)))
    | inr down ↦ ground (arith, h, new, down)
  ]
]

tree_had :
    (node : Node) (b : Bool) (w : List Node)
    → (tree_create node b w).0 ≡ node_exists
    → There node (tree_create node b w).1
unfolding There tree_create there contains
tree_had [] b w h = refl
tree_had (n ∷ p) b w h = ground (arith, h)

tree_still :
    (node other : Node) (b : Bool) (w : List Node)
    → There other w
    → There other (tree_create node b w).1
unfolding There tree_create there contains
tree_still node [] b w t = refl
tree_still [] (m ∷ q) b w t = t
tree_still (n ∷ p) (m ∷ q) b w t = ground (arith, t)

tree_listed :
    (node other : Node) (w : List Node) → There other w → There other (tree_children node w).1
unfolding There tree_children there contains
tree_listed node other w t = elim (Bool-cases (there node w)) [
  | inl up ↦ rw up t
  | inr down ↦ rw down t
]

tree_parent :
    (name : Text) (parent : Node) (b : Bool) (w : List Node)
    → There parent w
    → (tree_create (name ∷ parent) b w).0 ≢ no_node
unfolding There tree_create
tree_parent name parent b w t h = ground (arith, t, h)

tree_calm : Calm tree
tree_calm = record {
  There = There;
  create-There = tree_created;
  exists-There = tree_had;
  still-There = tree_still;
  children-There = tree_listed;
  parent-There = tree_parent;
}

-- Two ephemeral nodes and the directory of one of them, in a Zookeeper that lost them all.
abbrev lost : Watcher tree
lost = record {
  ephemeral_nodes =
      (codes "00000@a" ∷ codes "1" ∷ codes "v1" ∷ []) ∷ (codes "s@a" ∷ codes "nodes" ∷ []) ∷ [];
  watched_nodes = (codes "1" ∷ codes "v1" ∷ []) ∷ [];
  errs = none;
  world = [];
}

lost-IsNamed : All IsNamed lost.ephemeral_nodes
lost-IsNamed = (
  below (codes "00000@a") (codes "1" ∷ codes "v1" ∷ []),
  (below (codes "s@a") (codes "nodes" ∷ []), tt),
)

lost_restored : (run_hooks tree lost).0 ≡ none
unfolding run_hooks restore_nodes restore_watches watch_children children_loop hook_create_ephemeral
    create_loop create_all create_one tree_create tree_children there children_of contains node_eq
    text_eq
lost_restored = refl

run_hooks-There_example :
    All (λ node. tree_calm.There node (run_hooks tree lost).1.world) lost.ephemeral_nodes
run_hooks-There_example = run_hooks-There tree tree_calm lost lost-IsNamed lost_restored
