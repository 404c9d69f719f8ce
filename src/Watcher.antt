-- ===== src/Watcher.antt =====
-- zk_watcher.go: the ephemeral nodes that a node of the cluster keeps in Zookeeper, and the nodes
-- that it watches. A clean path is the list of its names, the last one first. gozk is the record
-- Zookeeper: its calls, on a world that others change between them as they like. `errs` is the
-- channel of one error.
pub mod Restoring
pub mod Hooks
pub mod GivingUp
pub mod Cleanup
pub mod Watches
pub mod Tests
use sequins.Prelude.{
  ℕ, zero, suc, Bool, true, false, ◌&&◌, Text, text_eq, text_eq_iff, List, [], ◌∷◌, ◌++◌, Option,
  none, some, ◌≡◌, ◌↔◌, refl, ap, arith, Comparable, contains, KeySet, add, remove,
}

abbrev pub Node : Type 0
Node = List Text

unfoldable pub node_eq : Node → Node → Bool
node_eq [] [] = true
node_eq [] (y ∷ b) = false
node_eq (x ∷ a) [] = false
node_eq (x ∷ a) (y ∷ b) = text_eq x y && node_eq a b

pub node_eq_iff : (a b : Node) → (node_eq a b ≡ true) ↔ (a ≡ b)
unfolding node_eq
node_eq_iff [] [] = ground arith
node_eq_iff [] (y ∷ b) = ground arith
node_eq_iff (x ∷ a) [] = ground arith
node_eq_iff (x ∷ a) (y ∷ b) = ground (arith, text_eq_iff x y, node_eq_iff a b)

instance abbrev pub Node_eq : Comparable Node
Node_eq = record { sound = node_eq_iff; equal = node_eq }

-- How a call ends that creates a node.
pub data Created : Type 0 where
  created node_exists no_node : Created
  failed : ℕ → Created

-- How ChildrenW ends.
pub data Listed : Type 0 where
  children : List Text → Listed
  no_parent : Listed
  not_listed : ℕ → Listed

pub record Zookeeper : Type 1 where
  pub World : Type 0
  -- Create, of an ephemeral node or of one that stays
  pub create : Node → Bool → World → Created × World
  pub delete : Node → World → World
  pub children_w : Node → World → Listed × World

pub data ZkError : Type 0 where
  exists_error no_node_error : ZkError
  zk_failed : ℕ → ZkError

-- What childrenW returns: the children with a channel of events, an error, or neither.
pub data Watched : Type 0 where
  watching : List Text → Watched
  not_watched : ZkError → Watched
  nothing : Watched

abbrev pub max_create_retries : ℕ
max_create_retries = 5

module _ (zk : Zookeeper) where
  abbrev pub World : Type 0
  World = Zookeeper.World zk

  -- The last call of createAll: that the node is there already is no error.
  pub create_one : Node → World → Option ZkError × World
  create_one node w =
      let (answer, w') = Zookeeper.create zk node false w in
      elim answer [
        | created ↦ (none, w')
        | node_exists ↦ (none, w')
        | no_node ↦ (some no_node_error, w')
        | failed n ↦ (some (zk_failed n), w')
      ]

  pub create_all : Node → World → Option ZkError × World
  unfolding create_one
  create_all [] w = create_one [] w
  create_all (n ∷ []) w = create_one (n ∷ []) w
  create_all (n ∷ m ∷ parent) w =
      let (result, w') = create_all (m ∷ parent) w in
      elim result [ some e ↦ (some e, w') | none ↦ create_one (n ∷ m ∷ parent) w' ]

  abbrev pub parent_of : Node → Node
  parent_of [] = []
  parent_of (n ∷ parent) = parent

  -- The loop of hookCreateEphemeral, with the tries that are left.
  pub create_loop : ℕ → Node → World → Option ZkError × World
  unfolding create_all
  create_loop zero node w = (none, w)
  create_loop (suc tries) node w =
      let (answer, w') = Zookeeper.create zk node true w in
      elim answer [
        | created ↦ (none, w')
        | node_exists ↦ (some exists_error, w')
        | failed n ↦ (some (zk_failed n), w')
        | no_node ↦
            let (result, w'') = create_all (parent_of node) w' in
            elim result [ some e ↦ (some e, w'') | none ↦ create_loop tries node w'' ]
      ]

  pub hook_create_ephemeral : Node → World → Option ZkError × World
  unfolding create_loop
  hook_create_ephemeral node w = create_loop max_create_retries node w

  pub children_loop : ℕ → Node → World → Watched × World
  unfolding create_all
  children_loop zero node w = (nothing, w)
  children_loop (suc tries) node w =
      let (answer, w') = Zookeeper.children_w zk node w in
      elim answer [
        | children names ↦ (watching names, w')
        | not_listed n ↦ (not_watched (zk_failed n), w')
        | no_parent ↦
            let (result, w'') = create_all node w' in
            elim result [ some e ↦ (not_watched e, w'') | none ↦ children_loop tries node w'' ]
      ]

  -- childrenW
  pub watch_children : Node → World → Watched × World
  unfolding children_loop
  watch_children node w = children_loop max_create_retries node w

  pub record Watcher : Type 0 where
    pub ephemeral_nodes : KeySet Node
    pub watched_nodes : List Node
    pub errs : Option ZkError
    pub world : World

  -- sendErr, if there is an error: it is dropped if the channel is full.
  abbrev pub send_err : Option ZkError → Option ZkError → Option ZkError
  send_err result (some first) = some first
  send_err result none = result

  pub create_ephemeral : Node → Watcher → Watcher
  unfolding hook_create_ephemeral
  create_ephemeral node s =
      let (result, w) = hook_create_ephemeral node s.world in
      record s {
        ephemeral_nodes = add node s.ephemeral_nodes;
        errs = send_err result s.errs;
        world = w;
      }

  pub remove_ephemeral : Node → Watcher → Watcher
  remove_ephemeral node s = record s {
    ephemeral_nodes = remove node s.ephemeral_nodes;
    world = Zookeeper.delete zk node s.world;
  }

  -- The two loops of runHooks.
  pub restore_nodes : List Node → World → Option ZkError × World
  unfolding hook_create_ephemeral
  restore_nodes [] w = (none, w)
  restore_nodes (node ∷ nodes) w =
      let (result, w') = hook_create_ephemeral node w in
      elim result [ some e ↦ (some e, w') | none ↦ restore_nodes nodes w' ]

  pub restore_watches : List Node → World → Option ZkError × World
  unfolding watch_children
  restore_watches [] w = (none, w)
  restore_watches (node ∷ nodes) w =
      let (result, w') = watch_children node w in
      elim result [
        | not_watched e ↦ (some e, w')
        | watching names ↦ restore_watches nodes w'
        | nothing ↦ restore_watches nodes w'
      ]

  pub run_hooks : Watcher → Option ZkError × Watcher
  unfolding restore_nodes restore_watches
  run_hooks s =
      let (result, w) = restore_nodes s.ephemeral_nodes s.world in
      elim result [
        | some e ↦ (some e, record s { world = w })
        | none ↦
            let (last, w') = restore_watches s.watched_nodes w in (last, record s { world = w' })
      ]
