-- ===== src/Partitions.antt =====
-- partitions.go: which partitions of a version are on this node and which on its peers. The hash
-- ring of the peers is a function, `pick` (peers.go); the watcher is the set of the ephemeral nodes
-- that it keeps in Zookeeper (`createEphemeral`, `removeEphemeral`). `none` is a panic. A method
-- that holds the lock is one step.
pub mod Runs
pub mod Missing
pub mod Advertising
pub mod Remote
pub mod Needed
pub mod Alone
pub mod Tests
use sequins.Prelude.{
  ℕ, zero, suc, ◌+◌, Bool, true, false, not, ◌||◌, ◌&&◌, Text, codes, List, [], ◌∷◌, ◌++◌, Option,
  none, some, ◌>>=◌, if◌then◌else◌, ◌==◌, Text_eq, native_keys, Map, KeySet, lookup, insert,
  contains, add, add_all, remove, decimal5, atoi, split_at, join, nat_eq, filter,
}

pub record Peers : Type 0 where
  pub address : Text
  pub pick : Text → ℕ → List Text

pub record Partitions : Type 0 where
  pub peers : Option Peers
  pub zk_path : Text
  pub num_partitions : ℕ
  pub replication : ℕ
  pub selected : KeySet ℕ
  pub local : KeySet ℕ
  pub remote : Map ℕ (List Text)
  pub num_missing : ℕ
  -- whether the channel `ready` is closed
  pub ready_closed : Bool
  pub should_advertise : Bool

abbrev pub Watcher : Type 0
Watcher = KeySet Text

abbrev pub peer_self : Text
peer_self = codes "(self)"

-- The name that another node parses, and its path.
abbrev pub node_name : Text → ℕ → Text
node_name address partition = decimal5 partition ++ b'@' ∷ address

abbrev pub node_path : Partitions → Peers → ℕ → Text
node_path p ps i = join p.zk_path (node_name ps.address i)

pub partition_zk_node : ℕ → Partitions → Option Text
partition_zk_node i p = elim p.peers [ none ↦ none | some ps ↦ some (node_path p ps i) ]

-- for partition := range ... { p.zkWatcher.createEphemeral(p.partitionZKNode(partition)) }
pub create_nodes : KeySet ℕ → Partitions → Watcher → Option Watcher
unfolding partition_zk_node
create_nodes [] p w = some w
create_nodes (i ∷ is) p w = do node ← partition_zk_node i p; create_nodes is p (add node w)

pub remove_nodes : KeySet ℕ → Partitions → Watcher → Option Watcher
unfolding partition_zk_node
remove_nodes [] p w = some w
remove_nodes (i ∷ is) p w = do node ← partition_zk_node i p; remove_nodes is p (remove node w)

pub partition_id : ℕ → Partitions → Text
partition_id i p = p.zk_path ++ b':' ∷ decimal5 i

-- The loop, from the last partition to the first; a set forgets the order.
pick_loop : ℕ → Partitions → Peers → KeySet ℕ
unfolding partition_id
pick_loop zero p ps = []
pick_loop (suc i) p ps =
    let before = pick_loop i p ps in
    if contains (ps.pick (partition_id i p) p.replication) peer_self then add i before else before

all_below : ℕ → KeySet ℕ
all_below zero = []
all_below (suc i) = add i (all_below i)

unfoldable pub pick_local_partitions : Partitions → Partitions
unfolding pick_loop all_below
pick_local_partitions p = elim p.peers [
  | none ↦ record p { selected = all_below p.num_partitions }
  | some ps ↦ record p { selected = pick_loop p.num_partitions p ps }
]

pub covered : KeySet ℕ → Map ℕ (List Text) → ℕ → Bool
covered local remote i =
    if contains local i then true else elim (lookup i remote) [ none ↦ false | some hosts ↦ true ]

pub count_missing : ℕ → KeySet ℕ → Map ℕ (List Text) → ℕ
unfolding covered
count_missing zero local remote = 0
count_missing (suc i) local remote =
    let before = count_missing i local remote in
    if covered local remote i then before else before + 1

unfoldable pub update_missing : Partitions → Partitions
unfolding count_missing
update_missing p =
    let missing = count_missing p.num_partitions p.local p.remote in
    record p { num_missing = missing; ready_closed = p.ready_closed || nat_eq missing 0 }

-- The method's receiver, once its loop over the nodes is through.
abbrev pub with_nodes : Partitions → Option Watcher → Option (Partitions × Watcher)
with_nodes p none = none
with_nodes p (some w) = some (p, w)

unfoldable pub update_local_partitions :
    KeySet ℕ → Partitions → Watcher → Option (Partitions × Watcher)
unfolding update_missing create_nodes
update_local_partitions local p w =
    let next = update_missing (record p { local = add_all local p.local }) in
    if next.should_advertise
    then with_nodes next (create_nodes next.local next w)
    else some (next, w)

-- remote[partition] = append(remote[partition], host)
pub hosts_of : ℕ → Map ℕ (List Text) → List Text
hosts_of i remote = elim (lookup i remote) [ none ↦ [] | some hosts ↦ hosts ]

pub add_node : Text → Text → Map ℕ (List Text) → Option (Map ℕ (List Text))
unfolding hosts_of
add_node own node remote =
    let parts = split_at b'@' node in
    let partition = atoi parts.0 in
    (parts.1 >>= λ host. some (
      if host == own
      then remote
      else insert partition (hosts_of partition remote ++ host ∷ []) remote))

pub remote_loop : Text → List Text → Map ℕ (List Text) → Option (Map ℕ (List Text))
unfolding add_node
remote_loop own [] remote = some remote
remote_loop own (node ∷ nodes) remote = do
  next ← add_node own node remote
  remote_loop own nodes next

pub update_remote_partitions : List Text → Partitions → Option Partitions
unfolding remote_loop update_missing
update_remote_partitions nodes p = elim p.peers [
  | none ↦ some p
  | some ps ↦
      (remote_loop ps.address nodes [] >>= λ remote.
      some (update_missing (record p { remote = remote })))
]

pub missing : Partitions → ℕ
missing p = p.num_missing

unfoldable pub needed : Partitions → KeySet ℕ
needed p = filter (λ i. not (contains p.local i)) p.selected

unfoldable pub have : Partitions → ℕ → Bool
have p i = contains p.local i

pub advertise_partitions : Partitions → Watcher → Option (Partitions × Watcher)
unfolding create_nodes
advertise_partitions p w = elim p.peers [
  | none ↦ some (p, w)
  | some ps ↦ with_nodes (record p { should_advertise = true }) (create_nodes p.local p w)
]

pub unadvertise_partitions : Partitions → Watcher → Option (Partitions × Watcher)
unfolding remove_nodes
unadvertise_partitions p w = elim p.peers [
  | none ↦ some (p, w)
  | some ps ↦ with_nodes (record p { should_advertise = false }) (remove_nodes p.local p w)
]

pub get_peers : ℕ → Partitions → List Text
unfolding hosts_of
get_peers i p = elim p.peers [ none ↦ [] | some ps ↦ hosts_of i p.remote ]

pub close_partitions : Partitions → Watcher → Option (Partitions × Watcher)
unfolding unadvertise_partitions
close_partitions p w = unadvertise_partitions p w

-- The struct before anything is picked or read. `nodes` is the first listing of the watched path.
pub fresh : Option Peers → Text → Text → ℕ → ℕ → Partitions
fresh peers db version num_partitions replication = record {
  peers = peers;
  zk_path = join (join (codes "partitions") db) version;
  num_partitions = num_partitions;
  replication = replication;
  selected = [];
  local = [];
  remote = [];
  num_missing = 0;
  ready_closed = false;
  should_advertise = false;
}

unfoldable pub watch_partitions : Option Peers → Text → Text → ℕ → ℕ → List Text → Option Partitions
unfolding fresh pick_local_partitions update_remote_partitions update_missing
watch_partitions peers db version num_partitions replication nodes = do
  p ←
      update_remote_partitions nodes
        (pick_local_partitions (fresh peers db version num_partitions replication))
  some (update_missing p)
