-- ===== src/Peers.antt =====
-- peers.go: the nodes of the cluster, and which of them the hash ring picks for a partition. The
-- ring (stathat.com/c/consistent) is a function `get_n` of the shards that were set, the id and the
-- number of replicas. `none` is a panic.
pub mod Listing
pub mod Agreement
pub mod Converging
pub mod Tests
use sequins.Prelude.{
  ℕ, Bool, true, false, not, ◌&&◌, ◌||◌, Text, Text_eq, text_eq, text_eq_iff, codes, List, [], ◌∷◌,
  ◌++◌, Option, none, some, ◌>>=◌, if◌then◌else◌, ◌==◌, Comparable, KeySet, contains, add, split_at,
  map, filter, ◌≡◌, ◌↔◌, arith,
}

pub record Peer : Type 0 where
  pub shard_id : Text
  pub address : Text

abbrev pub same_peer : Peer → Peer → Bool
same_peer a b = a.shard_id == b.shard_id && a.address == b.address

pub same_peer_iff : (a b : Peer) → (same_peer a b ≡ true) ↔ (a ≡ b)
same_peer_iff a b =
    ground (arith, text_eq_iff a.shard_id b.shard_id, text_eq_iff a.address b.address)

instance abbrev pub Peer_eq : Comparable Peer
Peer_eq = record { equal = same_peer; sound = same_peer_iff }

pub record Peers : Type 0 where
  pub shard_id : Text
  pub address : Text
  pub peers : KeySet Peer
  -- what the ring was last set to
  pub ring : List Text

abbrev pub peer_self : Text
peer_self = codes "(self)"

pub watch_peers : Text → Text → Peers
watch_peers shard_id address = record {
  shard_id = shard_id;
  address = address;
  peers = [];
  ring = [];
}

-- newPeers and shards, as the loop over the nodes fills them.
pub record Seen : Type 0 where
  pub new_peers : KeySet Peer
  pub shards : KeySet Text

pub see : Text → Text → Text → Seen → Seen
see own id addr seen = if addr == own then seen else record {
  new_peers = add (record { shard_id = id; address = addr }) seen.new_peers;
  shards = add id seen.shards;
}

pub see_all : Text → List Text → Seen → Option Seen
unfolding see
see_all own [] seen = some seen
see_all own (node ∷ nodes) seen =
    let parts = split_at b'@' node in
    (parts.1 >>= λ addr. see_all own nodes (see own parts.0 addr seen))

pub update_peers : List Text → Peers → Option Peers
unfolding see_all
update_peers addrs p = do
  seen ← see_all p.address addrs (record { new_peers = []; shards = [] })
  some (record p { peers = seen.new_peers; ring = add p.shard_id seen.shards })

pub get_all : Peers → List Text
get_all p = map (λ (x : Peer). x.address) p.peers

-- addrs, over the peers that are left.
pub pick_peers : KeySet Text → KeySet Peer → List Text
pick_peers shards [] = []
pick_peers shards (x ∷ xs) =
    let rest = pick_peers shards xs in if contains shards x.shard_id then x.address ∷ rest else rest

pub pick : (List Text → Text → ℕ → List Text) → Text → ℕ → Peers → List Text
unfolding pick_peers
pick get_n partition_id n p =
    let shards = get_n p.ring partition_id n in
    pick_peers shards p.peers ++ (if contains shards p.shard_id then peer_self ∷ [] else [])

pub display : Peer → Text
display p =
    if p.shard_id == p.address
    then p.address
    else p.address ++ codes " (" ++ p.shard_id ++ codes ")"
