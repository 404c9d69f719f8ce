-- ===== src/Peers/Listing.antt =====
-- updatePeers, on the listing of the nodes that the cluster's members made.
use sequins.Prelude.{
  ◌≡◌, refl, Bool, false, not, ◌&&◌, ◌||◌, Text, Text_eq, text_eq_iff, List, [], ◌∷◌, ◌++◌, some,
  arith, contains, contains-add, split_at, map, ◌==◌, nat_eq,
}
use sequins.Peers.{Peer, Peer_eq, same_peer_iff, Seen, see, see_all}

-- The node that a member makes: `%s@%s`.
abbrev pub node_name : Peer → Text
node_name x = x.shard_id ++ b'@' ∷ x.address

abbrev pub has_at : Text → Bool
has_at [] = false
has_at (c ∷ s) = nat_eq c b'@' || has_at s

pub split_at-no_at : (s t : Text) → has_at s ≡ false → split_at b'@' (s ++ b'@' ∷ t) ≡ (s, some t)
unfolding split_at
split_at-no_at [] t h = refl
split_at-no_at (c ∷ s) t h = ground (arith, split_at-no_at s t (ground arith))

-- No shard id has an '@'.
unfoldable pub Named : List Peer → Type 0
Named [] = Unit
Named (x ∷ xs) = (has_at x.shard_id ≡ false) × Named xs

-- The shards of some members, and whether one of them has a shard.
unfoldable pub in_shard : Text → Text → List Peer → Bool
in_shard own id [] = false
in_shard own id (x ∷ xs) = (not (x.address == own) && x.shard_id == id) || in_shard own id xs

pub see_members : Text → List Peer → Seen → Seen
unfolding see
see_members own [] seen = seen
see_members own (x ∷ xs) seen = see_members own xs (see own x.shard_id x.address seen)

pub see_all-node_names :
    (own : Text) (members : List Peer) (seen : Seen)
    → Named members
    → see_all own (map node_name members) seen ≡ some (see_members own members seen)
unfolding see_all Named see_members
see_all-node_names own [] seen h = refl
see_all-node_names own (x ∷ xs) seen h =
    rw (split_at-no_at x.shard_id x.address h.0)
      (see_all-node_names own xs (see own x.shard_id x.address seen) h.1)

module _ (own : Text) where
  pub see_members-shards :
      (members : List Peer) (seen : Seen) (id : Text)
      → contains (see_members own members seen).shards id
        ≡ (in_shard own id members || contains seen.shards id)
  unfolding see_members in_shard see
  see_members-shards [] seen id = refl
  see_members-shards (x ∷ xs) seen id = ground (
    arith,
    see_members-shards xs (see own x.shard_id x.address seen) id,
    contains-add x.shard_id id seen.shards,
  )

  pub see_members-peers :
      (members : List Peer) (seen : Seen) (p : Peer)
      → contains (see_members own members seen).new_peers p
        ≡ ((not (p.address == own) && contains members p) || contains seen.new_peers p)
  unfolding see_members see contains
  see_members-peers [] seen p = ground arith
  see_members-peers (x ∷ xs) seen p = ground (
    arith,
    see_members-peers xs (see own x.shard_id x.address seen) p,
    contains-add x p seen.new_peers,
    same_peer_iff x p,
    text_eq_iff x.address p.address,
  )
