-- ===== src/Peers/Tests.antt =====
-- Two nodes with a shard each.
use sequins.Prelude.{
  ℕ, ◌≡◌, ◌≢◌, refl, true, Text, Text_eq, text_eq, codes, List, [], ◌∷◌, some, arith, contains, add,
  split_at, map,
}
use sequins.Peers.{
  Peer, Peer_eq, same_peer_iff, Peers, update_peers, pick, get_all, display, peer_self,
}
use sequins.Peers.Listing.{node_name, Named}
use sequins.Peers.Agreement.{Member, itself, SetRing, pick-agrees}

abbrev a : Peers
a = record { shard_id = codes "s1"; address = codes "a:80"; peers = []; ring = [] }

abbrev b : Peers
b = record { shard_id = codes "s2"; address = codes "b:80"; peers = []; ring = [] }

abbrev members : List Peer
members = itself a ∷ itself b ∷ []

abbrev a_updated : Peers
a_updated = record a { peers = itself b ∷ []; ring = codes "s2" ∷ codes "s1" ∷ [] }

abbrev b_updated : Peers
b_updated = record b { peers = itself a ∷ []; ring = codes "s1" ∷ codes "s2" ∷ [] }

update_a : update_peers (map node_name members) a ≡ some a_updated
unfolding update_peers split_at add contains text_eq
update_a = refl

update_b : update_peers (map node_name members) b ≡ some b_updated
unfolding update_peers split_at add contains text_eq
update_b = refl

get_all_updated : get_all a_updated ≡ codes "b:80" ∷ []
unfolding get_all
get_all_updated = refl

display_shard : display (itself a) ≡ codes "a:80 (s1)"
unfolding display text_eq
display_shard = refl

-- A ring that picks every shard.
abbrev every : List Text → Text → ℕ → List Text
every shards id n = shards

every_set : SetRing every
every_set s t h id n x = h x

named : Named members
unfolding Named
named = (refl, (refl, tt))

a-Member : Member members (itself a)
unfolding Member contains text_eq
a-Member =
    (refl, λ x c e. ground (arith, c, same_peer_iff (itself a) x, same_peer_iff (itself b) x, e))

b-Member : Member members (itself b)
unfolding Member contains text_eq
b-Member =
    (refl, λ x c e. ground (arith, c, same_peer_iff (itself a) x, same_peer_iff (itself b) x, e))

apart : a.address ≢ b.address
apart = ground arith

no_self : (x : Peer) → contains members x ≡ true → x.address ≢ peer_self
unfolding contains
no_self x c e = ground (arith, c, same_peer_iff (itself a) x, same_peer_iff (itself b) x, e)

pick-agrees_example :
    contains (pick every (codes "p:00000") 2 a_updated) (codes "b:80")
    ≡ contains (pick every (codes "p:00000") 2 b_updated) peer_self
pick-agrees_example =
    pick-agrees every members a b a_updated b_updated (codes "p:00000") 2 every_set named a-Member
      b-Member apart no_self update_a update_b
