-- ===== src/Peers/Agreement.antt =====
-- Two nodes that read the same listing agree on which of them has a partition.
use sequins.Prelude.{
  ℕ, ◌≡◌, ◌≢◌, refl, sym, ap, subst, ◌∙◌, Bool, true, false, ◌&&◌, ◌||◌, Text, Text_eq, text_eq_iff,
  List, [], ◌∷◌, some, arith, Bool-cases, inl, inr, KeySet, contains, contains-add, contains-append,
  add, map, ◌==◌, if◌then◌else◌,
}
use sequins.Peers.{
  Peer, same_peer, Peer_eq, same_peer_iff, Peers, Seen, update_peers, pick_peers, pick, peer_self,
}
use sequins.Peers.Listing.{
  node_name, Named, in_shard, see_members, see_all-node_names, see_members-shards,
  see_members-peers,
}

Bool-eq : (a b : Bool) → (a ≡ true → b ≡ true) → (b ≡ true → a ≡ true) → a ≡ b
Bool-eq true b f g = sym (f refl)
Bool-eq false true f g = g refl
Bool-eq false false f g = refl

any_in_shard : Text → List Peer → Bool
any_in_shard id [] = false
any_in_shard id (x ∷ xs) = x.shard_id == id || any_in_shard id xs

-- A member of the listing that no other member shares the address with, nor has a name for itself.
unfoldable pub Member : List Peer → Peer → Type 0
Member members p =
    (contains members p ≡ true)
    × ((x : Peer) → contains members x ≡ true → x.address ≡ p.address → x ≡ p)

module _ (members : List Peer) (p : Peer) (m : Member members p) (id : Text) where
  in_shard_any : (xs : List Peer) → in_shard p.address id xs ≡ true → any_in_shard id xs ≡ true
  unfolding in_shard any_in_shard
  in_shard_any [] h = h
  in_shard_any (x ∷ xs) h = ground (arith, in_shard_any xs)

  own_any : (xs : List Peer) → contains xs p ≡ true → p.shard_id ≡ id → any_in_shard id xs ≡ true
  unfolding any_in_shard contains
  own_any [] h e = ground (arith, h)
  own_any (x ∷ xs) h e = ground (
    arith,
    own_any xs,
    same_peer_iff x p,
    text_eq_iff x.shard_id id,
    text_eq_iff x.shard_id p.shard_id,
    h,
    e,
  )

  any_own :
      (xs : List Peer)
      → ((x : Peer) → contains xs x ≡ true → x.address ≡ p.address → x ≡ p)
      → any_in_shard id xs ≡ true
      → (p.shard_id == id || in_shard p.address id xs) ≡ true
  unfolding any_in_shard in_shard contains
  any_own [] u h = absurd (ground (arith, h))
  any_own (x ∷ xs) u h = elim (Bool-cases (x.shard_id == id)) [
    | inr other ↦
        ground (arith, any_own xs (λ y c e. u y (ground (arith, c)) e) (ground (arith, h, other)))
    | inl here ↦ elim (Bool-cases (x.address == p.address)) [
      | inr away ↦ ground (arith, here, away)
      | inl own ↦
          let same : x ≡ p =
            u x (ground (arith, same_peer_iff x x)) ((text_eq_iff x.address p.address).0 own) in
          let shard : (p.shard_id == id) ≡ true =
            subst (λ (y : Peer). (y.shard_id == id) ≡ true) same here in
          ground (arith, shard)
    ]
  ]

  -- The shards that a member sets the ring to are those of all members.
  ring_shards : (p.shard_id == id || in_shard p.address id members) ≡ any_in_shard id members
  unfolding Member
  ring_shards = Bool-eq _ _ forth (any_own members m.1)
    where
      forth :
          (p.shard_id == id || in_shard p.address id members) ≡ true
          → any_in_shard id members ≡ true
      forth h = elim (Bool-cases (p.shard_id == id)) [
        | inl same ↦ own_any members m.0 ((text_eq_iff p.shard_id id).0 same)
        | inr other ↦ in_shard_any members (ground (arith, h, other))
      ]

-- A node after updatePeers.
pub updated : List Peer → Peers → Peers
updated members p = record p {
  peers = (see_members p.address members (record { new_peers = []; shards = [] })).new_peers;
  ring =
      add p.shard_id
        (see_members p.address members (record { new_peers = []; shards = [] })).shards;
}

update_peers-updated :
    (members : List Peer) (p q : Peers)
    → Named members
    → update_peers (map node_name members) p ≡ some q
    → q ≡ updated members p
unfolding update_peers updated
update_peers-updated members p q n h =
    ground
      (arith, h, see_all-node_names p.address members (record { new_peers = []; shards = [] }) n)

abbrev pub itself : Peers → Peer
itself p = record { shard_id = p.shard_id; address = p.address }

contains-ring :
    (members : List Peer) (p : Peers) (id : Text)
    → Member members (itself p)
    → contains (updated members p).ring id ≡ any_in_shard id members
unfolding updated contains
contains-ring members p id m =
    contains-add p.shard_id id seen.shards
    ∙ ap (λ b. p.shard_id == id || b)
        (see_members-shards p.address members none_seen id ∙ ground arith)
    ∙ ring_shards members (itself p) m id
  where
    none_seen : Seen
    none_seen = record { new_peers = []; shards = [] }

    seen : Seen
    seen = see_members p.address members none_seen

module _ (shards : KeySet Text) where
  picked :
      (x : Peer) (xs : KeySet Peer)
      → contains xs x ≡ true
      → contains shards x.shard_id ≡ true
      → contains (pick_peers shards xs) x.address ≡ true
  unfolding pick_peers contains
  picked x [] c s = c
  picked x (y ∷ ys) c s = elim (Bool-cases (same_peer y x)) [
    | inl same ↦
        let e : y ≡ x = (same_peer_iff y x).0 same in
        let s' : contains shards y.shard_id ≡ true =
          subst (λ (z : Peer). contains shards z.shard_id ≡ true) (sym e) s in
        let a : (y.address == x.address) ≡ true =
          (text_eq_iff y.address x.address).1 (ap (λ (z : Peer). z.address) e) in
        ground (arith, s', a)
    | inr other ↦ ground (arith, picked x ys (ground (arith, c, other)) s)
  ]

  picked_from :
      (a : Text) (xs : KeySet Peer)
      → contains (pick_peers shards xs) a ≡ true
      → (x : Peer) × (contains xs x ≡ true) × (x.address ≡ a) × (contains shards x.shard_id ≡ true)
  unfolding pick_peers contains
  picked_from a [] h = absurd (ground (arith, h))
  picked_from a (y ∷ ys) h = elim (Bool-cases (contains shards y.shard_id && y.address == a)) [
    | inl here ↦ (
      y,
      ground (arith, same_peer_iff y y),
      ground (arith, here, text_eq_iff y.address a),
      ground (arith, here),
    )
    | inr away ↦
        let (x, c, e, s) = picked_from a ys (ground (arith, h, away)) in
        (x, ground (arith, c), e, s)
  ]

-- The ring gives the same shards, whatever the order in which it was set.
abbrev pub SetRing : (List Text → Text → ℕ → List Text) → Type 0
SetRing get_n =
    (a b : List Text)
    → ((x : Text) → contains a x ≡ contains b x)
    → (id : Text) (n : ℕ) (x : Text) → contains (get_n a id n) x ≡ contains (get_n b id n) x

-- The last part of pick's result.
own_part : Bool → List Text
own_part b = if b then peer_self ∷ [] else []

contains-own_part : (b : Bool) (a : Text) → contains (own_part b) a ≡ (b && peer_self == a)
unfolding own_part contains
contains-own_part true a = ground arith
contains-own_part false a = refl

no_peers : Seen
no_peers = record { new_peers = []; shards = [] }

module _ (get_n : List Text → Text → ℕ → List Text) (members : List Peer) (id : Text) (n : ℕ)
    (p : Peers) where
  shards_of : List Text
  shards_of = get_n (updated members p).ring id n

  known_peers : KeySet Peer
  known_peers = (see_members p.address members no_peers).new_peers

  contains-pick :
      (a : Text)
      → contains (pick get_n id n (updated members p)) a ≡ (
          contains (pick_peers shards_of known_peers) a
          || (contains shards_of p.shard_id && peer_self == a))
  unfolding pick shards_of updated known_peers no_peers own_part
  contains-pick a =
      contains-append (pick_peers shards_of known_peers) (own_part (contains shards_of p.shard_id))
        a
      ∙ ap (λ b. contains (pick_peers shards_of known_peers) a || b)
          (contains-own_part (contains shards_of p.shard_id) a)

  known_member : (y : Peer) → contains known_peers y ≡ true → contains members y ≡ true
  unfolding known_peers no_peers contains
  known_member y h = ground (arith, h, see_members-peers p.address members no_peers y)

  member_known :
      (y : Peer) → contains members y ≡ true → p.address ≢ y.address → contains known_peers y ≡ true
  unfolding known_peers no_peers contains
  member_known y h away = ground (
    arith,
    h,
    away,
    text_eq_iff y.address p.address,
    see_members-peers p.address members no_peers y,
  )

  picks_other :
      (x : Peer)
      → Member members x
      → p.address ≢ x.address
      → x.address ≢ peer_self
      → contains (pick get_n id n (updated members p)) x.address ≡ contains shards_of x.shard_id
  unfolding Member
  picks_other x m away named = Bool-eq _ _ forth back
    where
      forth :
          contains (pick get_n id n (updated members p)) x.address ≡ true
          → contains shards_of x.shard_id ≡ true
      forth h =
          let (y, known, same, has) =
            picked_from shards_of x.address known_peers (
              ground (arith, h, contains-pick x.address, text_eq_iff peer_self x.address, named)) in
          let e : y ≡ x = m.1 y (known_member y known) same in
          subst (λ (z : Peer). contains shards_of z.shard_id ≡ true) e has

      back :
          contains shards_of x.shard_id ≡ true
          → contains (pick get_n id n (updated members p)) x.address ≡ true
      back h = ground (
        arith,
        contains-pick x.address,
        picked shards_of x known_peers (member_known x m.0 away) h,
      )

  picks_self :
      ((x : Peer) → contains members x ≡ true → x.address ≢ peer_self)
      → contains (pick get_n id n (updated members p)) peer_self ≡ contains shards_of p.shard_id
  picks_self named = elim (Bool-cases (contains (pick_peers shards_of known_peers) peer_self)) [
    | inl h ↦
        let (y, known, same, has) = picked_from shards_of peer_self known_peers h in
        absurd (named y (known_member y known) same)
    | inr h ↦ contains-pick peer_self ∙ ground (arith, h, text_eq_iff peer_self peer_self)
  ]

-- Two members of a cluster that read the same listing, in which no other member has the address of
-- one of them and none has the address that stands for a node itself: the one is among the peers that
-- the other picks for a partition exactly if it picks itself.
pub pick-agrees :
    (get_n : List Text → Text → ℕ → List Text) (members : List Peer) (p q p' q' : Peers) (id : Text)
    (n : ℕ)
    → SetRing get_n
    → Named members
    → Member members (itself p)
    → Member members (itself q)
    → p.address ≢ q.address
    → ((x : Peer) → contains members x ≡ true → x.address ≢ peer_self)
    → update_peers (map node_name members) p ≡ some p'
    → update_peers (map node_name members) q ≡ some q'
    → contains (pick get_n id n p') q.address ≡ contains (pick get_n id n q') peer_self
unfolding shards_of Member
pick-agrees get_n members p q p' q' id n ring names mp mq away named hp hq =
    ap (λ (x : Peers). contains (pick get_n id n x) q.address)
      (update_peers-updated members p p' names hp)
    ∙ picks_other get_n members id n p (itself q) mq away (named (itself q) mq.0)
    ∙ ring (updated members p).ring (updated members q).ring
        (λ x. contains-ring members p x mp ∙ sym (contains-ring members q x mq)) id n q.shard_id
    ∙ sym (picks_self get_n members id n q named)
    ∙ ap (λ (x : Peers). contains (pick get_n id n x) peer_self)
        (sym (update_peers-updated members q q' names hq))
