-- ===== src/Partitions/Remote.antt =====
-- The listing that Zookeeper gives of the version's nodes, read back.
use sequins.Prelude.{
  ℕ, ◌≡◌, refl, sym, ◌∙◌, true, not, ◌&&◌, Text, Text_eq, native_keys, List, [], ◌∷◌, ◌++◌, some,
  arith, Map, map, lookup, insert, lookup-insert, ◌==◌, if◌then◌else◌, nat_eq, nat_eq_iff, decimal5,
  atoi-decimal5, decimal5-digits, all_digits, split_at, append-nil, append_assoc, all_digits,
}
use sequins.Partitions.{
  Partitions, Peers, node_name, add_node, remote_loop, hosts_of, update_remote_partitions,
  get_peers, update_missing,
}

-- The node that the peer at an address made for a partition it has.
abbrev pub entry_name : ℕ × Text → Text
entry_name (i, address) = node_name address i

-- The other peers that have partition `i`, in the order of the listing.
unfoldable pub peers_with : Text → ℕ → List (ℕ × Text) → List Text
peers_with own i [] = []
peers_with own i ((j, address) ∷ entries) =
    let rest = peers_with own i entries in
    if nat_eq j i && not (address == own) then address ∷ rest else rest

split_at-digits : (s t : Text) → all_digits s ≡ true → split_at b'@' (s ++ b'@' ∷ t) ≡ (s, some t)
unfolding split_at all_digits
split_at-digits [] t h = refl
split_at-digits (c ∷ s) t h = ground (arith, split_at-digits s t (ground arith))

module _ (own : Text) where
  add_node-node_name :
      (i : ℕ) (address : Text) (remote : Map ℕ (List Text))
      → add_node own (node_name address i) remote
        ≡ some
            (if address == own then remote else insert i (hosts_of i remote ++ address ∷ []) remote)
  unfolding add_node
  add_node-node_name i address remote =
      rw (split_at-digits (decimal5 i) address (decimal5-digits i)) (rw (atoi-decimal5 i) refl)

  hosts_of-insert :
      (i j : ℕ) (hosts : List Text) (remote : Map ℕ (List Text))
      → hosts_of j (insert i hosts remote) ≡ (if i == j then hosts else hosts_of j remote)
  unfolding hosts_of
  hosts_of-insert i j hosts remote = ground (arith, lookup-insert i j hosts remote)

  step_hosts :
      (i j : ℕ) (a : Text) (entries : List (ℕ × Text)) (remote : Map ℕ (List Text))
      → hosts_of i (if a == own then remote else insert j (hosts_of j remote ++ a ∷ []) remote)
          ++ peers_with own i entries
        ≡ hosts_of i remote ++ peers_with own i ((j, a) ∷ entries)
  unfolding peers_with
  step_hosts i j a entries remote = grind (
    arith,
    hosts_of-insert j i (hosts_of j remote ++ a ∷ []) remote,
    append_assoc (hosts_of j remote) (a ∷ []) (peers_with own i entries),
    nat_eq_iff j i,
  )

  Read : List (ℕ × Text) → Map ℕ (List Text) → Type 0
  Read entries remote =
      (after : Map ℕ (List Text)) × (remote_loop own (map entry_name entries) remote ≡ some after)
      × ((i : ℕ) → hosts_of i after ≡ hosts_of i remote ++ peers_with own i entries)

  remote_loop-Read : (entries : List (ℕ × Text)) (remote : Map ℕ (List Text)) → Read entries remote
  unfolding Read remote_loop peers_with
  remote_loop-Read [] remote = (remote, refl, λ i. sym (append-nil (hosts_of i remote)))
  remote_loop-Read ((j, a) ∷ entries) remote =
      let next = if a == own then remote else insert j (hosts_of j remote ++ a ∷ []) remote in
      let (after, loop, hosts) = remote_loop-Read entries next in
      (
        after,
        rw (add_node-node_name j a remote) loop,
        λ i. hosts i ∙ step_hosts i j a entries remote,
      )

-- The nodes that peers made are read without a panic, and then each partition has, in the order of
-- the listing, the addresses of the peers other than this one that made a node for it.
pub update_remote-node_names :
    (entries : List (ℕ × Text)) (p : Partitions) (ps : Peers)
    → p.peers ≡ some ps
    → (q : Partitions) × (update_remote_partitions (map entry_name entries) p ≡ some q)
      × ((i : ℕ) → get_peers i q ≡ peers_with ps.address i entries)
unfolding update_remote_partitions get_peers update_missing Read hosts_of lookup
update_remote-node_names entries p ps e =
    let (remote, loop, hosts) = remote_loop-Read ps.address entries [] in
    (
      update_missing (record p { remote = remote }),
      ground (arith, e, loop),
      λ i. ground (arith, e, hosts i),
    )
