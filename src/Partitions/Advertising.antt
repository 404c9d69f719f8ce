-- ===== src/Partitions/Advertising.antt =====
-- Which nodes of the version the watcher keeps.
use sequins.Prelude.{
  ℕ, ◌≡◌, ◌≢◌, refl, sym, subst, true, false, not, ◌&&◌, ◌||◌, Text, Text_eq, native_keys, List, [],
  ◌∷◌, Option, none, some, arith, inl, inr, KeySet, map, contains, add, add_all, remove, remove_all,
  contains-add_all, contains-remove_all, contains-map-add_all, >>=_some, ◌⊎◌, Option-cases,
}
use sequins.Partitions.{
  Partitions, Peers, Watcher, node_path, watch_partitions, update_local_partitions,
  update_remote_partitions, create_nodes, remove_nodes, partition_zk_node, update_missing,
  pick_local_partitions, fresh,
}
use sequins.Partitions.Runs.{
  Reached, watched, got_local, got_remote, advertised, unadvertised, LocalStep, local_step,
  RemoteStep, remote_step, SwitchStep, advertise_step, unadvertise_step, NoNodes,
}

module _ (p : Partitions) (ps : Peers) (e : p.peers ≡ some ps) where
  node_some : (i : ℕ) → partition_zk_node i p ≡ some (node_path p ps i)
  unfolding partition_zk_node
  node_some i = rw e refl

  create_nodes_all :
      (is : KeySet ℕ) (w : Watcher)
      → create_nodes is p w ≡ some (add_all (map (node_path p ps) is) w)
  unfolding create_nodes add_all
  create_nodes_all [] w = refl
  create_nodes_all (i ∷ is) w = rw (node_some i) (create_nodes_all is (add (node_path p ps i) w))

  remove_nodes_all :
      (is : KeySet ℕ) (w : Watcher)
      → remove_nodes is p w ≡ some (remove_all (map (node_path p ps) is) w)
  unfolding remove_nodes remove_all
  remove_nodes_all [] w = refl
  remove_nodes_all (i ∷ is) w = rw (node_some i) (remove_nodes_all is (remove (node_path p ps i) w))

  created :
      (is : KeySet ℕ) (w v : Watcher) (x : Text)
      → create_nodes is p w ≡ some v
      → contains v x ≡ (contains (map (node_path p ps) is) x || contains w x)
  created is w v x made =
      subst (λ u. contains u x ≡ (contains (map (node_path p ps) is) x || contains w x))
        (ground (arith, create_nodes_all is w, made))
        (contains-add_all (map (node_path p ps) is) w x)

  removed :
      (is : KeySet ℕ) (w v : Watcher) (x : Text)
      → remove_nodes is p w ≡ some v
      → contains v x ≡ (not (contains (map (node_path p ps) is) x) && contains w x)
  removed is w v x made =
      subst (λ u. contains u x ≡ (not (contains (map (node_path p ps) is) x) && contains w x))
        (ground (arith, remove_nodes_all is w, made))
        (contains-remove_all (map (node_path p ps) is) w x)

-- A node of the version is kept exactly if it is that of a partition which is here, while the
-- version advertises.
Kept : Partitions → Watcher → Peers → ℕ → Type 0
Kept p w ps i =
    contains w (node_path p ps i)
    ≡ (p.should_advertise && contains (map (node_path p ps) p.local) (node_path p ps i))

Advertised : Partitions → Watcher → Type 0
Advertised p w =
    (p.peers ≡ none → p.should_advertise ≡ false)
    × ((ps : Peers) → p.peers ≡ some ps → (i : ℕ) → Kept p w ps i)

advertise-Advertised :
    (p q : Partitions) (w v : Watcher)
    → SwitchStep p q w v true create_nodes
    → Advertised p w
    → Advertised q v
unfolding SwitchStep Advertised Kept
advertise-Advertised p q w v (inl (e, same, still)) a = rw (same, still) a
advertise-Advertised p q w v (inr (ps, e, made, same)) a =
    subst (λ x. Advertised x v) (sym same) ((λ n. absurd (ground (arith, n, e))), kept)
  where
    kept :
        (us : Peers)
        → p.peers ≡ some us
        → (i : ℕ) → Kept (record p { should_advertise = true }) v us i
    kept us u i = ground (arith, created p us u p.local w v (node_path p us i) made, a.1 us u i)

unadvertise-Advertised :
    (p q : Partitions) (w v : Watcher)
    → SwitchStep p q w v false remove_nodes
    → Advertised p w
    → Advertised q v
unfolding SwitchStep Advertised Kept
unadvertise-Advertised p q w v (inl (e, same, still)) a = rw (same, still) a
unadvertise-Advertised p q w v (inr (ps, e, made, same)) a =
    subst (λ x. Advertised x v) (sym same) ((λ n. refl), kept)
  where
    kept :
        (us : Peers)
        → p.peers ≡ some us
        → (i : ℕ) → Kept (record p { should_advertise = false }) v us i
    kept us u i = ground (arith, removed p us u p.local w v (node_path p us i) made, a.1 us u i)

update_local-Advertised :
    (local : KeySet ℕ) (p q : Partitions) (w v : Watcher)
    → LocalStep p q w v local
    → Advertised p w
    → Advertised q v
unfolding LocalStep Advertised Kept update_missing
update_local-Advertised local p q w v (same, how) a =
    subst (λ x. Advertised x v) (sym same) (a.0, kept how)
  where
    next : Partitions
    next = update_missing (record p { local = add_all local p.local })

    kept :
        ((p.should_advertise ≡ true) × (create_nodes q.local q w ≡ some v))
          ⊎ ((p.should_advertise ≡ false) × (v ≡ w))
        → (us : Peers) → p.peers ≡ some us
        → (i : ℕ) → Kept next v us i
    kept (inl (on, made)) us u i = ground (
      arith,
      a.1 us u i,
      on,
      contains-map-add_all (node_path p us) local p.local (node_path p us i),
      created next us u next.local w v (node_path p us i)
          (subst (λ x. create_nodes x.local x w ≡ some v) same made),
    )
    kept (inr (off, still)) us u i = rw still (ground (arith, a.1 us u i, off))

update_remote-Advertised :
    (nodes : List Text) (p q : Partitions) (w : Watcher)
    → RemoteStep nodes p q
    → Advertised p w
    → Advertised q w
unfolding RemoteStep Advertised Kept update_missing
update_remote-Advertised nodes p q w (inl (e, same)) a = subst (λ x. Advertised x w) (sym same) a
update_remote-Advertised nodes p q w (inr (ps, remote, e, read, same)) a =
    subst (λ x. Advertised x w) (sym same) a

watch-Advertised :
    (peers : Option Peers) (db version : Text) (n r : ℕ) (nodes : List Text) (p : Partitions)
    (w : Watcher)
    → watch_partitions peers db version n r nodes ≡ some p
    → NoNodes p w
    → Advertised p w
unfolding watch_partitions NoNodes Advertised Kept pick_local_partitions fresh RemoteStep
    update_missing
watch-Advertised peers db version n r nodes p w h f = ((λ n. off), λ ps e i. rw off (f ps i))
  where
    first : Partitions
    first = pick_local_partitions (fresh peers db version n r)

    picked : first.should_advertise ≡ false
    picked = elim (Option-cases peers) [ inl e ↦ rw e refl | inr (ps, e) ↦ rw e refl ]

    read : (q : Partitions) → RemoteStep nodes first q → q.should_advertise ≡ false
    read q (inl (e, same)) = subst (λ x. x.should_advertise ≡ false) (sym same) picked
    read q (inr (ps, remote, e, got, same)) =
        subst (λ x. x.should_advertise ≡ false) (sym same) picked

    off : p.should_advertise ≡ false
    off =
        let (q, got, done) =
          >>=_some (update_remote_partitions nodes first) (λ x. some (update_missing x)) h in
        let same : update_missing q ≡ p = ground (arith, done) in
        subst (λ (x : Partitions). x.should_advertise ≡ false) same
          (read q (remote_step nodes first q got))

Reached-Advertised : (p : Partitions) (w : Watcher) → Reached p w → Advertised p w
Reached-Advertised p w (watched peers db version n r nodes h f) =
    watch-Advertised peers db version n r nodes p w h f
Reached-Advertised q v (got_local {p = p} {w = w} local r h) =
    update_local-Advertised local p q w v (local_step p q w v local h) (Reached-Advertised p w r)
Reached-Advertised q w (got_remote {p = p} nodes r h) =
    update_remote-Advertised nodes p q w (remote_step nodes p q h) (Reached-Advertised p w r)
Reached-Advertised q v (advertised {p = p} {w = w} r h) =
    advertise-Advertised p q w v (advertise_step p q w v h) (Reached-Advertised p w r)
Reached-Advertised q v (unadvertised {p = p} {w = w} r h) =
    unadvertise-Advertised p q w v (unadvertise_step p q w v h) (Reached-Advertised p w r)

-- In every state that a version's partitions reach, on a node that has peers: the watcher keeps the
-- Zookeeper node of a partition that is here exactly while the version advertises, and no other
-- node of the version; and to get more partitions does not panic.
pub Reached-advertises :
    (p : Partitions) (w : Watcher) (ps : Peers)
    → Reached p w
    → p.peers ≡ some ps
    → ((i : ℕ)
        → contains w (node_path p ps i)
          ≡ (p.should_advertise && contains (map (node_path p ps) p.local) (node_path p ps i)))
      × ((local : KeySet ℕ) → update_local_partitions local p w ≢ none)
unfolding Advertised Kept update_local_partitions update_missing
Reached-advertises p w ps r e = ((Reached-Advertised p w r).1 ps e, returns)
  where
    returns : (local : KeySet ℕ) → update_local_partitions local p w ≢ none
    returns local h =
        let next : Partitions = update_missing (record p { local = add_all local p.local }) in
        ground (arith, h, create_nodes_all next ps e next.local w)
