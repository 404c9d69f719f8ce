-- ===== src/Partitions/Runs.antt =====
-- What a version's partitions go through: made by watchPartitions, then changed by its methods in
-- any order. Before the version is watched, the watcher keeps no node of it.
use sequins.Prelude.{
  ℕ, Text, Text_eq, [], subst, native_keys, Bool, if◌then◌else◌, List, Option, none, some, true,
  false, ◌≡◌, ◌⊎◌, inl, inr, KeySet, contains, Map, add_all, arith, ◌>>=◌, >>=_some, refl, sym,
}
use sequins.Partitions.{
  Partitions, Peers, Watcher, node_path, watch_partitions, update_local_partitions,
  update_remote_partitions, advertise_partitions, unadvertise_partitions, update_missing,
  with_nodes, create_nodes, remove_nodes, remote_loop,
}

unfoldable pub NoNodes : Partitions → Watcher → Type 0
NoNodes p w = (ps : Peers) (i : ℕ) → contains w (node_path p ps i) ≡ false

pub data Reached : Partitions → Watcher → Type 0 where
  watched :
      {p : Partitions} {w : Watcher} (peers : Option Peers) (db version : Text) (n r : ℕ)
      (nodes : List Text)
      → watch_partitions peers db version n r nodes ≡ some p
      → NoNodes p w
      → Reached p w
  got_local :
      {p q : Partitions} {w v : Watcher} (local : KeySet ℕ)
      → Reached p w
      → update_local_partitions local p w ≡ some (q, v)
      → Reached q v
  got_remote :
      {p q : Partitions} {w : Watcher} (nodes : List Text)
      → Reached p w
      → update_remote_partitions nodes p ≡ some q
      → Reached q w
  advertised :
      {p q : Partitions} {w v : Watcher}
      → Reached p w
      → advertise_partitions p w ≡ some (q, v)
      → Reached q v
  unadvertised :
      {p q : Partitions} {w v : Watcher}
      → Reached p w
      → unadvertise_partitions p w ≡ some (q, v)
      → Reached q v

with_nodes-some :
    (p q : Partitions) (o : Option Watcher) (v : Watcher)
    → with_nodes p o ≡ some (q, v)
    → (q ≡ p) × (o ≡ some v)
with_nodes-some p q (some w) v h = ground (arith, h)
with_nodes-some p q none v h = ground (arith, h)

some_pair :
    {p q : Partitions} {w v : Watcher}
    → ◌≡◌ {A = Option (Partitions × Watcher)} (some (p, w)) (some (q, v))
    → (q ≡ p) × (v ≡ w)
some_pair h = ground (arith, h)

-- What each method did, if it returned.
module _ (p q : Partitions) (w v : Watcher) where
  unfoldable pub LocalStep : KeySet ℕ → Type 0
  LocalStep local =
      (q ≡ update_missing (record p { local = add_all local p.local }))
      × (((p.should_advertise ≡ true) × (create_nodes q.local q w ≡ some v))
          ⊎ ((p.should_advertise ≡ false) × (v ≡ w)))

  pub local_step :
      (local : KeySet ℕ) → update_local_partitions local p w ≡ some (q, v) → LocalStep local
  unfolding update_local_partitions update_missing LocalStep
  local_step local h = cases p.should_advertise refl h
    where
      next : Partitions
      next = update_missing (record p { local = add_all local p.local })

      cases :
          (b : Bool)
          → p.should_advertise ≡ b
          → (if b then with_nodes next (create_nodes next.local next w) else some (next, w))
            ≡ some (q, v)
          → LocalStep local
      cases true e h =
          let (same, made) = with_nodes-some next q (create_nodes next.local next w) v h in
          (same, inl (e, subst (λ x. create_nodes x.local x w ≡ some v) (sym same) made))
      cases false e h = let (same, still) = some_pair h in (same, inr (e, still))

  unfoldable pub SwitchStep : Bool → (KeySet ℕ → Partitions → Watcher → Option Watcher) → Type 0
  SwitchStep on loop =
      ((p.peers ≡ none) × (q ≡ p) × (v ≡ w))
      ⊎ ((ps : Peers) × (p.peers ≡ some ps)
          × (loop p.local p w ≡ some v)
          × (q ≡ record p { should_advertise = on }))

  switch_step :
      (on : Bool) (loop : KeySet ℕ → Partitions → Watcher → Option Watcher) (o : Option Peers)
      → p.peers ≡ o
      → ◌≡◌ {A = Option (Partitions × Watcher)}
          (elim o [
            | none ↦ some (p, w)
            | some ps ↦ with_nodes (record p { should_advertise = on }) (loop p.local p w)
          ])
          (some (q, v))
      → SwitchStep on loop
  unfolding SwitchStep
  switch_step on loop none e h = let (same, still) = some_pair h in inl (e, same, still)
  switch_step on loop (some ps) e h =
      let (same, made) =
        with_nodes-some (record p { should_advertise = on }) q (loop p.local p w) v h in
      inr (ps, e, made, same)

  pub advertise_step : advertise_partitions p w ≡ some (q, v) → SwitchStep true create_nodes
  unfolding advertise_partitions
  advertise_step h = switch_step true create_nodes p.peers refl h

  pub unadvertise_step : unadvertise_partitions p w ≡ some (q, v) → SwitchStep false remove_nodes
  unfolding unadvertise_partitions
  unadvertise_step h = switch_step false remove_nodes p.peers refl h

module _ (nodes : List Text) (p q : Partitions) where
  unfoldable pub RemoteStep : Type 0
  RemoteStep =
      ((p.peers ≡ none) × (q ≡ p))
      ⊎ ((ps : Peers) × (remote : Map ℕ (List Text)) × (p.peers ≡ some ps)
          × (remote_loop ps.address nodes [] ≡ some remote)
          × (q ≡ update_missing (record p { remote = remote })))

  pub remote_step : update_remote_partitions nodes p ≡ some q → RemoteStep
  unfolding update_remote_partitions RemoteStep
  remote_step h = cases p.peers refl h
    where
      cases :
          (o : Option Peers)
          → p.peers ≡ o
          → (elim o [
            | none ↦ some p
            | some ps ↦
                (remote_loop ps.address nodes [] >>= λ remote.
                some (update_missing (record p { remote = remote })))
          ])
            ≡ some q
          → RemoteStep
      cases none e h = inl (e, ground (arith, h))
      cases (some ps) e h =
          let (remote, read, done) =
            >>=_some (remote_loop ps.address nodes [])
              (λ remote. some (update_missing (record p { remote = remote }))) h in
          inr (ps, remote, e, read, ground (arith, done))
