-- ===== src/Partitions/Missing.antt =====
-- updateMissing: the number of missing partitions, and the channel `ready`.
use sequins.Prelude.{
  ℕ, zero, suc, ◌<◌, ◌≡◌, refl, sym, subst, ◌↔◌, Bool, true, false, Text, List, Option, some, arith,
  inl, inr, KeySet, Map, add_all, native_keys, >>=_some, ◌∙◌,
}
use sequins.Partitions.{
  Partitions, Peers, Watcher, watch_partitions, update_local_partitions, update_remote_partitions,
  update_missing, count_missing, covered, create_nodes, remove_nodes, missing,
  pick_local_partitions, fresh,
}
use sequins.Partitions.Runs.{
  Reached, watched, got_local, got_remote, advertised, unadvertised, LocalStep, local_step,
  RemoteStep, remote_step, SwitchStep, advertise_step, unadvertise_step,
}

Current : Partitions → Type 0
Current p =
    (p.num_missing ≡ count_missing p.num_partitions p.local p.remote)
    × (p.num_missing ≡ 0 → p.ready_closed ≡ true)

update_missing-Current : (p : Partitions) → Current (update_missing p)
unfolding update_missing Current
update_missing-Current p = (refl, λ h. ground arith)

module _ (local : KeySet ℕ) (remote : Map ℕ (List Text)) where
  none_missing :
      (n : ℕ) → (count_missing n local remote ≡ 0) → (i : ℕ) → i < n → covered local remote i ≡ true
  unfolding count_missing
  none_missing zero h i l = absurd (omega arith)
  none_missing (suc n) h i l = ground (arith, none_missing n (ground arith) i)

  all_covered :
      (n : ℕ) → ((i : ℕ) → i < n → covered local remote i ≡ true) → count_missing n local remote ≡ 0
  unfolding count_missing
  all_covered zero c = refl
  all_covered (suc n) c =
      ground (arith, all_covered n (λ i l. c i (omega arith)), c n (omega arith))

update_local-Current :
    (local : KeySet ℕ) (p q : Partitions) (w v : Watcher)
    → update_local_partitions local p w ≡ some (q, v)
    → Current q
unfolding LocalStep
update_local-Current local p q w v h =
    subst Current (sym (local_step p q w v local h).0)
      (update_missing-Current (record p { local = add_all local p.local }))

update_remote-Current :
    (nodes : List Text) (p q : Partitions)
    → Current p
    → update_remote_partitions nodes p ≡ some q
    → Current q
unfolding RemoteStep
update_remote-Current nodes p q c h = elim (remote_step nodes p q h) [
  | inl (e, same) ↦ subst Current (sym same) c
  | inr (ps, remote, e, read, same) ↦
      subst Current (sym same) (update_missing-Current (record p { remote = remote }))
]

switch-Current :
    (p q : Partitions) (w v : Watcher) (on : Bool)
    (loop : KeySet ℕ → Partitions → Watcher → Option Watcher)
    → SwitchStep p q w v on loop
    → Current p
    → Current q
unfolding SwitchStep Current
switch-Current p q w v on loop (inl (e, same, still)) c = subst Current (sym same) c
switch-Current p q w v on loop (inr (ps, e, made, same)) c = subst Current (sym same) c

watch-Current :
    (peers : Option Peers) (db version : Text) (n r : ℕ) (nodes : List Text) (p : Partitions)
    → watch_partitions peers db version n r nodes ≡ some p
    → Current p
unfolding watch_partitions
watch-Current peers db version n r nodes p h =
    let (start, read, done) =
      >>=_some (update_remote_partitions nodes (pick_local_partitions (fresh peers db version n r)))
        (λ x. some (update_missing x)) h in
    subst Current (ground (arith, done)) (update_missing-Current start)

Reached-Current : (p : Partitions) (w : Watcher) → Reached p w → Current p
Reached-Current p w (watched peers db version n r nodes h f) =
    watch-Current peers db version n r nodes p h
Reached-Current q v (got_local {p = p} {w = w} local r h) = update_local-Current local p q w v h
Reached-Current q w (got_remote {p = p} nodes r h) =
    update_remote-Current nodes p q (Reached-Current p w r) h
Reached-Current q v (advertised {p = p} {w = w} r h) =
    switch-Current p q w v true create_nodes (advertise_step p q w v h) (Reached-Current p w r)
Reached-Current q v (unadvertised {p = p} {w = w} r h) =
    switch-Current p q w v false remove_nodes (unadvertise_step p q w v h) (Reached-Current p w r)

-- In every state that a version's partitions reach: the number of missing partitions is zero exactly
-- if every partition is here or on a peer, and then the channel `ready` is closed.
pub Reached-ready :
    (p : Partitions) (w : Watcher)
    → Reached p w
    → ((missing p ≡ 0) ↔ ((i : ℕ) → i < p.num_partitions → covered p.local p.remote i ≡ true))
      × (((i : ℕ) → i < p.num_partitions → covered p.local p.remote i ≡ true)
          → p.ready_closed ≡ true)
unfolding missing Current
Reached-ready p w r = (
  (
    λ z i l. none_missing p.local p.remote p.num_partitions (sym c.0 ∙ z) i l,
    λ all. zero_missing all,
  ),
  λ all. c.1 (zero_missing all),
)
  where
    c : Current p
    c = Reached-Current p w r

    zero_missing :
        ((i : ℕ) → i < p.num_partitions → covered p.local p.remote i ≡ true) → p.num_missing ≡ 0
    zero_missing all = c.0 ∙ all_covered p.local p.remote p.num_partitions all
