-- ===== src/Partitions/Alone.antt =====
-- A node without peers: it builds all partitions, and then has them.
use sequins.Prelude.{
  ℕ, zero, suc, ◌<◌, ◌≡◌, sym, subst, true, not, Text, List, [], none, some, native_keys, nat_eq,
  nat_eq_iff, arith, KeySet, contains, contains-add, contains-filter, contains-add_all, Bool-cases,
  inl, inr,
}
use mathlib.Core.Option.{some-injective}
use sequins.Partitions.{
  Partitions, Watcher, needed, have, all_below, watch_partitions, fresh, pick_local_partitions,
  update_remote_partitions, update_local_partitions, update_missing,
}
use sequins.Partitions.Runs.{LocalStep, local_step}

contains-all_below : (n i : ℕ) → i < n → contains (all_below n) i ≡ true
unfolding all_below
contains-all_below zero i h = absurd (ground (arith, h))
contains-all_below (suc n) i h = elim (Bool-cases (nat_eq n i)) [
  | inl last ↦ ground (arith, contains-add n i (all_below n), last)
  | inr other ↦ ground (
    arith,
    contains-add n i (all_below n),
    contains-all_below n i (ground (arith, h, other, nat_eq_iff n i)),
  )
]

pub needed-alone :
    (db version : Text) (n r : ℕ) (nodes : List Text) (p : Partitions)
    → watch_partitions none db version n r nodes ≡ some p
    → (i : ℕ) → i < n
    → contains (needed p) i ≡ true
unfolding watch_partitions fresh pick_local_partitions update_remote_partitions update_missing
    needed contains
needed-alone db version n r nodes p h i below =
    subst (λ (q : Partitions). contains (needed q) i ≡ true) (some-injective _ p h)
      (ground (
        arith,
        contains-filter (λ j. not (contains [] j)) (all_below n) i,
        contains-all_below n i below,
      ))

pub have-update_local_partitions :
    (p q : Partitions) (w v : Watcher) (local : KeySet ℕ) (i : ℕ)
    → update_local_partitions local p w ≡ some (q, v)
    → contains local i ≡ true
    → have q i ≡ true
unfolding LocalStep update_missing have
have-update_local_partitions p q w v local i h wanted =
    subst (λ (x : Partitions). contains x.local i ≡ true) (sym (local_step p q w v local h).0)
      (ground (arith, contains-add_all local p.local i, wanted))
