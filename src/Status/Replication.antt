-- ===== src/Status/Replication.antt =====
-- calculateReplicationStats against a direct count.
use sequins.Prelude.{
  ℕ, zero, suc, ◌+◌, ◌≡◌, refl, ap, ◌∙◌, Bool, not, ◌&&◌, Text, List, [], ◌∷◌, arith, Map, lookup,
  insert, lookup-insert, nat_eq, ltb, native_keys, if◌then◌else◌, nat_eq_iff,
}
use sequins.Status.{
  NodeVersionStatus, VersionStatus, Totals, is_serving, count_at, count_partitions, count_nodes,
  count_one, count_all, calculate_replication_stats,
}

-- How often a partition stands in a list, and on how many serving nodes.
pub times : ℕ → List ℕ → ℕ
times p [] = 0
times p (q ∷ qs) = let rest = times p qs in if nat_eq q p then rest + 1 else rest

pub replicas : ℕ → Map Text NodeVersionStatus → ℕ
unfolding times
replicas p [] = 0
replicas p ((hostname, node) ∷ nodes) =
    let rest = replicas p nodes in
    if is_serving node.state then times p node.partitions + rest else rest

-- Sums and counts over the partitions from `p` on.
pub sum_from : ℕ → ℕ → (ℕ → ℕ) → ℕ
sum_from zero p f = 0
sum_from (suc n) p f = f p + sum_from n (p + 1) f

abbrev pub one_if : Bool → ℕ
one_if b = if b then 1 else 0

pub count_from : ℕ → ℕ → (ℕ → Bool) → ℕ
unfolding sum_from
count_from n p test = sum_from n p λ i. one_if (test i)

count_at-count_partitions :
    (p : ℕ) (ps : List ℕ) (m : Map ℕ ℕ)
    → count_at p (count_partitions ps m) ≡ times p ps + count_at p m
unfolding count_partitions times
count_at-count_partitions p [] m = omega arith
count_at-count_partitions p (q ∷ qs) m = ground (
  arith,
  nat_eq_iff q p,
  lookup-insert q p (count_at q m + 1) m,
  count_at-count_partitions p qs (insert q (count_at q m + 1) m),
)

count_at-count_nodes :
    (p : ℕ) (nodes : Map Text NodeVersionStatus) (m : Map ℕ ℕ)
    → count_at p (count_nodes nodes m) ≡ replicas p nodes + count_at p m
unfolding count_nodes replicas
count_at-count_nodes p [] m = omega arith
count_at-count_nodes p ((h, node) ∷ nodes) m = ground (
  arith,
  count_at-count_nodes p nodes
      (if is_serving node.state then count_partitions node.partitions m else m),
  count_at-count_partitions p node.partitions m,
)

abbrev pub is_missing : ℕ → Bool
is_missing r = nat_eq r 0

abbrev pub is_under : ℕ → ℕ → Bool
is_under target r = not (nat_eq r 0) && ltb r target

abbrev pub is_over : ℕ → ℕ → Bool
is_over target r = not (nat_eq r 0) && ltb target r

module _ (m : Map ℕ ℕ) (target : ℕ) where
  count_all-sums :
      (n p : ℕ) (t : Totals)
      → ((count_all n p m target t).total ≡ t.total + sum_from n p (λ i. count_at i m))
        × ((count_all n p m target t).missing
            ≡ t.missing + count_from n p (λ i. is_missing (count_at i m)))
        × ((count_all n p m target t).under
            ≡ t.under + count_from n p (λ i. is_under target (count_at i m)))
        × ((count_all n p m target t).over
            ≡ t.over + count_from n p (λ i. is_over target (count_at i m)))
  unfolding count_all sum_from count_from count_one
  count_all-sums zero p t = (omega arith, omega arith, omega arith, omega arith)
  count_all-sums (suc n) p t =
      let (total, missing, under, over) =
        count_all-sums n (p + 1) (count_one target (count_at p m) t) in
      (ground (arith, total), ground (arith, missing), ground (arith, under), ground (arith, over))

sum_from-ext : (n p : ℕ) (f g : ℕ → ℕ) → ((i : ℕ) → f i ≡ g i) → sum_from n p f ≡ sum_from n p g
unfolding sum_from
sum_from-ext zero p f g h = refl
sum_from-ext (suc n) p f g h = omega (arith, h p, sum_from-ext n (p + 1) f g h)

count_from-ext :
    (n p : ℕ) (r s : ℕ → ℕ) (test : ℕ → Bool)
    → ((i : ℕ) → r i ≡ s i)
    → count_from n p (λ i. test (r i)) ≡ count_from n p (λ i. test (s i))
unfolding count_from
count_from-ext n p r s test h =
    sum_from-ext n p (λ i. one_if (test (r i))) (λ i. one_if (test (s i)))
      λ i. ap (λ (x : ℕ). one_if (test x)) (h i)

abbrev pub is_exact : ℕ → ℕ → Bool
is_exact target r = not (nat_eq r 0) && nat_eq r target

-- Each partition is of one of the four kinds.
count_from-kinds :
    (target : ℕ) (f : ℕ → ℕ) (n p : ℕ)
    → count_from n p (λ i. is_missing (f i))
        + count_from n p (λ i. is_under target (f i))
        + count_from n p (λ i. is_over target (f i))
        + count_from n p (λ i. is_exact target (f i))
      ≡ n
unfolding count_from sum_from
count_from-kinds target f zero p = refl
count_from-kinds target f (suc n) p = ground (arith, count_from-kinds target f n (p + 1))

-- To the counters of the status are added: the partitions that no serving node lists, those that some
-- but too few list, and those that too many list. With the partitions that exactly the target number of
-- nodes list, these are all the partitions. The average is that of the number of serving nodes' entries
-- for each partition.
pub calculate_replication_stats-counts :
    (vst : VersionStatus)
    → ((calculate_replication_stats vst).missing_partitions
        ≡ vst.missing_partitions
          + count_from vst.num_partitions 0 (λ p. is_missing (replicas p vst.nodes)))
      × ((calculate_replication_stats vst).underreplicated_partitions
          ≡ vst.underreplicated_partitions
            + count_from vst.num_partitions 0
                (λ p. is_under vst.target_replication (replicas p vst.nodes)))
      × ((calculate_replication_stats vst).overreplicated_partitions
          ≡ vst.overreplicated_partitions
            + count_from vst.num_partitions 0
                (λ p. is_over vst.target_replication (replicas p vst.nodes)))
      × ((calculate_replication_stats vst).missing_partitions
            + (calculate_replication_stats vst).underreplicated_partitions
            + (calculate_replication_stats vst).overreplicated_partitions
            + count_from vst.num_partitions 0
                (λ p. is_exact vst.target_replication (replicas p vst.nodes))
          ≡ vst.missing_partitions + vst.underreplicated_partitions + vst.overreplicated_partitions
            + vst.num_partitions)
      × ((calculate_replication_stats vst).average_replication ≡ (
          if nat_eq vst.num_partitions 0
          then (0, 1)
          else (sum_from vst.num_partitions 0 (λ p. replicas p vst.nodes), vst.num_partitions)))
unfolding calculate_replication_stats lookup
calculate_replication_stats-counts vst =
    let (total, missing, under, over) = count_all-sums m target n 0 start in
    let summed : (count_all n 0 m target start).total ≡ sum_from n 0 (λ p. replicas p vst.nodes) =
      omega
        (arith, total, sum_from-ext n 0 (λ p. count_at p m) (λ p. replicas p vst.nodes) counted) in
    let missing' = missing ∙ ap (λ (x : ℕ). vst.missing_partitions + x) (same is_missing) in
    let under' =
      under ∙ ap (λ (x : ℕ). vst.underreplicated_partitions + x) (same (is_under target)) in
    let over' = over ∙ ap (λ (x : ℕ). vst.overreplicated_partitions + x) (same (is_over target)) in
    (
      missing',
      under',
      over',
      omega
          (arith, missing', under', over', count_from-kinds target (λ p. replicas p vst.nodes) n 0),
      ap (λ (x : ℕ). if nat_eq n 0 then (0, 1) else (x, n)) summed,
    )
  where
    n : ℕ
    n = vst.num_partitions

    target : ℕ
    target = vst.target_replication

    m : Map ℕ ℕ
    m = count_nodes vst.nodes []

    start : Totals
    start = record {
      total = 0;
      missing = vst.missing_partitions;
      under = vst.underreplicated_partitions;
      over = vst.overreplicated_partitions;
    }

    counted : (p : ℕ) → count_at p m ≡ replicas p vst.nodes
    counted p = ground (arith, count_at-count_nodes p vst.nodes [])

    same :
        (test : ℕ → Bool)
        → count_from n 0 (λ p. test (count_at p m))
          ≡ count_from n 0 (λ p. test (replicas p vst.nodes))
    same test = count_from-ext n 0 (λ p. count_at p m) (λ p. replicas p vst.nodes) test counted
