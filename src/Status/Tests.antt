-- ===== src/Status/Tests.antt =====
-- A version of two partitions on two nodes, and a status served of it.
use sequins.Prelude.{
  ℕ, ◌+◌, ◌≡◌, refl, false, Text_eq, text_eq, native_keys, codes, List, [], ◌∷◌, none, some, All,
  lookup, insert, if◌then◌else◌, nat_eq,
}
use sequins.Status.{
  NodeVersionStatus, VersionStatus, VersionInfo, DbStatus, version_available,
  calculate_replication_stats, merge_db_status, serve_db_status, db_status, set_state,
  version_error,
}
use sequins.Status.Replication.{
  calculate_replication_stats-counts, count_from, sum_from, replicas, is_missing, is_under, is_over,
  is_exact,
}
use sequins.Status.Merging.{node_of, or_else, DistinctStatus, merge_db_status-node_of}
use sequins.Status.Targets.{NoTarget, Answered, serve_db_status-NoTarget}

abbrev node : List ℕ → NodeVersionStatus
node ps = record {
  created_at = 1;
  available_at = none;
  current = false;
  state = version_available;
  partitions = ps;
}

abbrev two_nodes : VersionStatus
two_nodes = record {
  path = codes "v1";
  num_partitions = 2;
  underreplicated_partitions = 0;
  overreplicated_partitions = 0;
  missing_partitions = 0;
  target_replication = 2;
  average_replication = (0, 1);
  nodes = (codes "a", node (0 ∷ 1 ∷ [])) ∷ (codes "b", node (0 ∷ [])) ∷ [];
}

two_nodes_calculated :
    calculate_replication_stats two_nodes
    ≡ record two_nodes { underreplicated_partitions = 1; average_replication = (3, 2) }
unfolding calculate_replication_stats lookup insert
two_nodes_calculated = refl

calculate_replication_stats-counts_example :
    ((calculate_replication_stats two_nodes).missing_partitions
      ≡ 0 + count_from 2 0 (λ p. is_missing (replicas p two_nodes.nodes)))
    × ((calculate_replication_stats two_nodes).underreplicated_partitions
        ≡ 0 + count_from 2 0 (λ p. is_under 2 (replicas p two_nodes.nodes)))
    × ((calculate_replication_stats two_nodes).overreplicated_partitions
        ≡ 0 + count_from 2 0 (λ p. is_over 2 (replicas p two_nodes.nodes)))
    × ((calculate_replication_stats two_nodes).missing_partitions
          + (calculate_replication_stats two_nodes).underreplicated_partitions
          + (calculate_replication_stats two_nodes).overreplicated_partitions
          + count_from 2 0 (λ p. is_exact 2 (replicas p two_nodes.nodes))
        ≡ 0 + 0 + 0 + 2)
    × ((calculate_replication_stats two_nodes).average_replication
        ≡ (if nat_eq 2 0 then (0, 1) else (sum_from 2 0 (λ p. replicas p two_nodes.nodes), 2)))
calculate_replication_stats-counts_example = calculate_replication_stats-counts two_nodes

abbrev here : DbStatus
here = (codes "v1", two_nodes) ∷ []

abbrev there : DbStatus
there =
    (
      codes "v1",
      record two_nodes { nodes = (codes "a", node []) ∷ (codes "c", node (1 ∷ [])) ∷ [] },
    )
    ∷ []

here_distinct : DistinctStatus here
unfolding DistinctStatus lookup text_eq
here_distinct = ((refl, tt), ((refl, (refl, tt)), tt))

merge_db_status-node_of_example :
    node_of (codes "v1") (codes "a") (merge_db_status there here)
    ≡ or_else (node_of (codes "v1") (codes "a") here) (node_of (codes "v1") (codes "a") there)
merge_db_status-node_of_example =
    merge_db_status-node_of (codes "v1") (codes "a") there here here_distinct

abbrev lone : VersionInfo
lone = record {
  name = codes "v1";
  display_path = codes "s3://x/v1";
  num_partitions = 2;
  selected = 1 ∷ 0 ∷ [];
  state = version_available;
  created = 1;
  available = some 2;
}

no_answers : All Answered (none ∷ [])
unfolding Answered
no_answers = (tt, tt)

serve_db_status-NoTarget_example :
    NoTarget (serve_db_status [] (some (none ∷ [])) (db_status (codes "a") none (lone ∷ [])))
serve_db_status-NoTarget_example =
    serve_db_status-NoTarget [] (codes "a") none (lone ∷ []) (none ∷ []) no_answers

set_state_sticky :
    set_state version_available 5 (record lone { state = version_error })
    ≡ record lone { state = version_error }
unfolding set_state
set_state_sticky = refl
