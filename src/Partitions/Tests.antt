-- ===== src/Partitions/Tests.antt =====
-- A version of two partitions on a node with one peer.
use sequins.Prelude.{
  ℕ, ◌≡◌, ◌≢◌, ◌↔◌, ◌<◌, refl, true, false, ◌&&◌, Text, Text_eq, text_eq, codes, List, [], ◌∷◌,
  none, some, KeySet, map, contains, add, add_all, lookup, insert, decimal5, atoi, split_at, join,
}
use sequins.Partitions.{
  Partitions, Peers, node_path, watch_partitions, update_local_partitions, update_remote_partitions,
  advertise_partitions, missing, covered, get_peers,
}
use sequins.Partitions.Runs.{Reached, watched, got_local, advertised, NoNodes}
use sequins.Partitions.Missing.{Reached-ready}
use sequins.Partitions.Remote.{entry_name, peers_with, update_remote-node_names}
use sequins.Partitions.Advertising.{Reached-advertises}

-- This node is picked for every partition.
abbrev both : Peers
both = record { address = codes "a:80"; pick = λ id n. codes "b:80" ∷ codes "(self)" ∷ [] }

abbrev start : Partitions
start = record {
  peers = some both;
  zk_path = codes "partitions/db/v1";
  num_partitions = 2;
  replication = 2;
  selected = 0 ∷ 1 ∷ [];
  local = [];
  remote = (1, codes "b:80" ∷ []) ∷ [];
  num_missing = 1;
  ready_closed = false;
  should_advertise = false;
}

watch_start :
    watch_partitions (some both) (codes "db") (codes "v1") 2 2 (codes "00001@b:80" ∷ [])
    ≡ some start
unfolding watch_partitions split_at join contains text_eq add insert lookup atoi
watch_start = refl

abbrev shown : Partitions
shown = record start { should_advertise = true }

abbrev done : Partitions
done = record shown { local = 0 ∷ []; num_missing = 0; ready_closed = true }

advertise_start : advertise_partitions start [] ≡ some (shown, [])
unfolding advertise_partitions
advertise_start = refl

add_first :
    update_local_partitions (0 ∷ []) shown []
    ≡ some (done, codes "partitions/db/v1/00000@a:80" ∷ [])
unfolding update_local_partitions add_all lookup join decimal5
add_first = refl

run : Reached done (codes "partitions/db/v1/00000@a:80" ∷ [])
unfolding NoNodes contains
run =
    got_local {p = shown} {w = []} (0 ∷ [])
      (advertised {p = start} {w = []}
        (watched (some both) (codes "db") (codes "v1") 2 2 (codes "00001@b:80" ∷ []) watch_start
          (λ ps i. refl))
        advertise_start)
      add_first

Reached-ready_example :
    ((missing done ≡ 0) ↔ ((i : ℕ) → i < 2 → covered done.local done.remote i ≡ true))
    × (((i : ℕ) → i < 2 → covered done.local done.remote i ≡ true) → true ≡ true)
Reached-ready_example = Reached-ready done (codes "partitions/db/v1/00000@a:80" ∷ []) run

Reached-advertises_example :
    ((i : ℕ)
      → contains (codes "partitions/db/v1/00000@a:80" ∷ []) (node_path done both i)
        ≡ (true && contains (map (node_path done both) (0 ∷ [])) (node_path done both i)))
    × ((local : KeySet ℕ)
        → update_local_partitions local done (codes "partitions/db/v1/00000@a:80" ∷ []) ≢ none)
Reached-advertises_example =
    Reached-advertises done (codes "partitions/db/v1/00000@a:80" ∷ []) both run refl

abbrev listed : List (ℕ × Text)
listed = (1, codes "b:80") ∷ (0, codes "a:80") ∷ (1, codes "c:80") ∷ []

update_remote-node_names_example :
    (q : Partitions) × (update_remote_partitions (map entry_name listed) start ≡ some q)
    × ((i : ℕ) → get_peers i q ≡ peers_with (codes "a:80") i listed)
update_remote-node_names_example = update_remote-node_names listed start both refl

listed_at_1 : peers_with (codes "a:80") 1 listed ≡ codes "b:80" ∷ codes "c:80" ∷ []
unfolding peers_with text_eq
listed_at_1 = refl
