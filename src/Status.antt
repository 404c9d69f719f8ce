-- ===== src/Status.antt =====
-- status.go: what a node reports of its versions, merged over the nodes of the cluster. Times are
-- numbers of seconds. The average replication is kept as the two integers whose float32 quotient
-- the source stores; a page and a JSON document are the status they show.
pub mod Replication
pub mod Merging
pub mod Targets
pub mod States
pub mod Tests
use sequins.Prelude.{
  ℕ, zero, suc, ◌+◌, Bool, true, false, not, ◌||◌, ◌&&◌, Text, Text_eq, native_keys, codes, List,
  [], ◌∷◌, Option, none, some, if◌then◌else◌, ◌==◌, Map, KeySet, lookup, insert, nat_eq, ltb, leb,
  length, map,
}

pub data VersionState : Type 0 where
  version_available version_removing version_building version_error : VersionState

pub record NodeVersionStatus : Type 0 where
  pub created_at : ℕ
  pub available_at : Option ℕ
  pub current : Bool
  pub state : VersionState
  pub partitions : List ℕ

pub record VersionStatus : Type 0 where
  pub path : Text
  pub num_partitions : ℕ
  pub underreplicated_partitions : ℕ
  pub overreplicated_partitions : ℕ
  pub missing_partitions : ℕ
  pub target_replication : ℕ
  pub average_replication : ℕ × ℕ
  pub nodes : Map Text NodeVersionStatus

-- A dbStatus is its only field.
abbrev pub DbStatus : Type 0
DbStatus = Map Text VersionStatus

-- left.Versions[v].Nodes[hostname] = node, over the nodes of the right version.
pub merge_nodes :
    Map Text NodeVersionStatus → Map Text NodeVersionStatus → Map Text NodeVersionStatus
merge_nodes left [] = left
merge_nodes left ((hostname, node) ∷ nodes) = merge_nodes (insert hostname node left) nodes

abbrev pub without_nodes : VersionStatus → VersionStatus
without_nodes vst = record {
  path = vst.path;
  num_partitions = vst.num_partitions;
  underreplicated_partitions = 0;
  overreplicated_partitions = 0;
  missing_partitions = 0;
  target_replication = vst.target_replication;
  average_replication = (0, 1);
  nodes = [];
}

pub or_fresh : Option VersionStatus → VersionStatus → VersionStatus
or_fresh none vst = without_nodes vst
or_fresh (some found) vst = found

pub merge_version : DbStatus → Text → VersionStatus → DbStatus
unfolding or_fresh merge_nodes
merge_version left v vst =
    let base = or_fresh (lookup v left) vst in
    insert v (record base { nodes = merge_nodes base.nodes vst.nodes }) left

pub merge_db_status : DbStatus → DbStatus → DbStatus
unfolding merge_version
merge_db_status left [] = left
merge_db_status left ((v, vst) ∷ right) = merge_db_status (merge_version left v vst) right

pub copy_db_status : DbStatus → DbStatus
unfolding merge_db_status
copy_db_status status = merge_db_status [] status

abbrev pub is_serving : VersionState → Bool
is_serving version_available = true
is_serving version_removing = true
is_serving version_building = false
is_serving version_error = false

abbrev pub count_at : ℕ → Map ℕ ℕ → ℕ
count_at p replication = elim (lookup p replication) [ none ↦ 0 | some r ↦ r ]

pub count_partitions : List ℕ → Map ℕ ℕ → Map ℕ ℕ
count_partitions [] replication = replication
count_partitions (p ∷ ps) replication =
    count_partitions ps (insert p (count_at p replication + 1) replication)

pub count_nodes : Map Text NodeVersionStatus → Map ℕ ℕ → Map ℕ ℕ
unfolding count_partitions
count_nodes [] replication = replication
count_nodes ((hostname, node) ∷ nodes) replication =
    count_nodes nodes
      (if is_serving node.state then count_partitions node.partitions replication else replication)

-- The counters of the loop over the partitions.
pub record Totals : Type 0 where
  pub total : ℕ
  pub missing : ℕ
  pub under : ℕ
  pub over : ℕ

pub count_one : ℕ → ℕ → Totals → Totals
count_one target r t =
    let counted = record t { total = t.total + r } in
    if nat_eq r 0
    then record counted { missing = t.missing + 1 }
    else if ltb r target
    then record counted { under = t.under + 1 }
    else if ltb target r
    then record counted { over = t.over + 1 }
    else counted

-- for p := 0; p < n; p++, over the number of partitions left
pub count_all : ℕ → ℕ → Map ℕ ℕ → ℕ → Totals → Totals
unfolding count_one
count_all zero p replication target t = t
count_all (suc n) p replication target t =
    count_all n (p + 1) replication target (count_one target (count_at p replication) t)

pub calculate_replication_stats : VersionStatus → VersionStatus
unfolding count_nodes count_all
calculate_replication_stats vst =
    let t =
      count_all vst.num_partitions 0 (count_nodes vst.nodes []) vst.target_replication (record {
        total = 0;
        missing = vst.missing_partitions;
        under = vst.underreplicated_partitions;
        over = vst.overreplicated_partitions;
      }) in
    record vst {
      missing_partitions = t.missing;
      underreplicated_partitions = t.under;
      overreplicated_partitions = t.over;
      average_replication =
          if nat_eq vst.num_partitions 0 then (0, 1) else (t.total, vst.num_partitions);
    }

pub accepts_json : List Text → Bool
accepts_json [] = false
accepts_json (accept ∷ accepts) = accept == codes "application/json" || accepts_json accepts

-- What a version's own status is made of.
pub record VersionInfo : Type 0 where
  pub name : Text
  pub display_path : Text
  pub num_partitions : ℕ
  pub selected : KeySet ℕ
  pub state : VersionState
  pub created : ℕ
  pub available : Option ℕ

pub set_state : VersionState → ℕ → VersionInfo → VersionInfo
set_state state now vs = elim vs.state [
  | version_error ↦ vs
  | _ ↦ elim state [
    | version_available ↦ record vs { state = version_available; available = some now }
    | other ↦ record vs { state = other }
  ]
]

-- sort.Ints
pub insert_sorted : ℕ → List ℕ → List ℕ
insert_sorted x [] = x ∷ []
insert_sorted x (y ∷ ys) = let rest = insert_sorted x ys in if leb x y then x ∷ y ∷ ys else y ∷ rest

pub sort_ints : List ℕ → List ℕ
unfolding insert_sorted
sort_ints [] = []
sort_ints (x ∷ xs) = insert_sorted x (sort_ints xs)

pub version_status : Text → VersionInfo → VersionStatus
unfolding sort_ints
version_status hostname vs = record {
  path = vs.display_path;
  num_partitions = vs.num_partitions;
  underreplicated_partitions = 0;
  overreplicated_partitions = 0;
  missing_partitions = 0;
  target_replication = 0;
  average_replication = (0, 1);
  nodes =
      (
        hostname,
        record {
          created_at = vs.created;
          available_at = vs.available;
          current = false;
          state = vs.state;
          partitions = sort_ints vs.selected;
        },
      )
      ∷ [];
}

pub is_current : Option Text → Text → Bool
is_current none name = false
is_current (some current) name = name == current

-- st.Current = ..., on the node under `hostname`
pub mark_current : Text → Bool → Map Text NodeVersionStatus → Map Text NodeVersionStatus
mark_current hostname current nodes = elim (lookup hostname nodes) [
  | none ↦ nodes
  | some st ↦ insert hostname (record st { current = current }) nodes
]

pub mark_versions : Text → Option Text → DbStatus → DbStatus
unfolding is_current mark_current
mark_versions hostname current [] = []
mark_versions hostname current ((name, vst) ∷ rest) =
    (name, record vst { nodes = mark_current hostname (is_current current name) vst.nodes })
    ∷ mark_versions hostname current rest

pub own_versions : Text → List VersionInfo → DbStatus → DbStatus
unfolding version_status
own_versions hostname [] status = status
own_versions hostname (vs ∷ rest) status =
    own_versions hostname rest (insert vs.name (version_status hostname vs) status)

-- `current` is the name of the mux's current version, if it has one.
pub db_status : Text → Option Text → List VersionInfo → DbStatus
unfolding own_versions mark_versions
db_status hostname current versions =
    mark_versions hostname current (own_versions hostname versions [])

-- The peers' answers in turn; `none` is an error, which is logged.
pub merge_peers : List (Option DbStatus) → DbStatus → DbStatus
unfolding merge_db_status
merge_peers [] s = s
merge_peers (none ∷ answers) s = merge_peers answers s
merge_peers (some answer ∷ answers) s = merge_peers answers (merge_db_status answer s)

pub calculate_all : DbStatus → DbStatus
unfolding calculate_replication_stats
calculate_all [] = []
calculate_all ((v, vst) ∷ rest) = (v, calculate_replication_stats vst) ∷ calculate_all rest

-- What db.serveStatus shows. `peers` has the answers of all peers, if the node has a cluster.
pub serve_db_status : Text → Option (List (Option DbStatus)) → DbStatus → DbStatus
unfolding merge_peers calculate_all
serve_db_status proxied none s = s
serve_db_status proxied (some answers) s =
    if nat_eq (length proxied) 0 then calculate_all (merge_peers answers s) else s

-- `sequins.serveStatus`: a status is the map of its dbs.
abbrev pub Status : Type 0
Status = Map Text DbStatus

pub copy_dbs : Status → Status
unfolding copy_db_status
copy_dbs [] = []
copy_dbs ((name, s) ∷ rest) = (name, copy_db_status s) ∷ copy_dbs rest

pub merge_dbs : Status → Status → Status
unfolding merge_db_status
merge_dbs merged [] = merged
merge_dbs merged ((name, s) ∷ rest) =
    merge_dbs
      (insert name (elim (lookup name merged) [ none ↦ s | some theirs ↦ merge_db_status theirs s ])
        merged)
      rest

pub merge_peer_statuses : List (Option Status) → Status → Status
unfolding merge_dbs
merge_peer_statuses [] s = s
merge_peer_statuses (none ∷ answers) s = merge_peer_statuses answers s
merge_peer_statuses (some answer ∷ answers) s = merge_peer_statuses answers (merge_dbs answer s)

pub calculate_dbs : Status → Status
unfolding calculate_all
calculate_dbs [] = []
calculate_dbs ((name, s) ∷ rest) = (name, calculate_all s) ∷ calculate_dbs rest

pub serve_status : Text → Option (List (Option Status)) → Status → Status
unfolding copy_dbs merge_peer_statuses calculate_dbs
serve_status proxied none s = copy_dbs s
serve_status proxied (some answers) s =
    if nat_eq (length proxied) 0
    then calculate_dbs (merge_peer_statuses answers (copy_dbs s))
    else copy_dbs s
