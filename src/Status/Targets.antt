-- ===== src/Status/Targets.antt =====
-- The target replication of what the nodes report.
use sequins.Prelude.{
  ℕ, ◌+◌, ◌≡◌, refl, subst, ◌∙◌, native_keys, Text, Text_eq, List, [], ◌∷◌, Option, none, some,
  arith, Bool-cases, inl, inr, Map, lookup, insert, All, ◌==◌, nat_eq, length, zero, suc,
}
use sequins.Status.{
  VersionStatus, VersionInfo, DbStatus, merge_nodes, or_fresh, merge_version, merge_db_status,
  count_all, count_one, count_nodes, count_at, Totals, calculate_replication_stats, calculate_all,
  merge_peers, serve_db_status, db_status, own_versions, version_status, mark_versions,
}

-- No version of the status has a target or an under-replicated partition.
pub NoTarget : DbStatus → Type 0
NoTarget s =
    All
      (λ (entry : Text × VersionStatus).
        (entry.1.target_replication ≡ 0) × (entry.1.underreplicated_partitions ≡ 0))
      s

unfoldable pub Answered : Option DbStatus → Type 0
Answered none = Unit
Answered (some s) = NoTarget s

module _ {V : Type 0} (P : V → Type 0) where
  All-insert :
      (k : Text) (v : V) (m : Map Text V)
      → P v
      → All (λ (entry : Text × V). P entry.1) m
      → All (λ (entry : Text × V). P entry.1) (insert k v m)
  unfolding insert
  All-insert k v [] p ps = (p, tt)
  All-insert k v ((j, w) ∷ m) p ps = elim (Bool-cases (j == k)) [
    | inl same ↦ rw same (p, ps.1)
    | inr other ↦ rw other (ps.0, All-insert k v m p ps.1)
  ]

  All-lookup :
      (k : Text) (v : V) (m : Map Text V)
      → All (λ (entry : Text × V). P entry.1) m
      → lookup k m ≡ some v
      → P v
  unfolding lookup
  All-lookup k v [] ps h = absurd (ground (arith, h))
  All-lookup k v ((j, w) ∷ m) ps h = elim (Bool-cases (j == k)) [
    | inl same ↦ subst P (ground (arith, h, same)) ps.0
    | inr other ↦ All-lookup k v m ps.1 (ground (arith, h, other))
  ]

-- Without a target the loop finds nothing under-replicated.
count_all_under :
    (target : ℕ)
    → target ≡ 0
    → (n p : ℕ) (m : Map ℕ ℕ) (t : Totals) → (count_all n p m target t).under ≡ t.under
unfolding count_all count_one
count_all_under target e zero p m t = refl
count_all_under target e (suc n) p m t =
    ground (arith, e, count_all_under target e n (p + 1) m (count_one target (count_at p m) t))

calculate_all-NoTarget : (s : DbStatus) → NoTarget s → NoTarget (calculate_all s)
unfolding NoTarget calculate_all calculate_replication_stats
calculate_all-NoTarget [] t = tt
calculate_all-NoTarget ((v, vst) ∷ s) ((target, under), rest) = (
  (
    target,
    count_all_under vst.target_replication target vst.num_partitions 0 (count_nodes vst.nodes [])
          (record {
            total = 0;
            missing = vst.missing_partitions;
            under = vst.underreplicated_partitions;
            over = vst.overreplicated_partitions;
          })
        ∙ under,
  ),
  calculate_all-NoTarget s rest,
)

Untargeted : VersionStatus → Type 0
Untargeted vst = (vst.target_replication ≡ 0) × (vst.underreplicated_partitions ≡ 0)

or_fresh-Untargeted :
    (k : Text) (left : DbStatus) (vst : VersionStatus)
    → NoTarget left
    → vst.target_replication ≡ 0
    → Untargeted (or_fresh (lookup k left) vst)
unfolding Untargeted NoTarget or_fresh
or_fresh-Untargeted k left vst t target = cases (lookup k left) refl
  where
    cases : (o : Option VersionStatus) → lookup k left ≡ o → Untargeted (or_fresh o vst)
    cases none e = (target, refl)
    cases (some found) e = All-lookup Untargeted k found left t e

merge_db_status-NoTarget :
    (left right : DbStatus) → NoTarget left → NoTarget right → NoTarget (merge_db_status left right)
unfolding merge_db_status NoTarget merge_version Untargeted
merge_db_status-NoTarget left [] t u = t
merge_db_status-NoTarget left ((v, vst) ∷ right) t u =
    merge_db_status-NoTarget (merge_version left v vst) right
      (All-insert Untargeted v (record base { nodes = merge_nodes base.nodes vst.nodes }) left
        (or_fresh-Untargeted v left vst t u.0.0) t)
      u.1
  where
    base : VersionStatus
    base = or_fresh (lookup v left) vst

merge_peers-NoTarget :
    (answers : List (Option DbStatus)) (s : DbStatus)
    → All Answered answers
    → NoTarget s
    → NoTarget (merge_peers answers s)
unfolding merge_peers Answered
merge_peers-NoTarget [] s a t = t
merge_peers-NoTarget (none ∷ answers) s a t = merge_peers-NoTarget answers s a.1 t
merge_peers-NoTarget (some answer ∷ answers) s a t =
    merge_peers-NoTarget answers (merge_db_status answer s) a.1
      (merge_db_status-NoTarget answer s a.0 t)

own_versions-NoTarget :
    (hostname : Text) (versions : List VersionInfo) (s : DbStatus)
    → NoTarget s
    → NoTarget (own_versions hostname versions s)
unfolding own_versions version_status NoTarget Untargeted
own_versions-NoTarget hostname [] s t = t
own_versions-NoTarget hostname (vs ∷ rest) s t =
    own_versions-NoTarget hostname rest (insert vs.name (version_status hostname vs) s)
      (All-insert Untargeted vs.name (version_status hostname vs) s (refl, refl) t)

mark_versions-NoTarget :
    (hostname : Text) (current : Option Text) (s : DbStatus)
    → NoTarget s
    → NoTarget (mark_versions hostname current s)
unfolding mark_versions NoTarget
mark_versions-NoTarget hostname current [] t = t
mark_versions-NoTarget hostname current ((name, vst) ∷ s) t =
    (t.0, mark_versions-NoTarget hostname current s t.1)

-- A node's own status of a db has no target replication, since nothing sets one; so what it serves,
-- merged with peers' statuses which have none either, shows no under-replicated partition in any
-- version, however few nodes have it.
pub serve_db_status-NoTarget :
    (proxied hostname : Text) (current : Option Text) (versions : List VersionInfo)
    (answers : List (Option DbStatus))
    → All Answered answers
    → NoTarget (serve_db_status proxied (some answers) (db_status hostname current versions))
unfolding serve_db_status db_status NoTarget
serve_db_status-NoTarget proxied hostname current versions answers a =
    elim (Bool-cases (nat_eq (length proxied) 0)) [
      | inl asked ↦
          rw asked (
            calculate_all-NoTarget (merge_peers answers own) (merge_peers-NoTarget answers own a t))
      | inr sent_on ↦ rw sent_on t
    ]
  where
    own : DbStatus
    own = db_status hostname current versions

    t : NoTarget own
    t =
        mark_versions-NoTarget hostname current (own_versions hostname versions [])
          (own_versions-NoTarget hostname versions [] tt)
