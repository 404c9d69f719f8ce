-- ===== src/Status/Merging.antt =====
-- mergeDBStatus: which nodes a merged status shows.
use sequins.Prelude.{
  ◌≡◌, refl, subst, ap, ◌∙◌, Text, Text_eq, text_eq_iff, [], ◌∷◌, Option, none, some, arith,
  Bool-cases, inl, inr, Map, lookup, insert, lookup-insert, lookup-insert_self, lookup-insert_other,
  Distinct, All, ◌==◌, if◌then◌else◌, ◌>>=◌,
}
use sequins.Status.{
  NodeVersionStatus, VersionStatus, DbStatus, merge_nodes, or_fresh, merge_version, merge_db_status,
}

pub or_else : {A : Type 0} → Option A → Option A → Option A
or_else (some a) o = some a
or_else none o = o

-- What a status shows of a version on a node.
pub node_of : Text → Text → DbStatus → Option NodeVersionStatus
node_of v hostname s = lookup v s >>= λ vst. lookup hostname vst.nodes

-- Every map of the status has each key once.
unfoldable pub DistinctStatus : DbStatus → Type 0
DistinctStatus s = Distinct s × All (λ (entry : Text × VersionStatus). Distinct entry.1.nodes) s

lookup-merge_nodes :
    (h : Text) (left right : Map Text NodeVersionStatus)
    → Distinct right
    → lookup h (merge_nodes left right) ≡ or_else (lookup h right) (lookup h left)
unfolding merge_nodes or_else lookup
lookup-merge_nodes h left [] d = refl
lookup-merge_nodes h left ((k, n) ∷ right) d = elim (Bool-cases (k == h)) [
  | inl same ↦
      let e : k ≡ h = (text_eq_iff k h).0 same in
      let gone : lookup h right ≡ none = subst (λ x. lookup x right ≡ none) e d.0 in
      ground (
        arith,
        lookup-merge_nodes h (insert k n left) right d.1,
        gone,
        same,
        lookup-insert k h n left,
      )
  | inr other ↦
      ground
        (arith, lookup-merge_nodes h (insert k n left) right d.1, other, lookup-insert k h n left)
]

lookup-or_fresh :
    (h : Text) (o : Option VersionStatus) (vst : VersionStatus)
    → lookup h (or_fresh o vst).nodes ≡ (o >>= λ found. lookup h found.nodes)
unfolding or_fresh lookup
lookup-or_fresh h none vst = refl
lookup-or_fresh h (some found) vst = refl

module _ (v h : Text) where
  node_of-merge_version :
      (left : DbStatus) (w : Text) (vst : VersionStatus)
      → Distinct vst.nodes
      → node_of v h (merge_version left w vst)
        ≡ (if w == v then or_else (lookup h vst.nodes) (node_of v h left) else node_of v h left)
  unfolding merge_version node_of or_else or_fresh
  node_of-merge_version left w vst d = elim (Bool-cases (w == v)) [
    | inl same ↦
        let e : w ≡ v = (text_eq_iff w v).0 same in
        rw same (
          rw e (
            rw
              (lookup-insert_self v
                (record (or_fresh (lookup v left) vst) {
                  nodes = merge_nodes (or_fresh (lookup v left) vst).nodes vst.nodes;
                })
                left)
              (lookup-merge_nodes h (or_fresh (lookup v left) vst).nodes vst.nodes d
                ∙ ap (or_else (lookup h vst.nodes)) (lookup-or_fresh h (lookup v left) vst))))
    | inr other ↦
        rw
          (lookup-insert_other w v
            (record (or_fresh (lookup w left) vst) {
              nodes = merge_nodes (or_fresh (lookup w left) vst).nodes vst.nodes;
            })
            left other)
          (rw other refl)
  ]

  -- Where both sides show a node, the merged status has the right one's view of it; a version or a node
  -- that one side shows is kept.
  pub merge_db_status-node_of :
      (left right : DbStatus)
      → DistinctStatus right
      → node_of v h (merge_db_status left right) ≡ or_else (node_of v h right) (node_of v h left)
  unfolding merge_db_status node_of or_else DistinctStatus lookup
  merge_db_status-node_of left [] d = refl
  merge_db_status-node_of left ((w, vst) ∷ right) d = elim (Bool-cases (w == v)) [
    | inl same ↦
        let e : w ≡ v = (text_eq_iff w v).0 same in
        let gone : lookup v right ≡ none = subst (λ x. lookup x right ≡ none) e d.0.0 in
        ground (
          arith,
          merge_db_status-node_of (merge_version left w vst) right (d.0.1, d.1.1),
          node_of-merge_version left w vst d.1.0,
          gone,
          same,
        )
    | inr other ↦ ground (
      arith,
      merge_db_status-node_of (merge_version left w vst) right (d.0.1, d.1.1),
      node_of-merge_version left w vst d.1.0,
      other,
    )
  ]
