-- ===== src/Snapshot/Compare/Laws.antt =====
-- What the comparison of two snapshots reports.
use kuviewer.Base.{
  ◌≡◌, refl, ◌∙◌, Bool, not, ◌&&◌, Option, List, map, if◌then◌else◌, Text, text_eq, has, any,
}
use kuviewer.Base.Sets.{Distinct}
use kuviewer.Base.Sort.{sort_by-any}
use kuviewer.Platform.{Platform}
use kuviewer.Snapshot.Compare.{
  NodeChange, ClusterChange, EdgeChange, SnapshotComparison, changed_cluster_fields,
  changed_edge_fields, cluster_change, node_change, edge_change, changed_node_fields, cluster_order,
  node_order, edge_order, compare_topology_snapshots,
}
use kuviewer.Snapshot.Diff.{ChangeType, added, removed, same_type}
use kuviewer.Snapshot.Diff.Reports.{reports-changes}
use kuviewer.Topology.Types.{TopologyNode, TopologyEdge, ClusterSummary, TopologySnapshot}

abbrev pub node_ids : TopologySnapshot → List Text
node_ids s = map (λ (n : TopologyNode). n.id) s.nodes

abbrev pub edge_ids : TopologySnapshot → List Text
edge_ids s = map (λ (e : TopologyEdge). e.id) s.edges

abbrev pub cluster_ids : TopologySnapshot → List Text
cluster_ids s = map (λ (c : ClusterSummary). c.id) s.clusters

-- No id stands twice among the clusters, the nodes or the edges.
pub record HasDistinctIds (s : TopologySnapshot) : Type 0 where
  pub clusters : Distinct (cluster_ids s)
  pub nodes : Distinct (node_ids s)
  pub edges : Distinct (edge_ids s)

abbrev pub reports_node : ChangeType → Text → SnapshotComparison → Bool
reports_node t k r = any (λ (c : NodeChange). same_type c.type t && text_eq c.id k) r.nodes

abbrev pub reports_edge : ChangeType → Text → SnapshotComparison → Bool
reports_edge t k r = any (λ (c : EdgeChange). same_type c.type t && text_eq c.id k) r.edges

abbrev pub reports_cluster : ChangeType → Text → SnapshotComparison → Bool
reports_cluster t k r = any (λ (c : ClusterChange). same_type c.type t && text_eq c.id k) r.clusters

abbrev pub edge_maker :
    TopologySnapshot
    → TopologySnapshot
    → ChangeType
    → TopologyEdge
    → Option TopologyEdge
    → List Text
    → EdgeChange
edge_maker b c type edge previous =
    edge_change (if same_type type removed then b.nodes else c.nodes) type edge

module _ (js : Platform) (b c : TopologySnapshot) where
  -- A resource, relation or cluster is reported as added exactly when only the current snapshot has
  -- its id, and as removed exactly when only the baseline has it.
  pub compare_topology_snapshots-reports :
      (k : Text)
      → let r = compare_topology_snapshots js b c in
        (reports_node added k r ≡ (has k (node_ids c) && not (has k (node_ids b))))
        × (reports_node removed k r ≡ (has k (node_ids b) && not (has k (node_ids c))))
        × (reports_edge added k r ≡ (has k (edge_ids c) && not (has k (edge_ids b))))
        × (reports_edge removed k r ≡ (has k (edge_ids b) && not (has k (edge_ids c))))
        × (reports_cluster added k r ≡ (has k (cluster_ids c) && not (has k (cluster_ids b))))
        × (reports_cluster removed k r ≡ (has k (cluster_ids b) && not (has k (cluster_ids c))))
  unfolding compare_topology_snapshots
  compare_topology_snapshots-reports k =
      let ns =
        reports-changes (λ (n : TopologyNode). n.id) (changed_node_fields js) node_change
          (λ (x : NodeChange). x.id) (λ (x : NodeChange). x.type) (λ t x p fs. refl)
          (λ t x p fs. refl) k b.nodes c.nodes in
      let es =
        reports-changes (λ (e : TopologyEdge). e.id) changed_edge_fields (edge_maker b c)
          (λ (x : EdgeChange). x.id) (λ (x : EdgeChange). x.type) (λ t x p fs. refl)
          (λ t x p fs. refl) k b.edges c.edges in
      let cs =
        reports-changes (λ (e : ClusterSummary). e.id) changed_cluster_fields cluster_change
          (λ (x : ClusterChange). x.id) (λ (x : ClusterChange). x.type) (λ t x p fs. refl)
          (λ t x p fs. refl) k b.clusters c.clusters in
      (
        sort_by-any (node_order js) _ _ ∙ ns.0,
        sort_by-any (node_order js) _ _ ∙ ns.1,
        sort_by-any (edge_order js) _ _ ∙ es.0,
        sort_by-any (edge_order js) _ _ ∙ es.1,
        sort_by-any (cluster_order js) _ _ ∙ cs.0,
        sort_by-any (cluster_order js) _ _ ∙ cs.1,
      )
