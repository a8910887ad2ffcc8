-- ===== src/Tests/Comparisons.antt =====
-- Two snapshots compared: a resource added, one removed and one changed; and what is shown of it.
use kuviewer.Base.{◌+◌, ◌≡◌, refl, not, ◌&&◌, [], ◌∷◌, Text, lit, text_eq, has, length}
use kuviewer.Base.Sets.{Distinct}
use kuviewer.Snapshot.Compare.{
  NodeChange, EdgeChange, ClusterChange, compare_topology_snapshots, changed_node_fields,
}
use kuviewer.Snapshot.Compare.Counts.{
  compare_topology_snapshots-balance, compare_topology_snapshots-grouped, grouped,
}
use kuviewer.Snapshot.Compare.Laws.{
  HasDistinctIds, node_ids, edge_ids, cluster_ids, reports_node, reports_edge, reports_cluster,
  compare_topology_snapshots-reports,
}
use kuviewer.Snapshot.Compare.Same.{compare_topology_snapshots_self, changed_node_fields-secret}
use kuviewer.Snapshot.Diff.{added, removed}
use kuviewer.Tests.Data.{plain, pod, before, after}
use kuviewer.Topology.Types.{TopologyNode, text}

before-HasDistinctIds : HasDistinctIds before
unfolding has text_eq lit
before-HasDistinctIds = record { clusters = tt; nodes = (refl, (refl, tt)); edges = (refl, tt) }

after-HasDistinctIds : HasDistinctIds after
unfolding has text_eq lit
after-HasDistinctIds = record { clusters = tt; nodes = (refl, (refl, tt)); edges = tt }

reports_example :
    let r = compare_topology_snapshots plain before after in
    let k = lit "d" in
    (reports_node added k r ≡ (has k (node_ids after) && not (has k (node_ids before))))
    × (reports_node removed k r ≡ (has k (node_ids before) && not (has k (node_ids after))))
    × (reports_edge added k r ≡ (has k (edge_ids after) && not (has k (edge_ids before))))
    × (reports_edge removed k r ≡ (has k (edge_ids before) && not (has k (edge_ids after))))
    × (reports_cluster added k r ≡ (has k (cluster_ids after) && not (has k (cluster_ids before))))
    × (reports_cluster removed k r
        ≡ (has k (cluster_ids before) && not (has k (cluster_ids after))))
reports_example = compare_topology_snapshots-reports plain before after (lit "d")

balance_example :
    let r = compare_topology_snapshots plain before after in
    (r.counts.added_count + length before.nodes ≡ r.counts.removed_count + length after.nodes)
    × (r.edge_counts.added_count + length before.edges
        ≡ r.edge_counts.removed_count + length after.edges)
    × (r.cluster_counts.added_count + length before.clusters
        ≡ r.cluster_counts.removed_count + length after.clusters)
balance_example =
    compare_topology_snapshots-balance plain before after before-HasDistinctIds after-HasDistinctIds

grouped_example :
    let r = compare_topology_snapshots plain before after in
    (r.nodes ≡ grouped (λ (x : NodeChange). x.type) r.nodes)
    × (r.edges ≡ grouped (λ (x : EdgeChange). x.type) r.edges)
    × (r.clusters ≡ grouped (λ (x : ClusterChange). x.type) r.clusters)
grouped_example = compare_topology_snapshots-grouped plain before after

self_example :
    let r = compare_topology_snapshots plain before before in
    (r.nodes ≡ []) × (r.edges ≡ []) × (r.clusters ≡ [])
self_example = compare_topology_snapshots_self plain before before-HasDistinctIds tt

abbrev secret : Text → TopologyNode
secret value = record (pod (lit "s") (lit "healthy")) {
  kind = lit "Secret";
  summary = (lit "token", text value) ∷ [];
}

secret_example :
    changed_node_fields plain (secret (lit "two")) (secret (lit "three"))
    ≡ changed_node_fields plain (secret (lit "one")) (secret (lit "one"))
secret_example =
    changed_node_fields-secret plain (secret (lit "one")) (secret (lit "one"))
      ((lit "token", text (lit "two")) ∷ []) ((lit "token", text (lit "three")) ∷ []) refl refl refl
      refl

owns-Distinct : Distinct (lit "owns" ∷ [])
unfolding has
owns-Distinct = (refl, tt)
