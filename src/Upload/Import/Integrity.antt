-- ===== src/Upload/Import/Integrity.antt =====
-- The shape of an imported topology as a whole: ids, ends of edges, sizes.
use kuviewer.Base.{
  ℕ, ◌≤◌, ◌≡◌, true, ◌&&◌, some, List, arith, leb, leb→le, ==_iff, Text, lit, has, length,
  All-get_elem?, All-traverse, length-traverse, get_elem?, traverse, along_some, and-split,
  >>=-eq-some, guard-eq-some,
}
use kuviewer.Base.Sets.{set_of, has-set_of, Distinct, Distinct-of_size}
use kuviewer.Json.{Value, obj, at, as_items}
use kuviewer.Platform.{Platform}
use kuviewer.Topology.Types.{TopologyNode, TopologyEdge, TopologySnapshot, edge_types}
use kuviewer.Upload.Import.Snapshot.{
  sanitize_imported_cluster, sanitize_imported_node, sanitize_imported_edge, confidences,
  all_distinct, cluster_id_list, node_id_list, edge_id_list, import_topology_snapshot,
}
use kuviewer.Upload.Import.Values.{required_imported_string, member_of}

-- The arrays that a topology was read from.
pub record Source (js : Platform) (s : TopologySnapshot) : Type 0 where
  pub raw_clusters : List Value
  pub raw_nodes : List Value
  pub raw_edges : List Value
  pub clusters_read : traverse sanitize_imported_cluster raw_clusters ≡ some s.clusters
  pub nodes_read : traverse (sanitize_imported_node js) raw_nodes ≡ some s.nodes
  pub edges_read :
      traverse (sanitize_imported_edge (set_of (node_id_list s.nodes))) raw_edges ≡ some s.edges
  pub clusters_distinct : Distinct (cluster_id_list s.clusters)
  pub nodes_distinct : Distinct (node_id_list s.nodes)
  pub edges_distinct : Distinct (edge_id_list s.edges)
  pub clusters_bounded : length raw_clusters ≤ 100
  pub nodes_bounded : length raw_nodes ≤ 50000
  pub edges_bounded : length raw_edges ≤ 100000

all_distinct-Distinct : (ids : List Text) → all_distinct ids ≡ true → Distinct ids
all_distinct-Distinct ids h = Distinct-of_size ids ((==_iff (length (set_of ids)) (length ids)).0 h)

pub import_topology_snapshot-Source :
    (js : Platform) (v : Value) {s : TopologySnapshot}
    → import_topology_snapshot js v ≡ some s
    → Source js s
unfolding import_topology_snapshot
import_topology_snapshot-Source js (obj fs) h =
    let (cs, _, h1) = >>=-eq-some (as_items (at fs (lit "clusters"))) _ h in
    let (ns, _, h2) = >>=-eq-some (as_items (at fs (lit "nodes"))) _ h1 in
    let (es, _, h3) = >>=-eq-some (as_items (at fs (lit "edges"))) _ h2 in
    let (sizes, h4) =
      guard-eq-some (leb (length cs) 100 && leb (length ns) 50000 && leb (length es) 100000) _ h3 in
    let (clusters, hc, h5) = >>=-eq-some (traverse sanitize_imported_cluster cs) _ h4 in
    let (nodes, hn, h6) = >>=-eq-some (traverse (sanitize_imported_node js) ns) _ h5 in
    let (edges, he, h7) =
      >>=-eq-some (traverse (sanitize_imported_edge (set_of (node_id_list nodes))) es) _ h6 in
    let (ids, h8) =
      guard-eq-some
        (all_distinct (cluster_id_list clusters)
          && all_distinct (node_id_list nodes)
          && all_distinct (edge_id_list edges))
        _ h7 in
    let (firsts, e1) =
      and-split (all_distinct (cluster_id_list clusters) && all_distinct (node_id_list nodes))
        (all_distinct (edge_id_list edges)) ids in
    let (c1, n1) =
      and-split (all_distinct (cluster_id_list clusters)) (all_distinct (node_id_list nodes))
        firsts in
    let (starts, e2) =
      and-split (leb (length cs) 100 && leb (length ns) 50000) (leb (length es) 100000) sizes in
    let (c2, n2) = and-split (leb (length cs) 100) (leb (length ns) 50000) starts in
    along_some (Source js) h8 (record {
      raw_clusters = cs;
      raw_nodes = ns;
      raw_edges = es;
      clusters_read = hc;
      nodes_read = hn;
      edges_read = he;
      clusters_distinct = all_distinct-Distinct (cluster_id_list clusters) c1;
      nodes_distinct = all_distinct-Distinct (node_id_list nodes) n1;
      edges_distinct = all_distinct-Distinct (edge_id_list edges) e1;
      clusters_bounded = leb→le (length cs) 100 c2;
      nodes_bounded = leb→le (length ns) 50000 n2;
      edges_bounded = leb→le (length es) 100000 e2;
    })
import_topology_snapshot-Source js _ h = absurd (ground arith)

-- What every sanitized node has, the node at any place of an imported topology has.
pub import_topology_snapshot-node {κ} :
    (P : TopologyNode → Type κ) (js : Platform) (v : Value) {s : TopologySnapshot}
    → import_topology_snapshot js v ≡ some s
    → ((w : Value) (n : TopologyNode) → sanitize_imported_node js w ≡ some n → P n)
    → (i : ℕ) {n : TopologyNode} → get_elem? s.nodes i ≡ some n
    → P n
import_topology_snapshot-node P js v {s} h each i {n} there =
    let src = import_topology_snapshot-Source js v h in
    All-get_elem? P s.nodes i n
      (All-traverse P (sanitize_imported_node js) src.raw_nodes each src.nodes_read) there

sanitize_imported_edge-ends :
    (ids : List Text) (v : Value) (e : TopologyEdge)
    → sanitize_imported_edge ids v ≡ some e
    → (has e.source ids ≡ true) × (has e.target ids ≡ true)
unfolding sanitize_imported_edge
sanitize_imported_edge-ends ids (obj fs) e h =
    let (_, _, h1) = >>=-eq-some (member_of edge_types (at fs (lit "type"))) _ h in
    let (_, _, h2) = >>=-eq-some (member_of confidences (at fs (lit "confidence"))) _ h1 in
    let (source, _, h3) = >>=-eq-some (required_imported_string (at fs (lit "source")) 500) _ h2 in
    let (target, _, h4) = >>=-eq-some (required_imported_string (at fs (lit "target")) 500) _ h3 in
    let (ends, h5) = guard-eq-some (has source ids && has target ids) _ h4 in
    let (_, _, h6) = >>=-eq-some (required_imported_string (at fs (lit "id")) 1200) _ h5 in
    let (_, _, h7) = >>=-eq-some (required_imported_string (at fs (lit "clusterId")) 160) _ h6 in
    along_some (λ (x : TopologyEdge). (has x.source ids ≡ true) × (has x.target ids ≡ true)) h7
      (and-split (has source ids) (has target ids) ends)
sanitize_imported_edge-ends ids _ e h = absurd (ground arith)

module _ (js : Platform) (v : Value) {s : TopologySnapshot}
    (imported : import_topology_snapshot js v ≡ some s) where
  -- In every imported topology both ends of an edge are nodes of it.
  pub import_topology_snapshot-ends :
      (i : ℕ) {e : TopologyEdge}
      → get_elem? s.edges i ≡ some e
      → (has e.source (node_id_list s.nodes) ≡ true) × (has e.target (node_id_list s.nodes) ≡ true)
  import_topology_snapshot-ends i {e} there =
      let src = import_topology_snapshot-Source js v imported in
      let ids = set_of (node_id_list s.nodes) in
      let (a, b) =
        All-get_elem? (λ (x : TopologyEdge). (has x.source ids ≡ true) × (has x.target ids ≡ true))
          s.edges i e
          (All-traverse _ (sanitize_imported_edge ids) src.raw_edges
            (sanitize_imported_edge-ends ids) src.edges_read)
          there in
      (
        ground (arith, has-set_of e.source (node_id_list s.nodes)),
        ground (arith, has-set_of e.target (node_id_list s.nodes)),
      )

  -- In every imported topology the ids of the clusters, of the nodes and of the edges are distinct,
  -- and there are at most 100 clusters, 50000 nodes and 100000 edges.
  pub import_topology_snapshot-sizes :
      Distinct (cluster_id_list s.clusters)
      × Distinct (node_id_list s.nodes)
      × Distinct (edge_id_list s.edges)
      × (length s.clusters ≤ 100)
      × (length s.nodes ≤ 50000)
      × (length s.edges ≤ 100000)
  import_topology_snapshot-sizes =
      let src = import_topology_snapshot-Source js v imported in
      (
        src.clusters_distinct,
        src.nodes_distinct,
        src.edges_distinct,
        omega (
          arith,
          src.clusters_bounded,
          length-traverse {0, 0} _ src.raw_clusters src.clusters_read,
        ),
        omega (arith, src.nodes_bounded, length-traverse {0, 0} _ src.raw_nodes src.nodes_read),
        omega (arith, src.edges_bounded, length-traverse {0, 0} _ src.raw_edges src.edges_read),
      )
