-- ===== src/Upload/Import/Snapshot.antt =====
-- `importTopologySnapshot` and the sanitizers of clusters, nodes and edges.
use kuviewer.Base.{
  ℕ, Bool, ◌&&◌, Option, none, some, List, [], ◌∷◌, map, leb, ◌==◌, Text, lit, has, length,
  traverse, ◌>>=◌, ◌>>◌, guard,
}
use kuviewer.Base.Dict.{Dict}
use kuviewer.Base.Sets.{set_of}
use kuviewer.Json.{Value, obj, at, as_items}
use kuviewer.Platform.{Platform}
use kuviewer.SafeMetadata.{safe_annotations}
use kuviewer.Topology.Types.{
  TopologyNode, TopologyEdge, ClusterSummary, TopologySnapshot, resource_kinds, resource_statuses,
  edge_types,
}
use kuviewer.Upload.Import.Values.{
  imported_string, required_imported_string, optional_imported_string, imported_count,
  imported_coordinate, imported_string_record, imported_string_array, member_of,
}
use kuviewer.Upload.Import.Summary.{sanitize_imported_summary}

abbrev pub max_imported_clusters : ℕ
max_imported_clusters = 100

abbrev pub max_imported_nodes : ℕ
max_imported_nodes = 50000

abbrev pub max_imported_edges : ℕ
max_imported_edges = 100000

-- The sets that an import accepts have the members of the types.
abbrev pub imported_resource_kinds : List Text
imported_resource_kinds = resource_kinds

abbrev pub imported_edge_types : List Text
imported_edge_types = edge_types

abbrev pub imported_resource_statuses : List Text
imported_resource_statuses = resource_statuses

unfoldable pub sanitize_imported_cluster : Value → Option ClusterSummary
sanitize_imported_cluster (obj fs) = do
  id ← required_imported_string (at fs (lit "id")) 160
  name ← required_imported_string (at fs (lit "name")) 160
  some (record {
    id = id;
    name = name;
    provider = imported_string (at fs (lit "provider")) 160;
    version = imported_string (at fs (lit "version")) 80;
    node_ready = imported_count (at fs (lit "nodeReady"));
    node_total = imported_count (at fs (lit "nodeTotal"));
    pod_running = imported_count (at fs (lit "podRunning"));
    pod_warning = imported_count (at fs (lit "podWarning"));
    namespaces = imported_count (at fs (lit "namespaces"));
  })
sanitize_imported_cluster _ = none

-- `Object.keys(annotations).length > 0 ? annotations : undefined`.
abbrev pub unless_empty : Dict Text → Option (Dict Text)
unless_empty [] = none
unless_empty (e ∷ m) = some (e ∷ m)

unfoldable pub sanitize_imported_node : Platform → Value → Option TopologyNode
sanitize_imported_node js (obj fs) = do
  kind ← member_of imported_resource_kinds (at fs (lit "kind"))
  status ← member_of imported_resource_statuses (at fs (lit "status"))
  id ← required_imported_string (at fs (lit "id")) 500
  cluster_id ← required_imported_string (at fs (lit "clusterId")) 160
  name ← required_imported_string (at fs (lit "name")) 253
  some (record {
    id = id;
    cluster_id = cluster_id;
    kind = kind;
    namespace = optional_imported_string (at fs (lit "namespace")) 160;
    name = name;
    status = status;
    labels = imported_string_record (at fs (lit "labels")) 200 160 512;
    annotations =
        unless_empty
          (safe_annotations js (imported_string_record (at fs (lit "annotations")) 200 256 2000));
    uid = optional_imported_string (at fs (lit "uid")) 160;
    age = optional_imported_string (at fs (lit "age")) 80;
    owners = imported_string_array (at fs (lit "owners")) 100 320;
    summary = sanitize_imported_summary js (at fs (lit "summary")) kind;
    x = imported_coordinate (at fs (lit "x"));
    y = imported_coordinate (at fs (lit "y"));
  })
sanitize_imported_node js _ = none

abbrev pub confidences : List Text
confidences = lit "observed" ∷ lit "inferred" ∷ []

unfoldable pub sanitize_imported_edge : List Text → Value → Option TopologyEdge
sanitize_imported_edge node_ids (obj fs) = do
  type ← member_of imported_edge_types (at fs (lit "type"))
  confidence ← member_of confidences (at fs (lit "confidence"))
  source ← required_imported_string (at fs (lit "source")) 500
  target ← required_imported_string (at fs (lit "target")) 500
  guard (has source node_ids && has target node_ids)
  id ← required_imported_string (at fs (lit "id")) 1200
  cluster_id ← required_imported_string (at fs (lit "clusterId")) 160
  some (record {
    id = id;
    cluster_id = cluster_id;
    source = source;
    target = target;
    type = type;
    confidence = confidence;
    source_field = imported_string (at fs (lit "sourceField")) 500;
  })
sanitize_imported_edge node_ids _ = none

-- `new Set(ids).size !== ids.length`, negated.
abbrev pub all_distinct : List Text → Bool
all_distinct ids = length (set_of ids) == length ids

abbrev pub cluster_id_list : List ClusterSummary → List Text
cluster_id_list = map (λ (c : ClusterSummary). c.id)

abbrev pub node_id_list : List TopologyNode → List Text
node_id_list = map (λ (n : TopologyNode). n.id)

abbrev pub edge_id_list : List TopologyEdge → List Text
edge_id_list = map (λ (e : TopologyEdge). e.id)

unfoldable pub import_topology_snapshot : Platform → Value → Option TopologySnapshot
import_topology_snapshot js (obj fs) = do
  raw_clusters ← as_items (at fs (lit "clusters"))
  raw_nodes ← as_items (at fs (lit "nodes"))
  raw_edges ← as_items (at fs (lit "edges"))
  guard (
      leb (length raw_clusters) max_imported_clusters
      && leb (length raw_nodes) max_imported_nodes
      && leb (length raw_edges) max_imported_edges)
  clusters ← traverse sanitize_imported_cluster raw_clusters
  nodes ← traverse (sanitize_imported_node js) raw_nodes
  edges ← traverse (sanitize_imported_edge (set_of (node_id_list nodes))) raw_edges
  guard (
      all_distinct (cluster_id_list clusters)
      && all_distinct (node_id_list nodes)
      && all_distinct (edge_id_list edges))
  some (record { clusters = clusters; nodes = nodes; edges = edges; diagnostics = none })
import_topology_snapshot js _ = none
