-- ===== src/Upload/Graph/Build.antt =====
-- `buildSnapshotFromKubernetesObjects` and `addObjectNode` of parseKubernetesFiles.ts.
use kuviewer.Base.{
  Bool, not, ◌&&◌, none, some, List, [], ◌∷◌, ◌++◌, if◌then◌else◌, Text, lit, truthy, or_text,
  text_eq, filter, length,
}
use kuviewer.Base.Number.{whole}
use kuviewer.Base.Sets.{add}
use kuviewer.Platform.{Platform}
use kuviewer.Topology.Types.{text, number, TopologyNode, ClusterSummary, TopologySnapshot}
use kuviewer.Upload.Graph.{BuildContext, node_id, add_node, add_edge, for_each, warn}
use kuviewer.Upload.Graph.Definitions.{
  Definition, custom_resource_definition_records, normalize_object_kind, object_name_for_kind,
}
use kuviewer.Upload.Graph.Edges.{add_object_edges}
use kuviewer.Upload.Graph.Policies.{
  add_service_selector_edges, add_network_policy_edges, namespace_records,
}
use kuviewer.Upload.Graph.Schemas.{Schemas}
use kuviewer.Upload.Graph.Summaries.{object_summary, object_status}
use kuviewer.Upload.Object.{
  KubeObject, object_kind, object_name, object_namespace, is_named, labels,
}

-- The cluster's name and id, after `normalizeUploadOptions`.
pub record UploadOptions : Type 0 where
  pub cluster_name : Text
  pub cluster_id : Text

abbrev pub empty_context : Text → List Text → BuildContext
empty_context cluster_id warnings = record {
  cluster_id = cluster_id;
  node_set = [];
  edge_set = [];
  nodes = [];
  edges = [];
  warnings = warnings;
}

-- The objects of one kind.
abbrev pub of_kind : Text → List KubeObject → List KubeObject
of_kind kind objects = filter (λ o. text_eq (object_kind o) kind) objects

abbrev pub add_namespace : List Text → KubeObject → List Text
add_namespace s o =
    let s1 = if truthy (object_namespace o) then add (object_namespace o) s else s in
    if text_eq (object_kind o) (lit "Namespace") && truthy (object_name o)
    then add (object_name o) s1
    else s1

unfoldable pub namespaces_of : List KubeObject → List Text
namespaces_of objects = for_each add_namespace [] objects

abbrev pub unsupported_message : KubeObject → Text
unsupported_message o = lit "지원하지 않는 kind: " ++ or_text (object_kind o) (lit "unknown")

-- The nodes of a kind, the healthy ones and the others.
abbrev pub is_kind : Text → TopologyNode → Bool
is_kind kind n = text_eq n.kind kind

abbrev pub is_healthy : TopologyNode → Bool
is_healthy n = text_eq n.status (lit "healthy")

unfoldable pub uploaded_cluster_summary :
    UploadOptions → List Text → List TopologyNode → ClusterSummary
uploaded_cluster_summary options namespaces nodes =
    let count = λ (test : TopologyNode → Bool). whole (length (filter test nodes)) in
    record {
      id = options.cluster_id;
      name = options.cluster_name;
      provider = lit "Upload";
      version = lit "yaml";
      node_ready = count (λ n. is_kind (lit "Node") n && is_healthy n);
      node_total = count (is_kind (lit "Node"));
      pod_running = count (λ n. is_kind (lit "Pod") n && is_healthy n);
      pod_warning = count (λ n. is_kind (lit "Pod") n && not (is_healthy n));
      namespaces = whole (length namespaces);
    }

module _ (js : Platform) (s : Schemas) where
  unfoldable pub add_object_node : List Definition → BuildContext → KubeObject → BuildContext
  add_object_node definitions c o = elim (normalize_object_kind o definitions) [
    | none ↦ warn c (unsupported_message o)
    | some (kind, definition) ↦
        add_node c kind (object_namespace o) (object_name_for_kind kind o)
          (object_status js s kind o) (labels o) (object_summary js s kind o definition)
  ]

  abbrev pub cluster_node :
      UploadOptions → List KubeObject → List Text → BuildContext → BuildContext
  cluster_node options objects namespaces c =
      add_node c (lit "Cluster") [] options.cluster_name (lit "healthy")
        ((lit "provider", lit "upload") ∷ [])
        ((lit "objects", number (whole (length objects)))
          ∷ (lit "namespaces", number (whole (length namespaces)))
          ∷ [])

  abbrev pub namespace_node : UploadOptions → BuildContext → Text → BuildContext
  namespace_node options c namespace =
      let c1 =
        add_node c (lit "Namespace") [] namespace (lit "healthy") []
          ((lit "source", text (lit "uploaded")) ∷ []) in
      add_edge c1 (lit "owns") (node_id c.cluster_id [] (lit "Cluster") options.cluster_name)
        (node_id c.cluster_id [] (lit "Namespace") namespace) (lit "metadata.namespace")
        (lit "observed")

  -- The cluster, its namespaces, and the nodes of all objects, before any edge between them.
  unfoldable pub build_nodes : List KubeObject → List Text → UploadOptions → BuildContext
  build_nodes objects warnings options =
      let namespaces = namespaces_of objects in
      let c = cluster_node options objects namespaces (empty_context options.cluster_id warnings) in
      let c1 = for_each (namespace_node options) c namespaces in
      for_each (add_object_node (custom_resource_definition_records objects)) c1 objects

  -- The graph of the named objects, and the warnings.
  unfoldable pub build_graph : List KubeObject → List Text → UploadOptions → BuildContext
  build_graph objects warnings options =
      let pods = of_kind (lit "Pod") objects in
      let c = build_nodes objects warnings options in
      let c1 =
        for_each (add_object_edges s (custom_resource_definition_records objects)) c objects in
      let c2 = add_service_selector_edges s pods c1 (of_kind (lit "Service") objects) in
      add_network_policy_edges pods
        (namespace_records (namespaces_of objects) (of_kind (lit "Namespace") objects)) c2
        (of_kind (lit "NetworkPolicy") objects)

  -- The snapshot, with the warnings after it.
  unfoldable pub build_snapshot_from_kubernetes_objects :
      List KubeObject → List Text → UploadOptions → TopologySnapshot × List Text
  build_snapshot_from_kubernetes_objects objects warnings options =
      let valid = filter is_named objects in
      let c = build_graph valid warnings options in
      (
        record {
          clusters = uploaded_cluster_summary options (namespaces_of valid) c.nodes ∷ [];
          nodes = c.nodes;
          edges = c.edges;
          diagnostics = none;
        },
        c.warnings,
      )
