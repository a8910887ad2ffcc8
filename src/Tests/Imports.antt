-- ===== src/Tests/Imports.antt =====
-- An imported topology: a Secret that a Pod refers to, with values that must not come along.
use kuviewer.Base.{
  ℕ, ◌≤◌, ◌≡◌, ◌≢◌, refl, Bool, true, false, Option, none, some, List, [], ◌∷◌, Text, lit, text_eq,
  text_eq_iff, has, length, All, get_elem?, arith,
}
use kuviewer.Base.Number.{whole}
use kuviewer.Base.Sets.{Distinct}
use kuviewer.Json.{Value, str, num, arr, obj, Fields, field, end, Items, nil, cons}
use kuviewer.Tests.Data.{plain}
use kuviewer.Topology.Types.{SummaryValue, text, TopologyNode, TopologyEdge, TopologySnapshot}
use kuviewer.Upload.Import.Hidden.{
  IsSecretSummary, IsShown, import_topology_snapshot-secret, import_topology_snapshot-IsShown,
}
use kuviewer.Upload.Import.Integrity.{import_topology_snapshot-ends}
use kuviewer.Upload.Import.Safe.{IsImportedNode, sanitize_imported_node-IsImportedNode}
use kuviewer.Upload.Import.Snapshot.{
  import_topology_snapshot, sanitize_imported_node, cluster_id_list, node_id_list, edge_id_list,
}

-- A field of a text, before other fields.
abbrev says : Text → Text → Fields → Fields
says key value rest = field key (str value) rest

abbrev raw_node : Text → Text → Fields → Value
raw_node id kind summary = obj (
    says (lit "id") id (
      says (lit "clusterId") (lit "c") (
        says (lit "kind") kind (
          says (lit "name") id
            (says (lit "status") (lit "healthy") (field (lit "summary") (obj summary) end))))))

abbrev raw_edge : Value
raw_edge = obj (
    says (lit "id") (lit "e") (
      says (lit "clusterId") (lit "c") (
        says (lit "source") (lit "p") (
          says (lit "target") (lit "s")
            (says (lit "type") (lit "mounts") (says (lit "confidence") (lit "observed") end))))))

abbrev raw_pod : Value
raw_pod =
    raw_node (lit "p") (lit "Pod")
      (says (lit "data") (lit "x") (says (lit "image") (lit "web") end))

abbrev raw_secret : Value
raw_secret =
    raw_node (lit "s") (lit "Secret")
      (says (lit "pin") (lit "1") (says (lit "type") (lit "Opaque") end))

abbrev raw : Value
raw = obj (
    field (lit "clusters") (arr nil) (
      field (lit "nodes") (arr (cons raw_pod (cons raw_secret nil)))
        (field (lit "edges") (arr (cons raw_edge nil)) end)))

abbrev imported_node : Text → Text → List (Text × SummaryValue) → TopologyNode
imported_node id kind summary = record {
  id = id;
  cluster_id = lit "c";
  kind = kind;
  namespace = none;
  name = id;
  status = lit "healthy";
  labels = [];
  annotations = none;
  uid = none;
  age = none;
  owners = none;
  summary = summary;
  x = whole 0;
  y = whole 0;
}

abbrev imported_pod : TopologyNode
imported_pod = imported_node (lit "p") (lit "Pod") ((lit "image", text (lit "web")) ∷ [])

abbrev imported_secret : TopologyNode
imported_secret =
    imported_node (lit "s") (lit "Secret")
      ((lit "values", text (lit "hidden")) ∷ (lit "type", text (lit "Opaque")) ∷ [])

abbrev imported_edge : TopologyEdge
imported_edge = record {
  id = lit "e";
  cluster_id = lit "c";
  source = lit "p";
  target = lit "s";
  type = lit "mounts";
  confidence = lit "observed";
  source_field = [];
}

abbrev imported : TopologySnapshot
imported = record {
  clusters = [];
  nodes = imported_pod ∷ imported_secret ∷ [];
  edges = imported_edge ∷ [];
  diagnostics = none;
}

raw_pod-imported : sanitize_imported_node plain raw_pod ≡ some imported_pod
unfolding sanitize_imported_node kuviewer.Upload.Import.Values.member_of kuviewer.Json.at text_eq
    lit kuviewer.Topology.Types.resource_kinds kuviewer.Topology.Types.resource_statuses has
    kuviewer.Upload.Import.Values.required_imported_string kuviewer.Base.trim
    kuviewer.Upload.Import.Values.optional_imported_string
    kuviewer.Upload.Import.Values.imported_string_record kuviewer.SafeMetadata.safe_annotations
    kuviewer.Upload.Import.Values.imported_string_array
    kuviewer.Upload.Import.Summary.sanitize_imported_summary
    kuviewer.Upload.Import.Values.imported_coordinate kuviewer.Base.flat_map
    kuviewer.Base.Dict.insert_all kuviewer.Base.Dict.insert
    kuviewer.Upload.Import.Summary.imported_summary_value kuviewer.SafeMetadata.sensitive_field
    kuviewer.SafeMetadata.sensitive_words kuviewer.Base.any kuviewer.Base.includes
    kuviewer.Base.starts_with
raw_pod-imported = refl

raw-imported : import_topology_snapshot plain raw ≡ some imported
unfolding import_topology_snapshot kuviewer.Base.traverse kuviewer.Base.Sets.add_all
    kuviewer.Base.Sets.add kuviewer.Upload.Import.Snapshot.sanitize_imported_edge
    kuviewer.Topology.Types.edge_types sanitize_imported_node
    kuviewer.Upload.Import.Values.member_of kuviewer.Json.at text_eq lit
    kuviewer.Topology.Types.resource_kinds kuviewer.Topology.Types.resource_statuses has
    kuviewer.Upload.Import.Values.required_imported_string kuviewer.Base.trim
    kuviewer.Upload.Import.Values.optional_imported_string
    kuviewer.Upload.Import.Values.imported_string_record kuviewer.SafeMetadata.safe_annotations
    kuviewer.Upload.Import.Values.imported_string_array
    kuviewer.Upload.Import.Summary.sanitize_imported_summary
    kuviewer.Upload.Import.Values.imported_coordinate kuviewer.Base.flat_map
    kuviewer.Base.Dict.insert_all kuviewer.Base.Dict.insert
    kuviewer.Upload.Import.Summary.imported_summary_value kuviewer.SafeMetadata.sensitive_field
    kuviewer.SafeMetadata.sensitive_words kuviewer.Base.any kuviewer.Base.includes
    kuviewer.Base.starts_with
raw-imported = refl

imported_node_example : IsImportedNode plain imported_pod
imported_node_example = sanitize_imported_node-IsImportedNode plain raw_pod raw_pod-imported

ends_example :
    (has imported_edge.source (node_id_list imported.nodes) ≡ true)
    × (has imported_edge.target (node_id_list imported.nodes) ≡ true)
ends_example = import_topology_snapshot-ends plain raw raw-imported 0 refl

secret_summary_example : IsSecretSummary imported_secret.summary
secret_summary_example = import_topology_snapshot-secret plain raw raw-imported 1 refl refl

pod-not_secret : lit "Pod" ≢ lit "Secret"
unfolding text_eq lit
pod-not_secret e = ground (arith, text_eq_iff (lit "Pod") (lit "Secret"))

IsShown-summary_example : All (IsShown plain) imported_pod.summary
IsShown-summary_example =
    import_topology_snapshot-IsShown plain raw raw-imported 0 refl pod-not_secret
