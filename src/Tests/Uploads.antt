-- ===== src/Tests/Uploads.antt =====
-- Uploaded objects: a Pod that mounts a Secret, the Secret, and an object of an unknown kind.
use kuviewer.Base.{
  ℕ, ◌≡◌, refl, Bool, true, false, Option, none, some, List, [], ◌∷◌, Text, lit, has, all, truthy,
  map, filter, ◌++◌, length, ◌≤◌, All, get_elem?, inl, inr, text_eq, ◌⊎◌, flat_map, if◌then◌else◌,
  ◌>>=◌,
}
use kuviewer.Base.Dict.{Dict}
use kuviewer.Base.Number.{whole}
use kuviewer.Base.Sets.{Distinct}
use kuviewer.Json.{Value, bool, str, num, arr, obj, Fields, field, end, Items, nil, cons}
use kuviewer.Tests.Data.{plain}
use kuviewer.Topology.Types.{SummaryValue, text, number, TopologyNode}
use kuviewer.Upload.Collect.{Packages, UploadFile, Parsing, add_files, normalize_cluster_id}
use kuviewer.Upload.Collect.ClusterId.{IsClusterId, normalize_cluster_id-IsClusterId}
use kuviewer.Upload.Collect.Files.{opens, manifest_names, add_files-manifests}
use kuviewer.Upload.Graph.{node_id, add_node, add_edge, edge_id, for_each}
use kuviewer.Upload.Graph.Plain.{
  Call, call_node, call_edge, perform, firsts, node_key, edge_key, asked_nodes, asked_edges,
  perform-firsts,
}
use kuviewer.Upload.Graph.Build.{
  UploadOptions, build_graph, empty_context, build_snapshot_from_kubernetes_objects,
  unsupported_message,
}
use kuviewer.Upload.Graph.Closed.{IsSecretShown}
use kuviewer.Upload.Graph.Definitions.{Definition, custom_resource_definition_records}
use kuviewer.Upload.Graph.Formed.{
  graph_node_ids, graph_edge_ids, EndsIn, build_snapshot_from_kubernetes_objects-IsGraph,
  build_snapshot_from_kubernetes_objects-IsSecretShown,
}
use kuviewer.Upload.Graph.Ids.{node_id-injective}
use kuviewer.Upload.Graph.Recognized.{IsDefinedBy, build_snapshot_from_kubernetes_objects-has}
use kuviewer.Upload.Graph.Schemas.{Schemas}
use kuviewer.Upload.Graph.Warned.{is_unsupported, build_snapshot_from_kubernetes_objects-warnings}
use kuviewer.Upload.Object.{KubeObject, is_named}
use kuviewer.Upload.Schemas.Installed.{installed}

-- Schemas that find nothing in the kinds that have no model.
abbrev nothing_else : Schemas
nothing_else = record {
  service_selector = λ o. none;
  service_supports_selector_inference = λ o. false;
  service_spec_is_valid = λ o. true;
  service_summary = λ o. [];
  ingress_spec_is_valid = λ o. true;
  ingress_service_names = λ o. [];
  ingress_status = λ o. lit "unknown";
  ingress_summary = λ o. [];
  gateway_status = λ o. lit "unknown";
  gateway_summary = λ o. [];
  gateway_route_spec_is_valid = λ k o. true;
  gateway_route_parent_gateways = λ o n. [];
  gateway_route_backend_services = λ o n. [];
  gateway_route_status = λ k o. lit "unknown";
  gateway_route_summary = λ k o. [];
  workload_template_is_valid = λ k o. true;
  workload_references = λ k o. [];
  workload_status = λ k o. lit "unknown";
  workload_summary = λ k o. [];
  pod_runtime_status = λ o. lit "unknown";
  pod_runtime_summary = λ o. [];
  node_status = λ o. lit "unknown";
  node_summary = λ o. [];
  storage_references = λ k o. [];
  storage_status = λ k o. lit "unknown";
  storage_summary = λ k o. [];
  hpa_spec_is_valid = λ o. false;
  hpa_scale_target = λ o. none;
  hpa_status = λ o. lit "unknown";
  hpa_summary = λ o. [];
  config_map_status = λ o. lit "unknown";
  config_map_summary = λ o. [];
  infer_custom_resource_references = λ v n d ds. [];
}

abbrev schemas : Schemas
schemas = installed plain nothing_else

abbrev object_of : Text → Text → Fields → KubeObject
object_of kind name rest = field (lit "kind") (str kind) (
    field (lit "metadata")
      (obj (field (lit "name") (str name) (field (lit "namespace") (str (lit "default")) end)))
      rest)

abbrev mounted : Value
mounted = obj (field (lit "secret") (obj (field (lit "secretName") (str (lit "keys")) end)) end)

abbrev web_pod : KubeObject
web_pod =
    object_of (lit "Pod") (lit "web")
      (field (lit "spec") (obj (field (lit "volumes") (arr (cons mounted nil)) end)) end)

abbrev keys_secret : KubeObject
keys_secret =
    object_of (lit "Secret") (lit "keys")
      (field (lit "data") (obj (field (lit "pin") (str (lit "1234")) end)) end)

abbrev gadget : KubeObject
gadget = object_of (lit "Gadget") (lit "g") end

abbrev uploaded : List KubeObject
uploaded = web_pod ∷ keys_secret ∷ gadget ∷ []

abbrev options : UploadOptions
options = record { cluster_name = lit "c"; cluster_id = lit "c" }

graph_example :
    let g = (build_snapshot_from_kubernetes_objects plain schemas uploaded [] options).0 in
    Distinct (graph_node_ids g.nodes)
    × (Distinct (graph_edge_ids g.edges) × All (EndsIn (graph_node_ids g.nodes)) g.edges)
graph_example = build_snapshot_from_kubernetes_objects-IsGraph plain schemas uploaded [] options

-- A definition that serves the version v1 of the gadgets, and a gadget of that version.
abbrev gadget_version : Fields
gadget_version = field (lit "name") (str (lit "v1")) (field (lit "served") (bool true) end)

abbrev gadgets : KubeObject
gadgets = object_of (lit "CustomResourceDefinition") (lit "gadgets.x") (
    field (lit "spec")
      (obj (
        field (lit "group") (str (lit "x")) (
          field (lit "names") (obj (field (lit "kind") (str (lit "Gadget")) end))
            (field (lit "versions") (arr (cons (obj gadget_version) nil)) end))))
      end)

abbrev served_gadget : KubeObject
served_gadget = object_of (lit "Gadget") (lit "g") (field (lit "apiVersion") (str (lit "x/v1")) end)

served_gadget-IsDefinedBy : IsDefinedBy served_gadget gadgets
unfolding is_named kuviewer.Json.string_at kuviewer.Json.read_at kuviewer.Json.at text_eq lit
    kuviewer.Upload.Object.object_kind kuviewer.Upload.Object.object_name
    kuviewer.Upload.Object.api_version kuviewer.Upload.Object.text_at kuviewer.Base.split
    kuviewer.Upload.Object.field_at kuviewer.Json.as_array
served_gadget-IsDefinedBy = record {
  group = lit "x";
  version = lit "v1";
  defines_kind = refl;
  has_name = refl;
  of_group = refl;
  of_kind = refl;
  of_version = refl;
  full_group = refl;
  full_version = refl;
  served = (0, gadget_version, refl, refl, refl);
}

object_node_example :
    has (node_id (lit "c") (lit "default") (lit "CustomResource") (lit "Gadget:g")) (
      graph_node_ids
        (build_snapshot_from_kubernetes_objects plain schemas
          (served_gadget ∷ gadgets ∷ [])
          []
          options).0.nodes)
    ≡ true
unfolding is_named kuviewer.Json.string_at kuviewer.Json.at text_eq lit has
    kuviewer.Upload.Object.object_namespace kuviewer.Upload.Object.supported_upload_kinds
    kuviewer.Upload.Object.object_kind kuviewer.Upload.Object.object_name
object_node_example =
    build_snapshot_from_kubernetes_objects-has plain schemas (served_gadget ∷ gadgets ∷ []) []
      options 0 served_gadget (lit "CustomResource") (lit "Gadget:g") refl refl
      (inr (refl, refl, refl, 1, gadgets, refl, served_gadget-IsDefinedBy))

pod_node_is_built :
    has (node_id (lit "c") (lit "default") (lit "Pod") (lit "web")) (
      graph_node_ids
        (build_snapshot_from_kubernetes_objects plain schemas uploaded [] options).0.nodes)
    ≡ true
unfolding is_named kuviewer.Json.string_at kuviewer.Json.at text_eq lit has
    kuviewer.Upload.Object.object_namespace kuviewer.Upload.Object.supported_upload_kinds
    kuviewer.Upload.Object.object_kind kuviewer.Upload.Object.object_name
pod_node_is_built =
    build_snapshot_from_kubernetes_objects-has plain schemas uploaded [] options 0 web_pod
      (lit "Pod") (lit "web") refl refl (inl (refl, refl, refl))

warnings_example :
    let valid = filter is_named uploaded in
    (build_snapshot_from_kubernetes_objects plain schemas uploaded [] options).1
    ≡ []
      ++ map unsupported_message
          (filter (is_unsupported (custom_resource_definition_records valid)) valid)
warnings_example = build_snapshot_from_kubernetes_objects-warnings plain schemas uploaded [] options

node_id_example :
    node_id (lit "c") (lit "default") (lit "Pod") (lit "a:b") ≡ lit "c:default:Pod:a:b"
unfolding lit node_id
node_id_example = refl

node_id-injective_example :
    (lit "default" ≡ lit "default") × ((lit "Pod" ≡ lit "Pod") × (lit "a:b" ≡ lit "a:b"))
unfolding all lit has kuviewer.Topology.Types.resource_kinds text_eq
node_id-injective_example =
    node_id-injective (lit "c") (lit "default") (lit "default") (lit "Pod") (lit "Pod") (lit "a:b")
      (lit "a:b") (refl, refl) (refl, refl) refl refl refl

cluster_id_example : IsClusterId (normalize_cluster_id plain (lit " My Cluster! "))
cluster_id_example = normalize_cluster_id-IsClusterId plain (lit " My Cluster! ")

cluster_id-value : normalize_cluster_id plain (lit " My Cluster! ") ≡ lit "my-cluster"
unfolding lit normalize_cluster_id kuviewer.Upload.Collect.strip_dashes
    kuviewer.Upload.Collect.drop_dashes kuviewer.Upload.Collect.dash_runs kuviewer.Base.trim
    kuviewer.Upload.Names.is_lower_alnum
cluster_id-value = refl

-- Packages that open no archive and read every text as a Pod.
abbrev packages : Packages
packages = record {
  unzip = λ bytes. none;
  parse_json = λ s. inr (obj web_pod);
  load_all = λ s. inl (lit "bad");
}

abbrev manifest : Text → UploadFile
manifest name = record { name = name; bytes = []; content = [] }

abbrev no_files : Parsing
no_files = record { objects = []; files = []; warnings = [] }

abbrev files : List UploadFile
files = manifest (lit "a.yaml") ∷ manifest (lit "b.json") ∷ manifest (lit "c.txt") ∷ []

files_example : (add_files plain packages no_files files >>= λ (q : Parsing). some q.files) ≡ (
    if all (opens plain packages) files
    then some ([] ++ flat_map (manifest_names plain packages) files)
    else none)
files_example = add_files-manifests plain packages files no_files

-- A YAML file that cannot be parsed does not stop the upload.
files-value : all (opens plain packages) files ≡ true
unfolding all opens kuviewer.Upload.Values.ends_with kuviewer.Base.starts_with lit
files-value = refl

abbrev secret_node : TopologyNode
secret_node = record {
  id = lit "c:default:Secret:keys";
  cluster_id = lit "c";
  kind = lit "Secret";
  namespace = some (lit "default");
  name = lit "keys";
  status = lit "unknown";
  labels = [];
  annotations = none;
  uid = none;
  age = none;
  owners = none;
  summary =
      (lit "type", text (lit "Opaque"))
      ∷ (lit "keys", number (whole 1))
      ∷ (lit "values", text (lit "hidden"))
      ∷ [];
  x = whole 0;
  y = whole 0;
}

secret-value :
    get_elem? (build_snapshot_from_kubernetes_objects plain schemas uploaded [] options).0.nodes 3
    ≡ some secret_node
unfolding kuviewer.Upload.Object.field_at kuviewer.Upload.Object.text_at
    kuviewer.Upload.Object.object_kind kuviewer.Upload.Object.api_version
    kuviewer.Upload.Object.object_name kuviewer.Upload.Object.object_namespace
    kuviewer.Upload.Object.is_named kuviewer.Upload.Object.labels
    kuviewer.Upload.Object.owner_references kuviewer.Upload.Object.unique_strings
    kuviewer.Upload.Object.supported_upload_kinds
    kuviewer.Upload.Object.normalize_upload_resource_kind kuviewer.Upload.Graph.node_id
    kuviewer.Upload.Graph.add_node kuviewer.Upload.Graph.ensure_reference_node
    kuviewer.Upload.Graph.edge_id kuviewer.Upload.Graph.add_edge kuviewer.Upload.Graph.for_each
    kuviewer.Upload.Graph.Definitions.crd_served_versions
    kuviewer.Upload.Graph.Definitions.crd_storage_version
    kuviewer.Upload.Graph.Definitions.crd_established
    kuviewer.Upload.Graph.Definitions.custom_resource_definition_records
    kuviewer.Upload.Graph.Definitions.api_version_parts
    kuviewer.Upload.Graph.Definitions.custom_resource_definition_for_object
    kuviewer.Upload.Graph.Definitions.normalize_object_kind
    kuviewer.Upload.Graph.Definitions.object_name_for_kind
    kuviewer.Upload.Graph.Schemas.is_upload_workload_kind
    kuviewer.Upload.Graph.Schemas.is_upload_storage_kind
    kuviewer.Upload.Graph.Schemas.is_gateway_route_kind kuviewer.Upload.Graph.Edges.refer_to
    kuviewer.Upload.Graph.Edges.refer_to_named kuviewer.Upload.Graph.Edges.containers_of
    kuviewer.Upload.Graph.Edges.add_pod_edges
    kuviewer.Upload.Graph.Edges.add_custom_resource_reference_edges
    kuviewer.Upload.Graph.Edges.kind_edges kuviewer.Upload.Graph.Edges.owns_edges
    kuviewer.Upload.Graph.Edges.add_object_edges kuviewer.Upload.Graph.Policies.labels_match
    kuviewer.Upload.Graph.Policies.add_service_selector_edges
    kuviewer.Upload.Graph.Policies.network_policy_types
    kuviewer.Upload.Graph.Policies.add_network_policy_peer_edges
    kuviewer.Upload.Graph.Policies.add_network_policy_edges
    kuviewer.Upload.Graph.Policies.namespace_records kuviewer.Upload.Graph.Summaries.container_names
    kuviewer.Upload.Graph.Summaries.field_count
    kuviewer.Upload.Graph.Summaries.custom_resource_conditions
    kuviewer.Upload.Graph.Summaries.custom_resource_condition_summary
    kuviewer.Upload.Graph.Summaries.custom_resource_status
    kuviewer.Upload.Graph.Summaries.limit_summary kuviewer.Upload.Graph.Summaries.peer_summaries
    kuviewer.Upload.Graph.Summaries.rule_port_summaries
    kuviewer.Upload.Graph.Summaries.network_policy_direction_summary
    kuviewer.Upload.Graph.Summaries.network_policy_summary
    kuviewer.Upload.Graph.Summaries.secret_object_summary
    kuviewer.Upload.Graph.Summaries.crd_summary
    kuviewer.Upload.Graph.Summaries.custom_resource_summary
    kuviewer.Upload.Graph.Summaries.object_summary kuviewer.Upload.Graph.Summaries.object_status
    kuviewer.Upload.Graph.Build.namespaces_of kuviewer.Upload.Graph.Build.uploaded_cluster_summary
    kuviewer.Upload.Graph.Build.add_object_node kuviewer.Upload.Graph.Build.build_nodes
    kuviewer.Upload.Graph.Build.build_graph
    kuviewer.Upload.Graph.Build.build_snapshot_from_kubernetes_objects kuviewer.Json.read_at
    kuviewer.Json.string_at kuviewer.Json.at kuviewer.Json.as_array kuviewer.Json.as_string_array
    kuviewer.Base.filter kuviewer.Base.find kuviewer.Base.any kuviewer.Base.all kuviewer.Base.has
    kuviewer.Base.text_eq kuviewer.Base.lit kuviewer.Base.flat_map kuviewer.Base.split
    kuviewer.Base.Dict.lookup kuviewer.Base.Dict.insert kuviewer.Base.Dict.insert_all
    kuviewer.Base.Sets.add kuviewer.Base.Sort.sort_by kuviewer.Base.Sort.insert_by
    kuviewer.Base.Sort.text_compare
secret-value = refl

shown_secret_example : IsSecretShown secret_node.summary
shown_secret_example =
    build_snapshot_from_kubernetes_objects-IsSecretShown plain schemas uploaded [] options 3
      secret_node secret-value refl

-- A Pod, an edge that comes too early, its Node, the edge again, and the Pod once more.
abbrev calls : List Call
calls =
    call_node (lit "Pod") (lit "default") (lit "web") (lit "healthy") [] []
    ∷ call_edge (lit "runs-on") (lit "c:default:Pod:web") (lit "c:Node:n") (lit "f")
        (lit "observed")
    ∷ call_node (lit "Node") [] (lit "n") (lit "healthy") [] []
    ∷ call_edge (lit "runs-on") (lit "c:default:Pod:web") (lit "c:Node:n") (lit "f")
        (lit "observed")
    ∷ call_node (lit "Pod") (lit "default") (lit "web") (lit "warning") [] []
    ∷ []

calls_example :
    let c = for_each perform (empty_context (lit "c") []) calls in
    (c.nodes ≡ firsts node_key (asked_nodes (lit "c") calls))
    × (c.edges ≡ firsts edge_key (asked_edges (lit "c") [] calls))
calls_example = perform-firsts (lit "c") [] calls

calls-value :
    let c = for_each perform (empty_context (lit "c") []) calls in
    (length c.nodes ≡ 2) × (length c.edges ≡ 1)
unfolding for_each add_node add_edge node_id edge_id kuviewer.Base.Sets.add has text_eq lit
calls-value = (refl, refl)
