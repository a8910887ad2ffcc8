-- ===== src/Upload/Graph/Summaries.antt =====
-- What a node shows of its object: `objectSummary` and `objectStatus` of parseKubernetesFiles.ts.
use kuviewer.Base.{
  ℕ, ◌-◌, Bool, Option, none, some, List, [], ◌∷◌, ◌++◌, map, leb, ◌==◌, if◌then◌else◌, Text, lit,
  truthy, or_text, text_eq, has, join, take, length, filter, flat_map, any,
}
use kuviewer.Base.Decimal.{decimal}
use kuviewer.Base.Dict.{Dict, insert, insert_all}
use kuviewer.Base.Number.{Number, whole}
use kuviewer.Base.Sort.{text_compare, sort_by}
use kuviewer.Json.{Value, str, num, obj, Fields, entries, at, is_record, as_array, string_at}
use kuviewer.Platform.{Platform}
use kuviewer.Topology.Types.{SummaryValue, text, number, texts}
use kuviewer.Upload.Graph.Definitions.{
  Definition, crd_served_versions, crd_storage_version, crd_established, api_version_parts,
  first_or_blank,
}
use kuviewer.Upload.Graph.Policies.{network_policy_types}
use kuviewer.Upload.Graph.Schemas.{
  Schemas, is_upload_workload_kind, is_upload_storage_kind, is_gateway_route_kind,
}
use kuviewer.Upload.LabelSelector.Summary.{selector_key_summary, label_selector_summary}
use kuviewer.Upload.Object.{
  KubeObject, field_at, text_at, object_kind, object_name, api_version, unique_strings,
}

unfoldable pub container_names : Value → List Text
container_names value =
    sort_by text_compare
      (filter truthy (map (λ fs. string_at (obj fs) (lit "name" ∷ [])) (as_array value)))

unfoldable pub field_count : Value → Number
field_count (obj fs) = whole (length (entries fs))
field_count _ = whole 0

pub record Condition : Type 0 where
  pub type : Text
  pub status : Text

abbrev pub condition_of : Fields → Condition
condition_of fs = record {
  type = string_at (obj fs) (lit "type" ∷ []);
  status = string_at (obj fs) (lit "status" ∷ []);
}

unfoldable pub custom_resource_conditions : KubeObject → List Condition
custom_resource_conditions o =
    filter (λ (d : Condition). truthy d.type)
      (map condition_of (as_array (field_at o (lit "status" ∷ lit "conditions" ∷ []))))

unfoldable pub custom_resource_condition_summary : KubeObject → Text
custom_resource_condition_summary o = join (lit ", ") (
    sort_by text_compare (
      map (λ (d : Condition). d.type ++ (b'=' ∷ or_text d.status (lit "-")))
        (custom_resource_conditions o)))

abbrev pub is_readiness : Condition → Bool
is_readiness d = has d.type (lit "Ready" ∷ lit "Synced" ∷ lit "Reconciled" ∷ [])

unfoldable pub custom_resource_status : KubeObject → Text
custom_resource_status o =
    let readiness = filter is_readiness (custom_resource_conditions o) in
    if any (λ (d : Condition). text_eq d.status (lit "True")) readiness
    then lit "healthy"
    else if any (λ (d : Condition). text_eq d.status (lit "False")) readiness
    then lit "warning"
    else lit "unknown"

unfoldable pub limit_summary : List Text → ℕ → Text
limit_summary values limit =
    if leb (length values) limit
    then join (lit ", ") values
    else join (lit ", ") (take limit values) ++ (lit " +" ++ decimal (length values - limit))

abbrev pub peer_parts : Fields → List Text
peer_parts peer =
    let namespaces = at peer (lit "namespaceSelector") in
    let pods = at peer (lit "podSelector") in
    let block = at peer (lit "ipBlock") in
    (if is_record namespaces
      then (lit "ns:" ++ label_selector_summary namespaces (lit "all namespaces")) ∷ []
      else [])
    ++ ((if is_record pods
          then (lit "pod:" ++ label_selector_summary pods (lit "all pods")) ∷ []
          else [])
        ++ (if is_record block
            then (lit "ip:" ++ or_text (string_at block (lit "cidr" ∷ [])) (lit "cidr")) ∷ []
            else []))

unfoldable pub peer_summaries : List Fields → List Text
peer_summaries [] = lit "all peers" ∷ []
peer_summaries (p ∷ ps) =
    map (λ peer. or_text (join (lit "+") (peer_parts peer)) (lit "all peers")) (p ∷ ps)

module _ (js : Platform) where
  -- `String(value)` of a port, and the end of a range.
  abbrev pub port_text : Value → Text
  port_text (str s) = s
  port_text (num n) = js.text_of (number n)
  port_text _ = lit "*"

  abbrev pub port_suffix : Value → Text
  port_suffix (num n) = b'-' ∷ js.text_of (number n)
  port_suffix _ = []

  abbrev pub port_summary : Fields → Text
  port_summary port =
      or_text (string_at (obj port) (lit "protocol" ∷ [])) (lit "TCP")
      ++ (b':' ∷ (port_text (at port (lit "port")) ++ port_suffix (at port (lit "endPort"))))

  unfoldable pub rule_port_summaries : List Fields → List Text
  rule_port_summaries rules =
      flat_map (λ rule. map port_summary (as_array (at rule (lit "ports")))) rules

  -- `networkPolicyDirectionSummary` where the direction is isolated.
  abbrev pub rules_summary : List Fields → Text → Text
  rules_summary [] peer_key = lit "deny all"
  rules_summary (r ∷ rs) peer_key =
      let n = length (r ∷ rs) in
      let peers =
        unique_strings (flat_map (λ rule. peer_summaries (as_array (at rule peer_key))) (r ∷ rs)) in
      let ports = unique_strings (rule_port_summaries (r ∷ rs)) in
      decimal n
      ++ ((if n == 1 then lit " rule: " else lit " rules: ")
          ++ (or_text (limit_summary peers 3) (lit "all peers")
              ++ (lit "; " ++ or_text (limit_summary ports 3) (lit "all ports"))))

  unfoldable pub network_policy_direction_summary : Bool → List Fields → Text → Text
  network_policy_direction_summary isolated rules peer_key =
      if isolated then rules_summary rules peer_key else lit "not isolated"

  unfoldable pub network_policy_summary : KubeObject → Dict SummaryValue
  network_policy_summary o =
      let types = network_policy_types o in
      let ingress = as_array (field_at o (lit "spec" ∷ lit "ingress" ∷ [])) in
      let egress = as_array (field_at o (lit "spec" ∷ lit "egress" ∷ [])) in
      let ports = unique_strings (rule_port_summaries ingress ++ rule_port_summaries egress) in
      (lit "policyTypes", text (join (lit ",") types))
      ∷ (
        lit "selector",
        text (
            label_selector_summary (field_at o (lit "spec" ∷ lit "podSelector" ∷ []))
              (lit "all pods")),
      )
      ∷ (
        lit "ingress",
        text (network_policy_direction_summary (has (lit "Ingress") types) ingress (lit "from")),
      )
      ∷ (
        lit "egress",
        text (network_policy_direction_summary (has (lit "Egress") types) egress (lit "to")),
      )
      ∷ (lit "ports", text (or_text (limit_summary ports 4) (lit "-")))
      ∷ []

-- The entries of a Secret's summary: its type and the number of its keys, no value.
unfoldable pub secret_object_summary : KubeObject → Dict SummaryValue
unfolding field_count
secret_object_summary o =
    (lit "type", text (or_text (text_at o (lit "type" ∷ [])) (lit "Opaque")))
    ∷ (lit "keys", number (field_count (field_at o (lit "data" ∷ []))))
    ∷ (lit "values", text (lit "hidden"))
    ∷ []

-- A text at a path, or a dash.
abbrev pub text_or_dash : KubeObject → List Text → SummaryValue
text_or_dash o path = text (or_text (text_at o path) (lit "-"))

unfoldable pub crd_summary : KubeObject → Dict SummaryValue
crd_summary o =
    (lit "group", text_or_dash o (lit "spec" ∷ lit "group" ∷ []))
    ∷ (lit "kind", text_or_dash o (lit "spec" ∷ lit "names" ∷ lit "kind" ∷ []))
    ∷ (lit "plural", text_or_dash o (lit "spec" ∷ lit "names" ∷ lit "plural" ∷ []))
    ∷ (lit "scope", text_or_dash o (lit "spec" ∷ lit "scope" ∷ []))
    ∷ (lit "servedVersions", text (or_text (join (lit ",") (crd_served_versions o)) (lit "-")))
    ∷ (lit "storageVersion", text (or_text (crd_storage_version o) (lit "-")))
    ∷ []

-- A text of the definition, blank where there is none.
abbrev pub of_definition : (Definition → Text) → Option Definition → Text
of_definition f none = []
of_definition f (some d) = f d

abbrev pub default_api_version : Option Definition → Text
default_api_version none = lit "-"
default_api_version (some d) = d.group ++ (b'/' ∷ or_text (first_or_blank d.versions) (lit "-"))

unfoldable pub custom_resource_summary : KubeObject → Option Definition → Dict SummaryValue
custom_resource_summary o definition =
    let version = or_text (api_version o) (default_api_version definition) in
    let parts = api_version_parts version in
    let of = λ (f : Definition → Text). of_definition f definition in
    (lit "apiVersion", text version)
    ∷ (lit "kind", text (or_text (object_kind o) (or_text (of (λ d. d.kind)) (lit "-"))))
    ∷ (lit "name", text (or_text (object_name o) (lit "-")))
    ∷ (lit "crd", text (or_text (of (λ d. d.name)) (lit "-")))
    ∷ (lit "group", text (or_text (of (λ d. d.group)) (or_text (parts.0) (lit "-"))))
    ∷ (lit "scope", text (or_text (of (λ d. d.scope)) (lit "-")))
    ∷ (
      lit "version",
      text (or_text (parts.1) (or_text (of (λ d. first_or_blank d.versions)) (lit "-"))),
    )
    ∷ (lit "specFields", number (field_count (field_at o (lit "spec" ∷ []))))
    ∷ (lit "statusFields", number (field_count (field_at o (lit "status" ∷ []))))
    ∷ (lit "conditions", text (or_text (custom_resource_condition_summary o) (lit "-")))
    ∷ []

module _ (js : Platform) (s : Schemas) where
  abbrev pub pod_summary : KubeObject → Dict SummaryValue
  pod_summary o =
      let containers = container_names (field_at o (lit "spec" ∷ lit "containers" ∷ [])) in
      let init_containers = container_names (field_at o (lit "spec" ∷ lit "initContainers" ∷ [])) in
      insert_all (s.pod_runtime_summary o) (
        (lit "node", text_or_dash o (lit "spec" ∷ lit "nodeName" ∷ []))
        ∷ (lit "containers", number (whole (length containers)))
        ∷ (lit "containerNames", texts containers)
        ∷ (lit "initContainers", texts init_containers)
        ∷ [])

  abbrev pub workload_object_summary : Text → KubeObject → Dict SummaryValue
  workload_object_summary kind o =
      let summary = s.workload_summary kind o in
      let selector = field_at o (lit "spec" ∷ lit "selector" ∷ lit "matchLabels" ∷ []) in
      if has kind (lit "Deployment" ∷ lit "ReplicaSet" ∷ lit "StatefulSet" ∷ [])
      then insert (lit "selector") (text (selector_key_summary selector)) summary
      else summary

  unfoldable pub object_summary : Text → KubeObject → Option Definition → Dict SummaryValue
  unfolding secret_object_summary
  object_summary kind o definition =
      if text_eq kind (lit "Secret")
      then secret_object_summary o
      else if text_eq kind (lit "ConfigMap")
      then s.config_map_summary o
      else if is_upload_workload_kind kind
      then workload_object_summary kind o
      else if text_eq kind (lit "HorizontalPodAutoscaler")
      then s.hpa_summary o
      else if text_eq kind (lit "NetworkPolicy")
      then network_policy_summary js o
      else if text_eq kind (lit "Node")
      then s.node_summary o
      else if text_eq kind (lit "Pod")
      then pod_summary o
      else if text_eq kind (lit "Service")
      then s.service_summary o
      else if text_eq kind (lit "Ingress")
      then s.ingress_summary o
      else if text_eq kind (lit "Gateway")
      then s.gateway_summary o
      else if is_gateway_route_kind kind
      then s.gateway_route_summary kind o
      else if is_upload_storage_kind kind
      then s.storage_summary kind o
      else if text_eq kind (lit "CustomResourceDefinition")
      then crd_summary o
      else if text_eq kind (lit "CustomResource")
      then custom_resource_summary o definition
      else (lit "source", text (lit "uploaded")) ∷ []

  unfoldable pub object_status : Text → KubeObject → Text
  object_status kind o =
      if text_eq kind (lit "Secret")
      then lit "unknown"
      else if text_eq kind (lit "ConfigMap")
      then s.config_map_status o
      else if text_eq kind (lit "CustomResourceDefinition")
      then (if crd_established o then lit "healthy" else lit "unknown")
      else if text_eq kind (lit "CustomResource")
      then custom_resource_status o
      else if text_eq kind (lit "Pod")
      then s.pod_runtime_status o
      else if text_eq kind (lit "Node")
      then s.node_status o
      else if text_eq kind (lit "Service")
      then (if s.service_spec_is_valid o then lit "healthy" else lit "warning")
      else if text_eq kind (lit "Ingress")
      then s.ingress_status o
      else if text_eq kind (lit "Gateway")
      then s.gateway_status o
      else if is_gateway_route_kind kind
      then s.gateway_route_status kind o
      else if is_upload_workload_kind kind
      then s.workload_status kind o
      else if text_eq kind (lit "HorizontalPodAutoscaler")
      then s.hpa_status o
      else if is_upload_storage_kind kind
      then s.storage_status kind o
      else lit "healthy"
