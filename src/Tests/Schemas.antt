-- ===== src/Tests/Schemas.antt =====
-- Objects of single kinds, as the schemas read them.
use kuviewer.Base.{
  ℕ, ◌+◌, ◌≤◌, ◌≡◌, refl, Bool, true, false, Option, none, some, List, [], ◌∷◌, ◌++◌, Text, lit,
  has, length, min, All, any, all,
}
use kuviewer.Base.Dict.{Dict}
use kuviewer.Base.Number.{whole}
use kuviewer.Base.Sets.{Distinct}
use kuviewer.Json.{Value, bool, str, num, arr, obj, Fields, field, end, Items, nil, cons}
use kuviewer.Tests.Data.{plain}
use kuviewer.Upload.Graph.Definitions.{Definition}
use kuviewer.Upload.Object.{KubeObject, is_named, field_at}
use kuviewer.Upload.Schemas.ConfigMap.{
  ConfigMapAnalysis, analyze_config_map, analyze_config_map-Distinct, max_config_map_entries,
}
use kuviewer.Upload.Schemas.CustomReferences.{infer_custom_resource_references}
use kuviewer.Upload.Schemas.CustomReferences.Bounds.{IsReference}
use kuviewer.Upload.Schemas.CustomReferences.Inferred.{infer_custom_resource_references-IsBounded}
use kuviewer.Upload.Schemas.Hpa.{ParsedSpec}
use kuviewer.Upload.Schemas.Hpa.Bounds.{IsSpec, parse_spec-IsSpec}
use kuviewer.Upload.Schemas.Hpa.Parse.{parse_spec}
use kuviewer.Upload.Schemas.PodRuntime.{
  RuntimeStatus, PodRuntime, analyze_pod_runtime, status_names, bounded_restart_total,
}
use kuviewer.Upload.Schemas.PodRuntime.Bounds.{
  restart_sum, bounded_restart_total-sum, analyze_pod_runtime-Distinct,
}
use kuviewer.Upload.Schemas.Storage.{parse_resource_list}
use kuviewer.Upload.Schemas.Workload.{ParsedTemplate, parse_template}
use kuviewer.Upload.Schemas.Workload.Distinct.{IsTemplate, parse_template-IsTemplate}
use kuviewer.Upload.Values.{max_count}

abbrev says : Text → Text → Fields → Fields
says key value rest = field key (str value) rest

-- An object with one field.
abbrev only : Text → Value → Value
only key v = obj (field key v end)

abbrev one : Value → Value
one v = arr (cons v nil)

abbrev scaler : KubeObject
scaler =
    field (lit "spec")
      (obj (
        field (lit "scaleTargetRef")
          (obj (
            says (lit "apiVersion") (lit "apps/v1")
              (says (lit "kind") (lit "Deployment") (says (lit "name") (lit "web") end))))
          (field (lit "maxReplicas") (num (whole 5)) end)))
      end

abbrev scaler_spec : ParsedSpec
scaler_spec = record {
  target = record { api_version = lit "apps/v1"; kind = lit "Deployment"; name = lit "web" };
  minimum = 1;
  maximum = 5;
  metrics = [];
}

scaler-parsed : parse_spec plain scaler ≡ some scaler_spec
unfolding kuviewer.Upload.Schemas.Hpa.metric_types kuviewer.Upload.Schemas.Hpa.quantity_form
    kuviewer.Upload.Schemas.Hpa.quantity_state kuviewer.Upload.Schemas.Hpa.safe_count
    kuviewer.Upload.Schemas.Hpa.positive_bounded kuviewer.Upload.Schemas.Hpa.positive_count
    kuviewer.Upload.Schemas.Hpa.valid_metric_name
    kuviewer.Upload.Schemas.Hpa.valid_metric_identifier kuviewer.Upload.Schemas.Hpa.valid_kind
    kuviewer.Upload.Schemas.Hpa.metric_field kuviewer.Upload.Schemas.Hpa.valid_api_version
    kuviewer.Upload.Schemas.Hpa.parse_scale_target
    kuviewer.Upload.Schemas.Hpa.valid_metric_source_identity
    kuviewer.Upload.Schemas.Hpa.utilization_state kuviewer.Upload.Schemas.Hpa.parse_target
    kuviewer.Upload.Schemas.Hpa.parse_current kuviewer.Upload.Schemas.Hpa.Parse.parse_metric
    kuviewer.Upload.Schemas.Hpa.Parse.metric_array kuviewer.Upload.Schemas.Hpa.Parse.conditions_from
    kuviewer.Upload.Schemas.Hpa.Parse.condition_array kuviewer.Upload.Schemas.Hpa.Parse.count_all
    kuviewer.Upload.Schemas.Hpa.Parse.count_summary kuviewer.Upload.Schemas.Hpa.Parse.parse_spec
    kuviewer.Upload.Schemas.Hpa.Parse.parse_status
    kuviewer.Upload.Schemas.Hpa.Parse.upload_hpa_status
    kuviewer.Upload.Schemas.Hpa.Parse.upload_hpa_summary
    kuviewer.Upload.Schemas.Hpa.Parse.upload_hpa_spec_is_valid
    kuviewer.Upload.Schemas.Hpa.Parse.upload_hpa_scale_target kuviewer.Upload.Object.field_at
    kuviewer.Upload.Object.text_at kuviewer.Upload.Object.object_kind
    kuviewer.Upload.Object.api_version kuviewer.Upload.Object.object_name
    kuviewer.Upload.Object.object_namespace kuviewer.Upload.Object.is_named
    kuviewer.Upload.Object.labels kuviewer.Upload.Object.owner_references
    kuviewer.Upload.Object.unique_strings kuviewer.Upload.Object.supported_upload_kinds
    kuviewer.Upload.Object.normalize_upload_resource_kind kuviewer.Upload.Values.bounded_count
    kuviewer.Upload.Values.valid_dns_label kuviewer.Upload.Values.valid_dns_subdomain
    kuviewer.Upload.Values.drop_digits kuviewer.Upload.Values.exponent_form
    kuviewer.Upload.Values.ends_with kuviewer.Upload.Names.is_alnum
    kuviewer.Upload.Names.is_lower_alnum kuviewer.Upload.Names.is_label_char
    kuviewer.Upload.Names.is_dns_char kuviewer.Upload.Names.ends_well
    kuviewer.Upload.Names.bracketed kuviewer.Upload.Names.headed
    kuviewer.Upload.Schemas.Images.runs_form kuviewer.Upload.Schemas.Images.digest_form
    kuviewer.Upload.Schemas.Images.image_name
    kuviewer.Upload.Schemas.Images.valid_upload_container_image
    kuviewer.Upload.Schemas.Images.record_array kuviewer.Json.read_at kuviewer.Json.string_at
    kuviewer.Json.at kuviewer.Json.as_array kuviewer.Base.filter kuviewer.Base.find
    kuviewer.Base.any kuviewer.Base.all kuviewer.Base.has kuviewer.Base.text_eq kuviewer.Base.lit
    kuviewer.Base.flat_map kuviewer.Base.split kuviewer.Base.join kuviewer.Base.traverse
    kuviewer.Base.trim kuviewer.Base.drop_space kuviewer.Base.is_space kuviewer.Base.includes
    kuviewer.Base.starts_with kuviewer.Base.Dict.lookup kuviewer.Base.Dict.insert
    kuviewer.Base.Dict.insert_all kuviewer.Base.Sets.add kuviewer.Base.Sets.add_all
    kuviewer.Base.Sort.sort_by kuviewer.Base.Sort.insert_by kuviewer.Base.Sort.text_compare
    kuviewer.Base.Decimal.decimal
scaler-parsed = refl

scaler_example : IsSpec plain scaler_spec
scaler_example = parse_spec-IsSpec plain scaler scaler_spec scaler-parsed

abbrev settings : KubeObject
settings = field (lit "data") (obj (says (lit "a") (lit "1") (says (lit "b") (lit "2") end))) end

abbrev settings_analysis : ConfigMapAnalysis
settings_analysis = record {
  data_keys = lit "a" ∷ lit "b" ∷ [];
  binary_keys = [];
  immutable = none;
}

settings-analyzed : analyze_config_map settings ≡ some settings_analysis
unfolding kuviewer.Upload.Schemas.ConfigMap.valid_config_map_key
    kuviewer.Upload.Schemas.ConfigMap.keys_from kuviewer.Upload.Schemas.ConfigMap.parse_key_field
    kuviewer.Upload.Schemas.ConfigMap.immutable_value kuviewer.Upload.Schemas.ConfigMap.sets_overlap
    kuviewer.Upload.Schemas.ConfigMap.analyze_config_map
    kuviewer.Upload.Schemas.ConfigMap.upload_config_map_status
    kuviewer.Upload.Schemas.ConfigMap.upload_config_map_summary kuviewer.Upload.Object.field_at
    kuviewer.Upload.Object.text_at kuviewer.Upload.Object.object_kind
    kuviewer.Upload.Object.api_version kuviewer.Upload.Object.object_name
    kuviewer.Upload.Object.object_namespace kuviewer.Upload.Object.is_named
    kuviewer.Upload.Object.labels kuviewer.Upload.Object.owner_references
    kuviewer.Upload.Object.unique_strings kuviewer.Upload.Object.supported_upload_kinds
    kuviewer.Upload.Object.normalize_upload_resource_kind kuviewer.Upload.Values.bounded_count
    kuviewer.Upload.Values.valid_dns_label kuviewer.Upload.Values.valid_dns_subdomain
    kuviewer.Upload.Values.drop_digits kuviewer.Upload.Values.exponent_form
    kuviewer.Upload.Values.ends_with kuviewer.Upload.Names.is_alnum
    kuviewer.Upload.Names.is_lower_alnum kuviewer.Upload.Names.is_label_char
    kuviewer.Upload.Names.is_dns_char kuviewer.Upload.Names.ends_well
    kuviewer.Upload.Names.bracketed kuviewer.Upload.Names.headed
    kuviewer.Upload.Schemas.Images.runs_form kuviewer.Upload.Schemas.Images.digest_form
    kuviewer.Upload.Schemas.Images.image_name
    kuviewer.Upload.Schemas.Images.valid_upload_container_image
    kuviewer.Upload.Schemas.Images.record_array kuviewer.Json.read_at kuviewer.Json.string_at
    kuviewer.Json.at kuviewer.Json.as_array kuviewer.Base.filter kuviewer.Base.find
    kuviewer.Base.any kuviewer.Base.all kuviewer.Base.has kuviewer.Base.text_eq kuviewer.Base.lit
    kuviewer.Base.flat_map kuviewer.Base.split kuviewer.Base.join kuviewer.Base.traverse
    kuviewer.Base.trim kuviewer.Base.drop_space kuviewer.Base.is_space kuviewer.Base.includes
    kuviewer.Base.starts_with kuviewer.Base.Dict.lookup kuviewer.Base.Dict.insert
    kuviewer.Base.Dict.insert_all kuviewer.Base.Sets.add kuviewer.Base.Sets.add_all
    kuviewer.Base.Sort.sort_by kuviewer.Base.Sort.insert_by kuviewer.Base.Sort.text_compare
    kuviewer.Base.Decimal.decimal
settings-analyzed = refl

settings_example :
    Distinct (settings_analysis.data_keys ++ settings_analysis.binary_keys)
    × (length settings_analysis.data_keys + length settings_analysis.binary_keys
        ≤ max_config_map_entries)
settings_example = analyze_config_map-Distinct settings settings_analysis settings-analyzed

-- A cluster has the pools, and a widget names one, in a namespace all the same.
abbrev widgets : Definition
widgets = record {
  name = lit "widgets.x";
  group = lit "x";
  kind = lit "Widget";
  versions = lit "v1" ∷ [];
  scope = lit "Namespaced";
}

abbrev pools : Definition
pools = record {
  name = lit "pools.x";
  group = lit "x";
  kind = lit "Pool";
  versions = lit "v1" ∷ [];
  scope = lit "Cluster";
}

abbrev widget_spec : Value
widget_spec = only (lit "poolRef") (
    obj (
      says (lit "apiVersion") (lit "x/v1") (
        says (lit "kind") (lit "Pool")
          (says (lit "name") (lit "a") (says (lit "namespace") (lit "b") end)))))

references_example :
    let rs =
      infer_custom_resource_references plain
        (lit "default")
        widgets
        (widgets ∷ pools ∷ [])
        widget_spec in
    (length rs ≤ 80) × All (IsReference (widgets ∷ pools ∷ [])) rs
references_example =
    infer_custom_resource_references-IsBounded plain (lit "default") widgets (widgets ∷ pools ∷ [])
      widget_spec

abbrev running : Text → ℕ → RuntimeStatus
running name restarts = record {
  name = name;
  ready = true;
  restarts = restarts;
  state = lit "running";
  reasons = [];
  image = [];
}

abbrev busy : List RuntimeStatus
busy = running (lit "a") 999999999 ∷ running (lit "b") 7 ∷ []

restarts_example : bounded_restart_total 0 busy ≡ min max_count (restart_sum busy)
restarts_example = bounded_restart_total-sum busy

abbrev status_fields : Value
status_fields = obj (
    says (lit "name") (lit "web") (
      field (lit "ready") (bool true) (
        field (lit "restartCount") (num (whole 2))
          (field (lit "state") (only (lit "running") (obj end)) end))))

abbrev running_pod : KubeObject
running_pod =
    field (lit "status")
      (obj (
        says (lit "phase") (lit "Running")
          (field (lit "containerStatuses") (one status_fields) end)))
      end

abbrev running_pod_runtime : PodRuntime
running_pod_runtime = record {
  phase = lit "Running";
  statuses = running (lit "web") 2 ∷ [];
  all_statuses = running (lit "web") 2 ∷ [];
}

running_pod-analyzed : analyze_pod_runtime running_pod ≡ some running_pod_runtime
unfolding kuviewer.Upload.Schemas.PodRuntime.valid_pod_phase
    kuviewer.Upload.Schemas.PodRuntime.valid_runtime_reason
    kuviewer.Upload.Schemas.PodRuntime.parse_container_state
    kuviewer.Upload.Schemas.PodRuntime.parse_runtime_status
    kuviewer.Upload.Schemas.PodRuntime.runtime_statuses_from
    kuviewer.Upload.Schemas.PodRuntime.parse_runtime_statuses
    kuviewer.Upload.Schemas.PodRuntime.analyze_pod_runtime
    kuviewer.Upload.Schemas.PodRuntime.bounded_restart_total
    kuviewer.Upload.Schemas.PodRuntime.upload_pod_runtime_status
    kuviewer.Upload.Schemas.PodRuntime.upload_pod_runtime_summary
    kuviewer.Upload.Schemas.PodRuntime.upload_pod_runtime_is_valid kuviewer.Upload.Object.field_at
    kuviewer.Upload.Object.text_at kuviewer.Upload.Object.object_kind
    kuviewer.Upload.Object.api_version kuviewer.Upload.Object.object_name
    kuviewer.Upload.Object.object_namespace kuviewer.Upload.Object.is_named
    kuviewer.Upload.Object.labels kuviewer.Upload.Object.owner_references
    kuviewer.Upload.Object.unique_strings kuviewer.Upload.Object.supported_upload_kinds
    kuviewer.Upload.Object.normalize_upload_resource_kind kuviewer.Upload.Values.bounded_count
    kuviewer.Upload.Values.valid_dns_label kuviewer.Upload.Values.valid_dns_subdomain
    kuviewer.Upload.Values.drop_digits kuviewer.Upload.Values.exponent_form
    kuviewer.Upload.Values.ends_with kuviewer.Upload.Names.is_alnum
    kuviewer.Upload.Names.is_lower_alnum kuviewer.Upload.Names.is_label_char
    kuviewer.Upload.Names.is_dns_char kuviewer.Upload.Names.ends_well
    kuviewer.Upload.Names.bracketed kuviewer.Upload.Names.headed
    kuviewer.Upload.Schemas.Images.runs_form kuviewer.Upload.Schemas.Images.digest_form
    kuviewer.Upload.Schemas.Images.image_name
    kuviewer.Upload.Schemas.Images.valid_upload_container_image
    kuviewer.Upload.Schemas.Images.record_array kuviewer.Json.read_at kuviewer.Json.string_at
    kuviewer.Json.at kuviewer.Json.as_array kuviewer.Base.filter kuviewer.Base.find
    kuviewer.Base.any kuviewer.Base.all kuviewer.Base.has kuviewer.Base.text_eq kuviewer.Base.lit
    kuviewer.Base.flat_map kuviewer.Base.split kuviewer.Base.join kuviewer.Base.traverse
    kuviewer.Base.trim kuviewer.Base.drop_space kuviewer.Base.is_space kuviewer.Base.includes
    kuviewer.Base.starts_with kuviewer.Base.Dict.lookup kuviewer.Base.Dict.insert
    kuviewer.Base.Dict.insert_all kuviewer.Base.Sets.add kuviewer.Base.Sets.add_all
    kuviewer.Base.Sort.sort_by kuviewer.Base.Sort.insert_by kuviewer.Base.Sort.text_compare
    kuviewer.Base.Decimal.decimal
running_pod-analyzed = refl

running_pod_example : Distinct (status_names running_pod_runtime.all_statuses)
running_pod_example =
    analyze_pod_runtime-Distinct running_pod running_pod_runtime running_pod-analyzed

abbrev requests : Value
requests = only (lit "storage") (str (lit "10Gi"))

requests-parsed : parse_resource_list requests true ≡ some ((lit "storage", lit "10Gi") ∷ [])
unfolding kuviewer.Upload.Schemas.Storage.known_access_modes
    kuviewer.Upload.Schemas.Storage.quantity_pattern kuviewer.Upload.Schemas.Storage.valid_quantity
    kuviewer.Upload.Schemas.Storage.normalize_quantity
    kuviewer.Upload.Schemas.Storage.valid_label_key
    kuviewer.Upload.Schemas.Storage.valid_storage_name
    kuviewer.Upload.Schemas.Storage.parse_resource_list
    kuviewer.Upload.Schemas.Storage.parse_access_modes
    kuviewer.Upload.Schemas.Storage.optional_string
    kuviewer.Upload.Schemas.Storage.optional_reference kuviewer.Upload.Schemas.Storage.optional_enum
    kuviewer.Upload.Schemas.Storage.required_string kuviewer.Upload.Schemas.Storage.optional_boolean
    kuviewer.Upload.LabelSelector.valid_label_name kuviewer.Upload.LabelSelector.valid_dns_segment
    kuviewer.Upload.LabelSelector.valid_dns_prefix kuviewer.Upload.LabelSelector.valid_key_segments
    kuviewer.Upload.LabelSelector.valid_selector_key
    kuviewer.Upload.LabelSelector.valid_selector_value kuviewer.Upload.LabelSelector.selector_key
    kuviewer.Upload.LabelSelector.selector_value kuviewer.Upload.LabelSelector.selector_operator
    kuviewer.Upload.LabelSelector.parse_match_labels
    kuviewer.Upload.LabelSelector.parse_expression_values
    kuviewer.Upload.LabelSelector.parse_expression
    kuviewer.Upload.LabelSelector.parse_match_expressions
    kuviewer.Upload.LabelSelector.parse_label_selector
    kuviewer.Upload.LabelSelector.expression_matches kuviewer.Upload.LabelSelector.selector_holds
    kuviewer.Upload.LabelSelector.label_selector_matches
    kuviewer.Upload.LabelSelector.matching_network_policy_namespaces kuviewer.Upload.Object.field_at
    kuviewer.Upload.Object.text_at kuviewer.Upload.Object.object_kind
    kuviewer.Upload.Object.api_version kuviewer.Upload.Object.object_name
    kuviewer.Upload.Object.object_namespace kuviewer.Upload.Object.is_named
    kuviewer.Upload.Object.labels kuviewer.Upload.Object.owner_references
    kuviewer.Upload.Object.unique_strings kuviewer.Upload.Object.supported_upload_kinds
    kuviewer.Upload.Object.normalize_upload_resource_kind kuviewer.Upload.Values.bounded_count
    kuviewer.Upload.Values.valid_dns_label kuviewer.Upload.Values.valid_dns_subdomain
    kuviewer.Upload.Values.drop_digits kuviewer.Upload.Values.exponent_form
    kuviewer.Upload.Values.ends_with kuviewer.Upload.Names.is_alnum
    kuviewer.Upload.Names.is_lower_alnum kuviewer.Upload.Names.is_label_char
    kuviewer.Upload.Names.is_dns_char kuviewer.Upload.Names.ends_well
    kuviewer.Upload.Names.bracketed kuviewer.Upload.Names.headed
    kuviewer.Upload.Schemas.Images.runs_form kuviewer.Upload.Schemas.Images.digest_form
    kuviewer.Upload.Schemas.Images.image_name
    kuviewer.Upload.Schemas.Images.valid_upload_container_image
    kuviewer.Upload.Schemas.Images.record_array kuviewer.Json.read_at kuviewer.Json.string_at
    kuviewer.Json.at kuviewer.Json.as_array kuviewer.Base.filter kuviewer.Base.find
    kuviewer.Base.any kuviewer.Base.all kuviewer.Base.has kuviewer.Base.text_eq kuviewer.Base.lit
    kuviewer.Base.flat_map kuviewer.Base.split kuviewer.Base.join kuviewer.Base.traverse
    kuviewer.Base.trim kuviewer.Base.drop_space kuviewer.Base.is_space kuviewer.Base.includes
    kuviewer.Base.starts_with kuviewer.Base.Dict.lookup kuviewer.Base.Dict.insert
    kuviewer.Base.Dict.insert_all kuviewer.Base.Sets.add kuviewer.Base.Sets.add_all
    kuviewer.Base.Sort.sort_by kuviewer.Base.Sort.insert_by kuviewer.Base.Sort.text_compare
    kuviewer.Base.Decimal.decimal
requests-parsed = refl

abbrev web_container : Value
web_container = obj (says (lit "name") (lit "web") (says (lit "image") (lit "nginx") end))

abbrev web_deployment : KubeObject
web_deployment =
    field (lit "spec")
      (only (lit "template") (
        only (lit "spec") (
          obj (
            field (lit "containers") (one web_container)
              (says (lit "serviceAccountName") (lit "bot") end)))))
      end

abbrev web_template : ParsedTemplate
web_template = record {
  containers = 1;
  init_containers = 0;
  images = lit "nginx" ∷ [];
  references =
      record {
        kind = lit "ServiceAccount";
        name = lit "bot";
        edge_type = lit "uses-service-account";
        source_field = lit "Deployment.spec.template.spec.serviceAccountName";
      }
      ∷ [];
}

web_deployment-parsed : parse_template (lit "Deployment") web_deployment ≡ some web_template
unfolding kuviewer.Upload.Schemas.Workload.valid_workload_name
    kuviewer.Upload.Schemas.Workload.add_reference kuviewer.Upload.Schemas.Workload.add_candidates
    kuviewer.Upload.Schemas.Workload.each_object
    kuviewer.Upload.Schemas.Workload.workload_pod_spec_path
    kuviewer.Upload.Schemas.Workload.valid_local_env_sources
    kuviewer.Upload.Schemas.Workload.collect_container_references
    kuviewer.Upload.Schemas.Workload.add_container kuviewer.Upload.Schemas.Workload.add_containers
    kuviewer.Upload.Schemas.Workload.template_references
    kuviewer.Upload.Schemas.Workload.parse_pod_spec kuviewer.Upload.Schemas.Workload.parse_template
    kuviewer.Upload.Object.field_at kuviewer.Upload.Object.text_at
    kuviewer.Upload.Object.object_kind kuviewer.Upload.Object.api_version
    kuviewer.Upload.Object.object_name kuviewer.Upload.Object.object_namespace
    kuviewer.Upload.Object.is_named kuviewer.Upload.Object.labels
    kuviewer.Upload.Object.owner_references kuviewer.Upload.Object.unique_strings
    kuviewer.Upload.Object.supported_upload_kinds
    kuviewer.Upload.Object.normalize_upload_resource_kind kuviewer.Upload.Values.bounded_count
    kuviewer.Upload.Values.valid_dns_label kuviewer.Upload.Values.valid_dns_subdomain
    kuviewer.Upload.Values.drop_digits kuviewer.Upload.Values.exponent_form
    kuviewer.Upload.Values.ends_with kuviewer.Upload.Names.is_alnum
    kuviewer.Upload.Names.is_lower_alnum kuviewer.Upload.Names.is_label_char
    kuviewer.Upload.Names.is_dns_char kuviewer.Upload.Names.ends_well
    kuviewer.Upload.Names.bracketed kuviewer.Upload.Names.headed
    kuviewer.Upload.Schemas.Images.runs_form kuviewer.Upload.Schemas.Images.digest_form
    kuviewer.Upload.Schemas.Images.image_name
    kuviewer.Upload.Schemas.Images.valid_upload_container_image
    kuviewer.Upload.Schemas.Images.record_array kuviewer.Json.read_at kuviewer.Json.string_at
    kuviewer.Json.at kuviewer.Json.as_array kuviewer.Base.filter kuviewer.Base.find
    kuviewer.Base.any kuviewer.Base.all kuviewer.Base.has kuviewer.Base.text_eq kuviewer.Base.lit
    kuviewer.Base.flat_map kuviewer.Base.split kuviewer.Base.join kuviewer.Base.traverse
    kuviewer.Base.trim kuviewer.Base.drop_space kuviewer.Base.is_space kuviewer.Base.includes
    kuviewer.Base.starts_with kuviewer.Base.Dict.lookup kuviewer.Base.Dict.insert
    kuviewer.Base.Dict.insert_all kuviewer.Base.Sets.add kuviewer.Base.Sets.add_all
    kuviewer.Base.Sort.sort_by kuviewer.Base.Sort.insert_by kuviewer.Base.Sort.text_compare
    kuviewer.Base.Decimal.decimal
web_deployment-parsed = refl

web_deployment_example : IsTemplate web_template
web_deployment_example =
    parse_template-IsTemplate (lit "Deployment") web_deployment web_template web_deployment-parsed

-- A list in a list, with a named object and one without a name.
abbrev nested : Value
nested = obj (
    says (lit "kind") (lit "List") (
      field (lit "items")
        (one (obj (says (lit "kind") (lit "List") (field (lit "items") (one (obj end)) end)))) end))
