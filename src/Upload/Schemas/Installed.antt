-- ===== src/Upload/Schemas/Installed.antt =====
-- The modelled schemas in the interface that the graph uses; the functions of services, ingresses
-- and gateways are those given.
use kuviewer.Base.{Option, none, some}
use kuviewer.Platform.{Platform}
use kuviewer.Upload.Graph.Schemas.{Schemas, KindReference}
use kuviewer.Upload.Schemas.ConfigMap.{upload_config_map_status, upload_config_map_summary}
use kuviewer.Upload.Schemas.CustomReferences.{infer_custom_resource_references}
use kuviewer.Upload.Schemas.Hpa.{ScaleTarget}
use kuviewer.Upload.Schemas.Hpa.Parse.{
  upload_hpa_spec_is_valid, upload_hpa_scale_target, upload_hpa_status, upload_hpa_summary,
}
use kuviewer.Upload.Schemas.NodeStatus.Analysis.{upload_node_status, upload_node_summary}
use kuviewer.Upload.Schemas.PodRuntime.{upload_pod_runtime_status, upload_pod_runtime_summary}
use kuviewer.Upload.Schemas.Storage.Read.{
  upload_storage_references, upload_storage_status, upload_storage_summary,
}
use kuviewer.Upload.Schemas.Workload.Counts.{
  upload_workload_template_is_valid, upload_workload_references, upload_workload_status,
  upload_workload_summary,
}

abbrev pub target_reference : Option ScaleTarget → Option KindReference
target_reference none = none
target_reference (some t) = some (record { kind = t.kind; name = t.name })

unfoldable pub installed : Platform → Schemas → Schemas
installed js others = record others {
  workload_template_is_valid = upload_workload_template_is_valid;
  workload_references = upload_workload_references;
  workload_status = upload_workload_status;
  workload_summary = upload_workload_summary;
  pod_runtime_status = upload_pod_runtime_status;
  pod_runtime_summary = upload_pod_runtime_summary;
  node_status = upload_node_status;
  node_summary = upload_node_summary;
  storage_references = upload_storage_references;
  storage_status = upload_storage_status;
  storage_summary = upload_storage_summary;
  hpa_spec_is_valid = upload_hpa_spec_is_valid js;
  hpa_scale_target = λ o. target_reference (upload_hpa_scale_target js o);
  hpa_status = upload_hpa_status js;
  hpa_summary = upload_hpa_summary js;
  config_map_status = upload_config_map_status;
  config_map_summary = upload_config_map_summary;
  infer_custom_resource_references =
      λ spec namespace d ds. infer_custom_resource_references js namespace d ds spec;
}
