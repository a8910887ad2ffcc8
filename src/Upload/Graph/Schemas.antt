-- ===== src/Upload/Graph/Schemas.antt =====
-- What the graph asks of the schemas, the modules of website/src/features/upload that read the
-- objects of one kind: an interface with a function for each that parseKubernetesFiles.ts calls.
-- The functions of the kinds with more than one member take the kind first.
use kuviewer.Base.{Bool, Option, List, [], ◌∷◌, Text, lit, has}
use kuviewer.Base.Dict.{Dict}
use kuviewer.Json.{Value}
use kuviewer.Topology.Types.{SummaryValue}
use kuviewer.Upload.Graph.Definitions.{Definition}
use kuviewer.Upload.Object.{KubeObject}

pub record WorkloadReference : Type 0 where
  pub kind : Text
  pub name : Text
  pub edge_type : Text
  pub source_field : Text

pub record NamespacedReference : Type 0 where
  pub namespace : Text
  pub name : Text

pub record KindReference : Type 0 where
  pub kind : Text
  pub name : Text

pub record CustomResourceReference : Type 0 where
  pub kind : Text
  pub namespace : Text
  pub name : Text
  pub source_field : Text

pub record Schemas : Type 0 where
  pub service_selector : KubeObject → Option (Dict Text)
  pub service_supports_selector_inference : KubeObject → Bool
  pub service_spec_is_valid : KubeObject → Bool
  pub service_summary : KubeObject → Dict SummaryValue
  pub ingress_spec_is_valid : KubeObject → Bool
  pub ingress_service_names : KubeObject → List Text
  pub ingress_status : KubeObject → Text
  pub ingress_summary : KubeObject → Dict SummaryValue
  pub gateway_status : KubeObject → Text
  pub gateway_summary : KubeObject → Dict SummaryValue
  pub gateway_route_spec_is_valid : Text → KubeObject → Bool
  pub gateway_route_parent_gateways : KubeObject → Text → List NamespacedReference
  pub gateway_route_backend_services : KubeObject → Text → List NamespacedReference
  pub gateway_route_status : Text → KubeObject → Text
  pub gateway_route_summary : Text → KubeObject → Dict SummaryValue
  pub workload_template_is_valid : Text → KubeObject → Bool
  pub workload_references : Text → KubeObject → List WorkloadReference
  pub workload_status : Text → KubeObject → Text
  pub workload_summary : Text → KubeObject → Dict SummaryValue
  pub pod_runtime_status : KubeObject → Text
  pub pod_runtime_summary : KubeObject → Dict SummaryValue
  pub node_status : KubeObject → Text
  pub node_summary : KubeObject → Dict SummaryValue
  pub storage_references : Text → KubeObject → List KindReference
  pub storage_status : Text → KubeObject → Text
  pub storage_summary : Text → KubeObject → Dict SummaryValue
  pub hpa_spec_is_valid : KubeObject → Bool
  pub hpa_scale_target : KubeObject → Option KindReference
  pub hpa_status : KubeObject → Text
  pub hpa_summary : KubeObject → Dict SummaryValue
  pub config_map_status : KubeObject → Text
  pub config_map_summary : KubeObject → Dict SummaryValue
  pub infer_custom_resource_references :
      Value → Text → Definition → List Definition → List CustomResourceReference

-- The kinds that one schema reads: of workloadSchema.ts, storageSchema.ts and
-- gatewayRouteReferences.ts.
unfoldable pub is_upload_workload_kind : Text → Bool
is_upload_workload_kind kind = has kind (
    lit "Deployment"
    ∷ lit "ReplicaSet"
    ∷ lit "StatefulSet"
    ∷ lit "DaemonSet"
    ∷ lit "Job"
    ∷ lit "CronJob"
    ∷ [])

unfoldable pub is_upload_storage_kind : Text → Bool
is_upload_storage_kind kind =
    has kind (lit "PersistentVolumeClaim" ∷ lit "PersistentVolume" ∷ lit "StorageClass" ∷ [])

unfoldable pub is_gateway_route_kind : Text → Bool
is_gateway_route_kind kind =
    has kind (lit "HTTPRoute" ∷ lit "GRPCRoute" ∷ lit "TLSRoute" ∷ lit "TCPRoute" ∷ [])
