-- ===== src/Topology/Types.antt =====
-- website/src/types/topology.ts. The string unions (kinds, statuses, edge types) are strings at run
-- time, since a snapshot may come from a server, and are texts here with the lists of their members.
use kuviewer.Base.{Bool, Option, List, [], ◌∷◌, Text, lit}
use kuviewer.Base.Dict.{Dict}
use kuviewer.Base.Number.{Number}

unfoldable pub resource_kinds : List Text
resource_kinds =
    lit "Cluster"
    ∷ lit "Namespace"
    ∷ lit "Node"
    ∷ lit "Deployment"
    ∷ lit "ReplicaSet"
    ∷ lit "StatefulSet"
    ∷ lit "DaemonSet"
    ∷ lit "Job"
    ∷ lit "CronJob"
    ∷ lit "HorizontalPodAutoscaler"
    ∷ lit "Pod"
    ∷ lit "ServiceAccount"
    ∷ lit "Service"
    ∷ lit "EndpointSlice"
    ∷ lit "Ingress"
    ∷ lit "Gateway"
    ∷ lit "HTTPRoute"
    ∷ lit "GRPCRoute"
    ∷ lit "TLSRoute"
    ∷ lit "TCPRoute"
    ∷ lit "NetworkPolicy"
    ∷ lit "ConfigMap"
    ∷ lit "Secret"
    ∷ lit "PersistentVolumeClaim"
    ∷ lit "PersistentVolume"
    ∷ lit "StorageClass"
    ∷ lit "CustomResourceDefinition"
    ∷ lit "CustomResource"
    ∷ []

unfoldable pub resource_statuses : List Text
resource_statuses = lit "healthy" ∷ lit "warning" ∷ lit "error" ∷ lit "unknown" ∷ []

unfoldable pub edge_types : List Text
edge_types =
    lit "owns"
    ∷ lit "selects"
    ∷ lit "service-endpoint"
    ∷ lit "routes-to"
    ∷ lit "mounts"
    ∷ lit "env-from"
    ∷ lit "scheduled-on"
    ∷ lit "binds-storage"
    ∷ lit "uses-service-account"
    ∷ lit "targets-scale"
    ∷ lit "applies-to"
    ∷ lit "attaches-to"
    ∷ lit "allows-ingress"
    ∷ lit "allows-egress"
    ∷ lit "references"
    ∷ []

pub data SummaryValue : Type 0 where
  text : Text → SummaryValue
  number : Number → SummaryValue
  boolean : Bool → SummaryValue
  texts : List Text → SummaryValue
  numbers : List Number → SummaryValue
  booleans : List Bool → SummaryValue

pub record TopologyNode : Type 0 where
  pub id : Text
  pub cluster_id : Text
  pub kind : Text
  pub namespace : Option Text
  pub name : Text
  pub status : Text
  pub labels : Dict Text
  pub annotations : Option (Dict Text)
  pub uid : Option Text
  pub age : Option Text
  pub owners : Option (List Text)
  pub summary : Dict SummaryValue
  pub x : Number
  pub y : Number

pub record TopologyEdge : Type 0 where
  pub id : Text
  pub cluster_id : Text
  pub source : Text
  pub target : Text
  pub type : Text
  pub confidence : Text
  pub source_field : Text

pub record ClusterSummary : Type 0 where
  pub id : Text
  pub name : Text
  pub provider : Text
  pub version : Text
  pub node_ready : Number
  pub node_total : Number
  pub pod_running : Number
  pub pod_warning : Number
  pub namespaces : Number

pub record SnapshotDiagnostic : Type 0 where
  pub id : Text
  pub resource : Text
  pub reason : Text
  pub count : Number

pub record TopologySnapshot : Type 0 where
  pub clusters : List ClusterSummary
  pub nodes : List TopologyNode
  pub edges : List TopologyEdge
  pub diagnostics : Option (List SnapshotDiagnostic)
