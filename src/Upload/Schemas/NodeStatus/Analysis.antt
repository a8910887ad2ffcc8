-- ===== src/Upload/Schemas/NodeStatus/Analysis.antt =====
-- website/src/features/upload/nodeStatusSchema.ts: the summary and the status, `analyzeNodeStatus`.
use kuviewer.Base.{
  Bool, true, false, not, ◌&&◌, Option, none, some, List, [], ◌∷◌, ◌++◌, map, Text, lit, text_eq,
  or_text, any, length, join, if◌then◌else◌, ◌>>=◌, ◌>>◌, guard,
}
use kuviewer.Base.Dict.{Dict, lookup}
use kuviewer.Base.Number.{whole}
use kuviewer.Base.Sort.{text_compare, sort_by}
use kuviewer.Json.{Value, obj, Fields, at, is_nullish}
use kuviewer.Topology.Types.{SummaryValue, text, number}
use kuviewer.Upload.Object.{KubeObject, field_at}
use kuviewer.Upload.Schemas.NodeStatus.{
  NodeCondition, NodeSystemInfo, parse_pod_capacity, parse_node_resource_list,
  parse_node_conditions, empty_node_system_info, parse_node_system_info, valid_pod_allocation,
}

pub record NodeStatusAnalysis : Type 0 where
  pub valid : Bool
  pub observed : Bool
  pub ready : Bool
  pub summary : Dict SummaryValue

unfoldable pub node_status_observed : Fields → Bool
node_status_observed status =
    any (λ key. not (is_nullish (at status key)))
      (lit "conditions" ∷ lit "capacity" ∷ lit "allocatable" ∷ lit "nodeInfo" ∷ [])

abbrev pub quantity_at : Dict Text → Text → SummaryValue
quantity_at m key = text (elim (lookup key m) [ none ↦ lit "unknown" | some s ↦ s ])

abbrev pub pods_value : Dict Text → SummaryValue
pods_value m = elim (lookup (lit "pods") m) [
  | none ↦ text (lit "unknown")
  | some s ↦ elim (parse_pod_capacity s) [ none ↦ text (lit "invalid") | some n ↦ number (whole n) ]
]

-- `` `${condition.type}=${condition.status}` ``.
abbrev pub condition_label : NodeCondition → Text
condition_label c = c.type ++ (b'=' ∷ c.status)

abbrev pub conditions_value : List NodeCondition → SummaryValue
conditions_value [] = text (lit "unknown")
conditions_value (c ∷ cs) =
    text (join (lit ", ") (sort_by text_compare (map condition_label (c ∷ cs))))

unfoldable pub node_summary_values :
    Dict Text → Dict Text → List NodeCondition → NodeSystemInfo → Dict SummaryValue
node_summary_values capacity allocatable conditions info =
    (lit "capacityCpu", quantity_at capacity (lit "cpu"))
    ∷ (lit "allocatableCpu", quantity_at allocatable (lit "cpu"))
    ∷ (lit "capacityMemory", quantity_at capacity (lit "memory"))
    ∷ (lit "allocatableMemory", quantity_at allocatable (lit "memory"))
    ∷ (lit "capacityPods", pods_value capacity)
    ∷ (lit "allocatablePods", pods_value allocatable)
    ∷ (lit "capacityEphemeralStorage", quantity_at capacity (lit "ephemeral-storage"))
    ∷ (lit "allocatableEphemeralStorage", quantity_at allocatable (lit "ephemeral-storage"))
    ∷ (lit "capacityResourceCount", number (whole (length capacity)))
    ∷ (lit "allocatableResourceCount", number (whole (length allocatable)))
    ∷ (lit "kubeletVersion", text (or_text info.kubelet_version (lit "unknown")))
    ∷ (lit "containerRuntime", text (or_text info.container_runtime (lit "unknown")))
    ∷ (lit "operatingSystem", text (or_text info.operating_system (lit "unknown")))
    ∷ (lit "architecture", text (or_text info.architecture (lit "unknown")))
    ∷ (lit "conditions", conditions_value conditions)
    ∷ []

unfoldable pub invalid_node_status_analysis : NodeStatusAnalysis
invalid_node_status_analysis = record {
  valid = false;
  observed = true;
  ready = false;
  summary =
      map (λ key. (key, text (lit "invalid")))
        (lit "capacityCpu"
          ∷ lit "allocatableCpu"
          ∷ lit "capacityMemory"
          ∷ lit "allocatableMemory"
          ∷ lit "capacityPods"
          ∷ lit "allocatablePods"
          ∷ lit "capacityEphemeralStorage"
          ∷ lit "allocatableEphemeralStorage"
          ∷ lit "capacityResourceCount"
          ∷ lit "allocatableResourceCount"
          ∷ lit "kubeletVersion"
          ∷ lit "containerRuntime"
          ∷ lit "operatingSystem"
          ∷ lit "architecture"
          ∷ lit "conditions"
          ∷ []);
}

abbrev pub is_ready_condition : NodeCondition → Bool
is_ready_condition c = text_eq c.type (lit "Ready") && text_eq c.status (lit "True")

-- The analysis of a status that says something; none where a part of it is not valid.
unfoldable pub observed_node_status : Fields → Option NodeStatusAnalysis
observed_node_status status = do
  capacity ← parse_node_resource_list (at status (lit "capacity"))
  allocatable ← parse_node_resource_list (at status (lit "allocatable"))
  conditions ← parse_node_conditions (at status (lit "conditions"))
  info ← parse_node_system_info (at status (lit "nodeInfo"))
  guard (valid_pod_allocation capacity allocatable)
  some (record {
    valid = true;
    observed = true;
    ready = any is_ready_condition conditions;
    summary = node_summary_values capacity allocatable conditions info;
  })

abbrev pub unobserved_node_status : NodeStatusAnalysis
unobserved_node_status = record {
  valid = true;
  observed = false;
  ready = false;
  summary = node_summary_values [] [] [] empty_node_system_info;
}

-- The analysis of the value of the field `status`.
unfoldable pub analyze_status : Value → NodeStatusAnalysis
analyze_status (obj status) =
    if node_status_observed status
    then elim (observed_node_status status) [ none ↦ invalid_node_status_analysis | some a ↦ a ]
    else unobserved_node_status
analyze_status v = if is_nullish v then unobserved_node_status else invalid_node_status_analysis

unfoldable pub analyze_node_status : KubeObject → NodeStatusAnalysis
analyze_node_status o = analyze_status (field_at o (lit "status" ∷ []))

unfoldable pub upload_node_status_is_valid : KubeObject → Bool
upload_node_status_is_valid o = (analyze_node_status o).valid

-- The status that an analysis gives.
abbrev pub analyzed_node_status : NodeStatusAnalysis → Text
analyzed_node_status a =
    if not a.observed
    then lit "unknown"
    else if a.valid && a.ready
    then lit "healthy"
    else lit "warning"

unfoldable pub upload_node_status : KubeObject → Text
upload_node_status o = analyzed_node_status (analyze_node_status o)

unfoldable pub upload_node_summary : KubeObject → Dict SummaryValue
upload_node_summary o = (analyze_node_status o).summary
