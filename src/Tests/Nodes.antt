-- ===== src/Tests/Nodes.antt =====
-- The statuses of cluster nodes.
use kuviewer.Base.{
  ℕ, ◌+◌, ◌≤◌, ◌≡◌, refl, Bool, true, false, Option, none, some, List, [], ◌∷◌, ◌++◌, Text, lit,
  has, length, min, All, any, all,
}
use kuviewer.Base.Dict.{Dict}
use kuviewer.Json.{Value, bool, str, num, arr, obj, Fields, field, end, Items, nil, cons}
use kuviewer.Upload.Object.{KubeObject, is_named, field_at}
use kuviewer.Upload.Schemas.NodeStatus.{NodeCondition, parse_node_conditions}
use kuviewer.Upload.Schemas.NodeStatus.Analysis.{is_ready_condition, upload_node_status}
use kuviewer.Upload.Schemas.NodeStatus.Ready.{agrees_ready, upload_node_status-healthy}
use kuviewer.Upload.Schemas.Storage.{parse_resource_list}

abbrev says : Text → Text → Fields → Fields
says key value rest = field key (str value) rest

abbrev condition : Text → Text → Value
condition type status = obj (says (lit "type") type (says (lit "status") status end))

-- A node that is ready and short of memory.
abbrev ready_node : KubeObject
ready_node =
    field (lit "status")
      (obj (
        field (lit "capacity") (obj (says (lit "pods") (lit "110") end)) (
          field (lit "conditions")
            (arr (
              cons (condition (lit "MemoryPressure") (lit "True"))
                (cons (condition (lit "Ready") (lit "True")) nil)))
            end)))
      end

ready_node_is_healthy : upload_node_status ready_node ≡ lit "healthy"
unfolding kuviewer.Base.Dict.lookup kuviewer.Base.Dict.insert kuviewer.Base.Dict.insert_all
    kuviewer.Base.Decimal.decimal kuviewer.Base.Decimal.read_decimal kuviewer.Base.traverse
    kuviewer.Base.filter kuviewer.Base.any kuviewer.Base.all
    kuviewer.Upload.Schemas.NodeStatus.valid_optional_node_value
    kuviewer.Upload.Schemas.Storage.optional_string kuviewer.Base.drop_space has kuviewer.Base.lit
    kuviewer.Base.text_eq kuviewer.Upload.Names.headed kuviewer.Upload.Names.is_alnum
    kuviewer.Upload.Object.field_at kuviewer.Json.read_at kuviewer.Json.at
    kuviewer.Upload.Schemas.Images.record_array
    kuviewer.Upload.Schemas.NodeStatus.condition_type_pattern
    kuviewer.Upload.Schemas.NodeStatus.node_conditions_from
    kuviewer.Upload.Schemas.NodeStatus.Analysis.analyze_status
    kuviewer.Upload.Schemas.NodeStatus.Analysis.analyze_node_status
    kuviewer.Upload.Schemas.NodeStatus.Analysis.node_status_observed
    kuviewer.Upload.Schemas.NodeStatus.Analysis.observed_node_status
    kuviewer.Upload.Schemas.NodeStatus.parse_node_resource_list
    kuviewer.Upload.Schemas.NodeStatus.parse_node_system_info parse_node_conditions
    kuviewer.Upload.Schemas.NodeStatus.parse_pod_capacity
    kuviewer.Upload.Schemas.NodeStatus.pod_count
    kuviewer.Upload.Schemas.NodeStatus.valid_pod_allocation
    kuviewer.Upload.Schemas.NodeStatus.valid_node_quantity
    kuviewer.Upload.Schemas.Storage.normalize_quantity upload_node_status
ready_node_is_healthy = refl

healthy_node_example :
    (cs : List NodeCondition) × (parse_node_conditions
        (field_at ready_node (lit "status" ∷ lit "conditions" ∷ []))
      ≡ some cs)
    × (any is_ready_condition cs ≡ true)
    × (all agrees_ready cs ≡ true)
healthy_node_example = upload_node_status-healthy ready_node ready_node_is_healthy
