-- ===== src/Snapshot/Compare.antt =====
-- website/src/features/snapshot/compareSnapshots.ts
pub mod Laws
pub mod Counts
pub mod Same
use kuviewer.Base.{
  ℕ, Ordering, compare, Bool, true, false, not, ◌&&◌, Option, none, some, List, [], ◌∷◌, ◌++◌, map,
  if◌then◌else◌, Text, lit, text_eq, truthy, or_text, has, filter, length,
}
use kuviewer.Base.Dict.{Dict, keys}
use kuviewer.Base.Number.{Number, num_eq}
use kuviewer.Base.Sort.{or_else, sort_by, text_compare}
use kuviewer.Platform.{Platform}
use kuviewer.Snapshot.Diff.{ChangeType, added, removed, changed, same_type, last_with, changes}
use kuviewer.Topology.Types.{
  SummaryValue, text, TopologyNode, TopologyEdge, ClusterSummary, TopologySnapshot,
}

pub record NodeChange : Type 0 where
  pub id : Text
  pub type : ChangeType
  pub cluster_id : Text
  pub kind : Text
  pub namespace : Text
  pub name : Text
  pub before_status : Option Text
  pub after_status : Option Text
  pub changed_fields : List Text

pub record ClusterChange : Type 0 where
  pub id : Text
  pub type : ChangeType
  pub name : Text
  pub before : Option ClusterSummary
  pub after : Option ClusterSummary
  pub changed_fields : List Text

pub record ResourceIdentity : Type 0 where
  pub id : Text
  pub kind : Text
  pub namespace : Text
  pub name : Text

pub record EdgeChange : Type 0 where
  pub id : Text
  pub type : ChangeType
  pub cluster_id : Text
  pub relation : Text
  pub source : ResourceIdentity
  pub target : ResourceIdentity
  pub confidence : Text
  pub source_field : Text
  pub changed_fields : List Text

pub record ChangeCounts : Type 0 where
  pub added_count : ℕ
  pub removed_count : ℕ
  pub changed_count : ℕ

pub record SnapshotComparison : Type 0 where
  pub clusters : List ClusterChange
  pub nodes : List NodeChange
  pub edges : List EdgeChange
  pub counts : ChangeCounts
  pub cluster_counts : ChangeCounts
  pub edge_counts : ChangeCounts

-- The named fields whose test says that they differ, in order.
abbrev pub differing : List (Text × Bool) → List Text
differing [] = []
differing ((name, same) ∷ rest) = if same then differing rest else name ∷ differing rest

unfoldable pub changed_cluster_fields : ClusterSummary → ClusterSummary → List Text
changed_cluster_fields p c = differing (
    (lit "name", text_eq p.name c.name)
    ∷ (lit "provider", text_eq p.provider c.provider)
    ∷ (lit "version", text_eq p.version c.version)
    ∷ (lit "nodeReady", num_eq p.node_ready c.node_ready)
    ∷ (lit "nodeTotal", num_eq p.node_total c.node_total)
    ∷ (lit "podRunning", num_eq p.pod_running c.pod_running)
    ∷ (lit "podWarning", num_eq p.pod_warning c.pod_warning)
    ∷ (lit "namespaces", num_eq p.namespaces c.namespaces)
    ∷ [])

unfoldable pub changed_edge_fields : TopologyEdge → TopologyEdge → List Text
changed_edge_fields p c = differing (
    (lit "clusterId", text_eq p.cluster_id c.cluster_id)
    ∷ (lit "source", text_eq p.source c.source)
    ∷ (lit "target", text_eq p.target c.target)
    ∷ (lit "type", text_eq p.type c.type)
    ∷ (lit "confidence", text_eq p.confidence c.confidence)
    ∷ (lit "sourceField", text_eq p.source_field c.source_field)
    ∷ [])

-- `value || fallback` on an optional value.
abbrev pub value_or {ℓ} : {A : Type ℓ} → Option A → A → A
value_or none d = d
value_or (some a) d = a

-- `namespace || '-'`.
abbrev pub dashed : Option Text → Text
dashed none = lit "-"
dashed (some s) = or_text s (lit "-")

unfoldable pub cluster_change :
    ChangeType → ClusterSummary → Option ClusterSummary → List Text → ClusterChange
cluster_change type cluster previous fields = record {
  id = cluster.id;
  type = type;
  name = cluster.name;
  before = elim previous [
    | some p ↦ some p
    | none ↦ if same_type type removed then some cluster else none
  ];
  after = if same_type type removed then none else some cluster;
  changed_fields = fields;
}

unfoldable pub node_change :
    ChangeType → TopologyNode → Option TopologyNode → List Text → NodeChange
node_change type node previous fields =
    let fallback : Option Text = if same_type type removed then some node.status else none in
    record {
      id = node.id;
      type = type;
      cluster_id = node.cluster_id;
      kind = node.kind;
      namespace = dashed node.namespace;
      name = node.name;
      before_status = elim previous [
        | some p ↦ if truthy p.status then some p.status else fallback
        | none ↦ fallback
      ];
      after_status = if same_type type removed then none else some node.status;
      changed_fields = fields;
    }

unfoldable pub resource_identity : Text → Option TopologyNode → ResourceIdentity
resource_identity id none = record { id = id; kind = lit "Unknown"; namespace = lit "-"; name = id }
resource_identity id (some n) = record {
  id = id;
  kind = or_text n.kind (lit "Unknown");
  namespace = dashed n.namespace;
  name = or_text n.name id;
}

unfoldable pub edge_change : List TopologyNode → ChangeType → TopologyEdge → List Text → EdgeChange
unfolding resource_identity
edge_change nodes type edge fields = record {
  id = edge.id;
  type = type;
  cluster_id = edge.cluster_id;
  relation = edge.type;
  source = resource_identity edge.source (last_with (λ (n : TopologyNode). n.id) nodes edge.source);
  target = resource_identity edge.target (last_with (λ (n : TopologyNode). n.id) nodes edge.target);
  confidence = edge.confidence;
  source_field = edge.source_field;
  changed_fields = fields;
}

-- `changeTypeOrder`.
abbrev pub change_type_order : ChangeType → ℕ
change_type_order changed = 0
change_type_order added = 1
change_type_order removed = 2

unfoldable pub count_changes {ℓ} : {C : Type ℓ} → (C → ChangeType) → List C → ChangeCounts
count_changes type cs = record {
  added_count = length (filter (λ c. same_type (type c) added) cs);
  removed_count = length (filter (λ c. same_type (type c) removed) cs);
  changed_count = length (filter (λ c. same_type (type c) changed) cs);
}

module _ (js : Platform) where
  open js use {locale_compare, stringify_texts, stringify_object}

  -- `stableValue` of an array, and of an object by sorted keys.
  abbrev pub stable_texts : List Text → Text
  stable_texts ts = stringify_texts (sort_by text_compare ts)

  abbrev pub stable_object : Dict SummaryValue → Text
  stable_object m = stringify_object (sort_by (λ a b. locale_compare a.0 b.0) m)

  abbrev pub label_values : Dict Text → Dict SummaryValue
  label_values m = map (λ e. (e.0, text e.1)) m

  -- `safeSummaryValue`: of a Secret the keys alone.
  unfoldable pub safe_summary_value : TopologyNode → Text
  safe_summary_value n =
      if text_eq n.kind (lit "Secret")
      then stable_texts (keys n.summary)
      else stable_object n.summary

  unfoldable pub changed_node_fields : TopologyNode → TopologyNode → List Text
  unfolding safe_summary_value
  changed_node_fields p c = differing (
      (lit "status", text_eq p.status c.status)
      ∷ (
        lit "labels",
        text_eq (stable_object (label_values p.labels)) (stable_object (label_values c.labels)),
      )
      ∷ (
        lit "annotations",
        text_eq (stable_texts (keys (value_or p.annotations [])))
            (stable_texts (keys (value_or c.annotations []))),
      )
      ∷ (
        lit "owners",
        text_eq (stable_texts (value_or p.owners [])) (stable_texts (value_or c.owners [])),
      )
      ∷ (lit "summary", text_eq (safe_summary_value p) (safe_summary_value c))
      ∷ [])

  abbrev pub cluster_order : ClusterChange → ClusterChange → Ordering
  cluster_order a b =
      or_else (compare (change_type_order a.type) (change_type_order b.type))
        (locale_compare a.name b.name)

  abbrev pub node_order : NodeChange → NodeChange → Ordering
  node_order a b =
      or_else (compare (change_type_order a.type) (change_type_order b.type))
        (or_else (locale_compare a.kind b.kind) (locale_compare a.name b.name))

  abbrev pub edge_order : EdgeChange → EdgeChange → Ordering
  edge_order a b =
      or_else (compare (change_type_order a.type) (change_type_order b.type))
        (or_else (locale_compare a.relation b.relation) (locale_compare a.id b.id))

  unfoldable pub compare_clusters : List ClusterSummary → List ClusterSummary → List ClusterChange
  unfolding changes changed_cluster_fields cluster_change
  compare_clusters baseline current = sort_by cluster_order (
      changes (λ (c : ClusterSummary). c.id) changed_cluster_fields cluster_change baseline current)

  unfoldable pub compare_nodes : List TopologyNode → List TopologyNode → List NodeChange
  unfolding changes changed_node_fields node_change
  compare_nodes baseline current =
      sort_by node_order
        (changes (λ (n : TopologyNode). n.id) changed_node_fields node_change baseline current)

  -- The ends of a removed edge are looked up in the baseline, those of any other in the current nodes.
  unfoldable pub compare_edges : TopologySnapshot → TopologySnapshot → List EdgeChange
  unfolding changes changed_edge_fields edge_change
  compare_edges baseline current = sort_by edge_order (
      changes (λ (e : TopologyEdge). e.id) changed_edge_fields
        (λ type edge previous.
          edge_change (if same_type type removed then baseline.nodes else current.nodes) type edge)
        baseline.edges current.edges)

  unfoldable pub compare_topology_snapshots :
      TopologySnapshot → TopologySnapshot → SnapshotComparison
  unfolding compare_clusters compare_nodes compare_edges count_changes
  compare_topology_snapshots baseline current =
      let clusters = compare_clusters baseline.clusters current.clusters in
      let nodes = compare_nodes baseline.nodes current.nodes in
      let edges = compare_edges baseline current in
      record {
        clusters = clusters;
        nodes = nodes;
        edges = edges;
        counts = count_changes (λ (c : NodeChange). c.type) nodes;
        cluster_counts = count_changes (λ (c : ClusterChange). c.type) clusters;
        edge_counts = count_changes (λ (c : EdgeChange). c.type) edges;
      }
