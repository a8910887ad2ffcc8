-- ===== src/Upload/Graph.antt =====
-- The graph that website/src/features/upload/parseKubernetesFiles.ts builds from parsed objects:
-- `BuildContext` and the operations that change it. The source mutates one context; here each
-- operation takes the context and returns the next one. The id that `addNode` returns is not used
-- by any caller.
pub mod Definitions
pub mod Schemas
pub mod Edges
pub mod Policies
pub mod Summaries
pub mod Build
pub mod Closed
pub mod Induction
pub mod Formed
pub mod Complete
pub mod Recognized
pub mod Ids
pub mod Plain
pub mod Warned
use kuviewer.Base.{
  Bool, true, not, ◌&&◌, ◌||◌, Option, none, some, List, [], ◌∷◌, ◌++◌, if◌then◌else◌, Text, lit,
  truthy, text_eq, has,
}
use kuviewer.Base.Dict.{Dict}
use kuviewer.Base.Number.{whole}
use kuviewer.Base.Sets.{add}
use kuviewer.Topology.Types.{SummaryValue, text, boolean, TopologyNode, TopologyEdge}

pub record BuildContext : Type 0 where
  pub cluster_id : Text
  pub node_set : List Text
  pub edge_set : List Text
  pub nodes : List TopologyNode
  pub edges : List TopologyEdge
  pub warnings : List Text

-- `` `${clusterId}:${namespace}:${kind}:${name}` ``, without the namespace where there is none.
unfoldable pub node_id : Text → Text → Text → Text → Text
node_id cluster_id namespace kind name =
    if truthy namespace
    then cluster_id ++ (b':' ∷ (namespace ++ (b':' ∷ (kind ++ (b':' ∷ name)))))
    else cluster_id ++ (b':' ∷ (kind ++ (b':' ∷ name)))

abbrev pub unless_blank : Text → Option Text
unless_blank [] = none
unless_blank (c ∷ s) = some (c ∷ s)

-- The node that `addNode` pushes.
abbrev pub new_node :
    Text → Text → Text → Text → Text → Dict Text → Dict SummaryValue → TopologyNode
new_node cluster_id kind namespace name status labels summary = record {
  id = node_id cluster_id namespace kind name;
  cluster_id = cluster_id;
  kind = kind;
  namespace = unless_blank namespace;
  name = name;
  status = status;
  labels = labels;
  annotations = none;
  uid = none;
  age = none;
  owners = none;
  summary = summary;
  x = whole 0;
  y = whole 0;
}

unfoldable pub add_node :
    BuildContext → Text → Text → Text → Text → Dict Text → Dict SummaryValue → BuildContext
add_node c kind namespace name status labels summary =
    let id = node_id c.cluster_id namespace kind name in
    if not (truthy name) || has id c.node_set then c else record c {
      nodes = c.nodes ++ (new_node c.cluster_id kind namespace name status labels summary ∷ []);
      node_set = add id c.node_set;
    }

abbrev pub reference_summary : Text → Dict SummaryValue
reference_summary kind =
    if text_eq kind (lit "Secret")
    then (lit "referenced", boolean true) ∷ (lit "values", text (lit "hidden")) ∷ []
    else (lit "referenced", boolean true) ∷ []

unfoldable pub ensure_reference_node : BuildContext → Text → Text → Text → BuildContext
unfolding add_node
ensure_reference_node c kind namespace name =
    add_node c kind namespace name (lit "unknown") [] (reference_summary kind)

-- `` `${source}->${target}:${type}:${sourceField}` ``.
unfoldable pub edge_id : Text → Text → Text → Text → Text
edge_id source target type source_field =
    source ++ (lit "->" ++ (target ++ (b':' ∷ (type ++ (b':' ∷ source_field)))))

abbrev pub new_edge : Text → Text → Text → Text → Text → Text → TopologyEdge
new_edge cluster_id type source target source_field confidence = record {
  id = edge_id source target type source_field;
  cluster_id = cluster_id;
  source = source;
  target = target;
  type = type;
  confidence = confidence;
  source_field = source_field;
}

-- An edge between nodes that exist, once.
unfoldable pub add_edge : BuildContext → Text → Text → Text → Text → Text → BuildContext
add_edge c type source target source_field confidence =
    let id = edge_id source target type source_field in
    if not (truthy source)
      || not (truthy target)
      || not (has source c.node_set)
      || not (has target c.node_set)
      || has id c.edge_set
    then c
    else record c {
      edges = c.edges ++ (new_edge c.cluster_id type source target source_field confidence ∷ []);
      edge_set = add id c.edge_set;
    }

-- `context.warnings.push`.
abbrev pub warn : BuildContext → Text → BuildContext
warn c message = record c { warnings = c.warnings ++ (message ∷ []) }

-- `forEach`: the callback's changes, one item after the other.
unfoldable pub for_each {ℓ κ} : {C : Type ℓ} {A : Type κ} → (C → A → C) → C → List A → C
for_each f c [] = c
for_each f c (x ∷ xs) = for_each f (f c x) xs
