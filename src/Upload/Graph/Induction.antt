-- ===== src/Upload/Graph/Induction.antt =====
-- Induction over the building of the graph, from the objects to the policies: see Closed.
use kuviewer.Base.{refl, List, [], ◌∷◌, Text, lit, Option-cases, inl, inr, text_eq}
use kuviewer.Base.Dict.{Dict}
use kuviewer.Json.{Fields}
use kuviewer.Platform.{Platform}
use kuviewer.Topology.Types.{SummaryValue}
use kuviewer.Upload.Graph.{BuildContext, add_node, add_edge, warn, for_each}
use kuviewer.Upload.Graph.Build.{
  UploadOptions, add_object_node, build_graph, build_nodes, empty_context, namespace_node,
  unsupported_message,
}
use kuviewer.Upload.Graph.Closed.{
  HidesSecret, other-HidesSecret, object_summary-HidesSecret, for_each-keeps, if_keeps,
  add_object_edges-keeps,
}
use kuviewer.Upload.Graph.Definitions.{
  Definition, custom_resource_definition_records, normalize_object_kind,
}
use kuviewer.Upload.Graph.Policies.{
  pod_edge, service_edges, add_service_selector_edges, add_network_policy_edges, policy_edges,
  add_network_policy_peer_edges, peer_edges, direction_edges, applies_to_edges,
}
use kuviewer.Upload.Graph.Schemas.{Schemas}
use kuviewer.Upload.LabelSelector.{LabelNamespaceRecord}
use kuviewer.Upload.Object.{KubeObject, object_namespace}

module _ (P : BuildContext → Type 0)
    (node : (c : BuildContext) (kind namespace name status : Text) (labels : Dict Text)
        (summary : Dict SummaryValue)
      → HidesSecret kind summary
      → P c
      → P (add_node c kind namespace name status labels summary))
    (edge : (c : BuildContext) (type source target source_field confidence : Text)
      → P c
      → P (add_edge c type source target source_field confidence)) where
  pod_edges-keeps :
      (type source source_field : Text) (c : BuildContext) (pods : List KubeObject)
      → P c
      → P (for_each (pod_edge type source source_field) c pods)
  pod_edges-keeps type source source_field c pods p =
      for_each-keeps P _ (λ c pod p. edge c type source _ source_field _ p) c pods p

  add_service_selector_edges-keeps :
      (s : Schemas) (pods : List KubeObject) (c : BuildContext) (services : List KubeObject)
      → P c
      → P (add_service_selector_edges s pods c services)
  unfolding add_service_selector_edges
  add_service_selector_edges-keeps s pods c services p =
      for_each-keeps P (service_edges s pods) one c services p
    where
      one : (c : BuildContext) (service : KubeObject) → P c → P (service_edges s pods c service)
      one c service p = elim (Option-cases (s.service_selector service)) [
        | inl e ↦ rw (e, service_edges) p
        | inr (selector, e) ↦
            rw (e, service_edges) (if_keeps P _ _ c (pod_edges-keeps _ _ _ c _ p) p)
      ]

  module _ (pods : List KubeObject) (namespaces : List LabelNamespaceRecord) where
    add_network_policy_peer_edges-keeps :
        (type source source_field policy_namespace peer_key : Text) (c : BuildContext)
        (rule : Fields)
        → P c
        → P (
            add_network_policy_peer_edges pods namespaces type source source_field policy_namespace
              peer_key c rule)
    unfolding add_network_policy_peer_edges
    add_network_policy_peer_edges-keeps type source source_field policy_namespace peer_key c rule
          p =
        for_each-keeps P (peer_edges pods namespaces type source source_field policy_namespace)
          (λ c peer p. if_keeps P _ c _ p (
            if_keeps P _ _ _ (pod_edges-keeps type source source_field c _ p)
              (for_each-keeps P _ (λ c n p. edge c type source _ source_field _ p) c _ p)))
          c _ p

    direction_edges-keeps :
        (o : KubeObject) (policy_type rules_key peer_key type source_field id : Text)
        (c : BuildContext)
        → P c
        → P (
            direction_edges pods namespaces o policy_type rules_key peer_key type source_field id c)
    direction_edges-keeps o policy_type rules_key peer_key type source_field id c p =
        if_keeps P _ _ c
          (for_each-keeps P _
            (add_network_policy_peer_edges-keeps type id source_field (object_namespace o) peer_key)
            c _ p)
          p

    applies_to_edges-keeps :
        (id namespace : Text) (c : BuildContext) (matching : List KubeObject)
        → P c
        → P (applies_to_edges pods namespaces id namespace c matching)
    applies_to_edges-keeps id namespace c [] p = edge c _ id _ _ _ p
    applies_to_edges-keeps id namespace c (pod ∷ rest) p = pod_edges-keeps _ id _ c (pod ∷ rest) p

    add_network_policy_edges-keeps :
        (c : BuildContext) (policies : List KubeObject)
        → P c
        → P (add_network_policy_edges pods namespaces c policies)
    unfolding add_network_policy_edges
    add_network_policy_edges-keeps c policies p =
        for_each-keeps P (policy_edges pods namespaces)
          (λ c o p.
            direction_edges-keeps o _ _ _ _ _ _ _
              (direction_edges-keeps o _ _ _ _ _ _ _ (applies_to_edges-keeps _ _ c _ p)))
          c policies p

  -- The edges keep what the nodes alone have.
  pub edges-keeps :
      (js : Platform) (s : Schemas) (objects : List KubeObject) (warnings : List Text)
      (options : UploadOptions)
      → P (build_nodes js s objects warnings options)
      → P (build_graph js s objects warnings options)
  unfolding build_graph
  edges-keeps js s objects warnings options p = add_network_policy_edges-keeps _ _ _ _ (
      add_service_selector_edges-keeps s _ _ _ (
        for_each-keeps P _
          (add_object_edges-keeps P node edge s (custom_resource_definition_records objects)) _
          objects p))

  module _ (js : Platform) (s : Schemas)
      (warned : (c : BuildContext) (message : Text) → P c → P (warn c message)) where
    pub add_object_node-keeps :
        (ds : List Definition) (c : BuildContext) (o : KubeObject)
        → P c
        → P (add_object_node js s ds c o)
    unfolding add_object_node
    add_object_node-keeps ds c o p = elim (Option-cases (normalize_object_kind o ds)) [
      | inl e ↦ rw (e, add_object_node) (warned c (unsupported_message o) p)
      | inr ((kind, d), e) ↦
          rw (e, add_object_node)
            (node c kind _ _ _ _ _ (object_summary-HidesSecret js s kind o d) p)
    ]

    pub build_nodes-keeps :
        (objects : List KubeObject) (warnings : List Text) (options : UploadOptions)
        → P (empty_context options.cluster_id warnings)
        → P (build_nodes js s objects warnings options)
    unfolding build_nodes text_eq lit
    build_nodes-keeps objects warnings options p =
        for_each-keeps P _ (add_object_node-keeps (custom_resource_definition_records objects)) _
          objects
          (for_each-keeps P (namespace_node js s options)
            (λ c n p. edge _ _ _ _ _ _ (node c _ _ n _ _ _ (other-HidesSecret _ _ refl) p)) _ _
            (node _ _ _ _ _ _ _ (other-HidesSecret _ _ refl) p))

    pub build_graph-keeps :
        (objects : List KubeObject) (warnings : List Text) (options : UploadOptions)
        → P (empty_context options.cluster_id warnings)
        → P (build_graph js s objects warnings options)
    build_graph-keeps objects warnings options p =
        edges-keeps js s objects warnings options (build_nodes-keeps objects warnings options p)
