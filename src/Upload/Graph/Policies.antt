-- ===== src/Upload/Graph/Policies.antt =====
-- The edges that are inferred from selectors: `addServiceSelectorEdges`, `addNetworkPolicyEdges` and
-- `addNetworkPolicyPeerEdges` of parseKubernetesFiles.ts.
use kuviewer.Base.{
  Bool, not, ◌&&◌, ◌||◌, none, some, List, [], ◌∷◌, map, if◌then◌else◌, Text, lit, text_eq, has,
  all, filter,
}
use kuviewer.Base.Dict.{Dict, lookup, from_entries}
use kuviewer.Base.Sort.{text_compare, sort_by}
use kuviewer.Json.{Fields, at, is_record, as_array, as_string_array}
use kuviewer.Upload.Graph.{BuildContext, node_id, add_edge, for_each}
use kuviewer.Upload.Graph.Schemas.{Schemas}
use kuviewer.Upload.LabelSelector.{
  LabelNamespaceRecord, label_is, label_selector_matches, matching_network_policy_namespaces,
}
use kuviewer.Upload.Object.{
  KubeObject, field_at, object_name, object_namespace, labels, unique_strings,
}

unfoldable pub labels_match : Dict Text → Dict Text → Bool
labels_match labels selector = all (λ e. label_is (lookup e.0 labels) e.1) selector

abbrev pub pod_id : BuildContext → KubeObject → Text
pod_id c pod = node_id c.cluster_id (object_namespace pod) (lit "Pod") (object_name pod)

abbrev pub namespace_id : BuildContext → Text → Text
namespace_id c namespace = node_id c.cluster_id [] (lit "Namespace") namespace

-- An inferred edge to a pod.
abbrev pub pod_edge : Text → Text → Text → BuildContext → KubeObject → BuildContext
pod_edge type source source_field c pod =
    add_edge c type source (pod_id c pod) source_field (lit "inferred")

-- The pods of a namespace that pass a test of their labels.
abbrev pub pods_of : Text → (Dict Text → Bool) → List KubeObject → List KubeObject
pods_of namespace test pods =
    filter (λ pod. text_eq (object_namespace pod) namespace && test (labels pod)) pods

module _ (s : Schemas) (pods : List KubeObject) where
  abbrev pub service_edges : BuildContext → KubeObject → BuildContext
  service_edges c service = elim (s.service_selector service) [
    | none ↦ c
    | some selector ↦
        if s.service_supports_selector_inference service
        then for_each
            (pod_edge (lit "service-endpoint")
              (node_id c.cluster_id (object_namespace service) (lit "Service")
                (object_name service))
              (lit "Service.spec.selector"))
            c (pods_of (object_namespace service) (λ l. labels_match l selector) pods)
        else c
  ]

  unfoldable pub add_service_selector_edges : BuildContext → List KubeObject → BuildContext
  add_service_selector_edges c services = for_each service_edges c services

unfoldable pub network_policy_types : KubeObject → List Text
network_policy_types o = elim (as_string_array (field_at o (lit "spec" ∷ lit "policyTypes" ∷ []))) [
  | t ∷ ts ↦ unique_strings (t ∷ ts)
  | [] ↦ elim (as_array (field_at o (lit "spec" ∷ lit "egress" ∷ []))) [
    | [] ↦ lit "Ingress" ∷ []
    | r ∷ rs ↦ lit "Ingress" ∷ lit "Egress" ∷ []
  ]
]

module _ (pods : List KubeObject) (namespaces : List LabelNamespaceRecord) where
  module _ (type source source_field policy_namespace : Text) where
    abbrev pub namespace_edge : BuildContext → Text → BuildContext
    namespace_edge c namespace =
        add_edge c type source (namespace_id c namespace) source_field (lit "inferred")

    -- A peer selects pods in the namespaces that it selects, or those namespaces.
    abbrev pub peer_edges : BuildContext → Fields → BuildContext
    peer_edges c peer =
        let pod_selector = at peer (lit "podSelector") in
        let namespace_selector = at peer (lit "namespaceSelector") in
        let matching =
          matching_network_policy_namespaces namespaces policy_namespace namespace_selector in
        if is_record (at peer (lit "ipBlock"))
          || (not (is_record pod_selector) && not (is_record namespace_selector))
        then c
        else if is_record pod_selector
        then for_each (pod_edge type source source_field) c (
            filter
              (λ pod.
                has (object_namespace pod) matching
                && label_selector_matches pod_selector (labels pod))
              pods)
        else for_each namespace_edge c matching

    unfoldable pub add_network_policy_peer_edges : Text → BuildContext → Fields → BuildContext
    add_network_policy_peer_edges peer_key c rule =
        for_each peer_edges c (as_array (at rule peer_key))

  -- Where the policy selects no pod it applies to its namespace.
  abbrev pub applies_to_edges : Text → Text → BuildContext → List KubeObject → BuildContext
  applies_to_edges id namespace c [] =
      add_edge c (lit "applies-to") id (namespace_id c namespace)
        (lit "NetworkPolicy.spec.podSelector") (lit "observed")
  applies_to_edges id namespace c (pod ∷ rest) =
      for_each (pod_edge (lit "applies-to") id (lit "NetworkPolicy.spec.podSelector")) c
        (pod ∷ rest)

  -- The rules of one direction, where the policy has its type.
  abbrev pub direction_edges :
      KubeObject → Text → Text → Text → Text → Text → Text → BuildContext → BuildContext
  direction_edges o policy_type rules_key peer_key type source_field id c =
      if has policy_type (network_policy_types o)
      then for_each
          (add_network_policy_peer_edges type id source_field (object_namespace o) peer_key) c
          (as_array (field_at o (lit "spec" ∷ rules_key ∷ [])))
      else c

  abbrev pub policy_edges : BuildContext → KubeObject → BuildContext
  policy_edges c o =
      let namespace = object_namespace o in
      let id = node_id c.cluster_id namespace (lit "NetworkPolicy") (object_name o) in
      let selector = field_at o (lit "spec" ∷ lit "podSelector" ∷ []) in
      let c1 =
        applies_to_edges id namespace c
          (pods_of namespace (label_selector_matches selector) pods) in
      let c2 =
        direction_edges o (lit "Ingress") (lit "ingress") (lit "from") (lit "allows-ingress")
          (lit "NetworkPolicy.spec.ingress.from") id c1 in
      direction_edges o (lit "Egress") (lit "egress") (lit "to") (lit "allows-egress")
        (lit "NetworkPolicy.spec.egress.to") id c2

  unfoldable pub add_network_policy_edges : BuildContext → List KubeObject → BuildContext
  add_network_policy_edges c policies = for_each policy_edges c policies

-- The namespaces by name, with the labels of their objects: of two with one name, the last.
unfoldable pub namespace_records : List Text → List KubeObject → List LabelNamespaceRecord
namespace_records namespaces objects =
    let by_name : Dict (Dict Text) = from_entries (map (λ o. (object_name o, labels o)) objects) in
    map
      (λ name. record {
        name = name;
        labels = elim (lookup name by_name) [ none ↦ [] | some l ↦ l ];
      })
      (sort_by text_compare namespaces)
