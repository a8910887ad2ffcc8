-- ===== src/Upload/Graph/Edges.antt =====
-- The edges of one object: `addObjectEdges`, `addPodEdges` and `addCustomResourceReferenceEdges` of
-- parseKubernetesFiles.ts.
use kuviewer.Base.{
  Option, none, some, List, [], ◌∷◌, ◌++◌, if◌then◌else◌, Text, lit, truthy, text_eq, has,
}
use kuviewer.Json.{Fields, obj, at, as_array, string_at}
use kuviewer.Upload.Graph.{BuildContext, node_id, add_edge, ensure_reference_node, for_each}
use kuviewer.Upload.Graph.Definitions.{Definition, normalize_object_kind, object_name_for_kind}
use kuviewer.Upload.Graph.Schemas.{
  Schemas, WorkloadReference, NamespacedReference, KindReference, CustomResourceReference,
  is_upload_workload_kind, is_upload_storage_kind, is_gateway_route_kind,
}
use kuviewer.Upload.Object.{
  KubeObject, field_at, text_at, object_namespace, owner_references, normalize_upload_resource_kind,
}

-- `ensureReferenceNode` and `addEdge` to it, which the source writes out at each reference.
unfoldable pub refer_to : BuildContext → Text → Text → Text → Text → Text → Text → BuildContext
refer_to c type source kind namespace name source_field =
    add_edge (ensure_reference_node c kind namespace name) type source
      (node_id c.cluster_id namespace kind name) source_field (lit "observed")

-- The same under `if (name)`.
unfoldable pub refer_to_named :
    BuildContext → Text → Text → Text → Text → Text → Text → BuildContext
refer_to_named c type source kind namespace name source_field =
    if truthy name then refer_to c type source kind namespace name source_field else c

module _ (pod_id namespace : Text) where
  abbrev pub env_from_entry : BuildContext → Fields → BuildContext
  env_from_entry c entry =
      let config_map = string_at (obj entry) (lit "configMapRef" ∷ lit "name" ∷ []) in
      let secret = string_at (obj entry) (lit "secretRef" ∷ lit "name" ∷ []) in
      let c1 =
        refer_to_named c (lit "env-from") pod_id (lit "ConfigMap") namespace config_map
          (lit "Pod.spec.containers.envFrom.configMapRef") in
      refer_to_named c1 (lit "env-from") pod_id (lit "Secret") namespace secret
        (lit "Pod.spec.containers.envFrom.secretRef")

  abbrev pub env_entry : BuildContext → Fields → BuildContext
  env_entry c entry =
      let config_map =
        string_at (obj entry) (lit "valueFrom" ∷ lit "configMapKeyRef" ∷ lit "name" ∷ []) in
      let secret = string_at (obj entry) (lit "valueFrom" ∷ lit "secretKeyRef" ∷ lit "name" ∷ []) in
      let c1 =
        refer_to_named c (lit "env-from") pod_id (lit "ConfigMap") namespace config_map
          (lit "Pod.spec.containers.env.valueFrom.configMapKeyRef") in
      refer_to_named c1 (lit "env-from") pod_id (lit "Secret") namespace secret
        (lit "Pod.spec.containers.env.valueFrom.secretKeyRef")

  abbrev pub container_edges : BuildContext → Fields → BuildContext
  container_edges c container =
      let c1 = for_each env_from_entry c (as_array (at container (lit "envFrom"))) in
      for_each env_entry c1 (as_array (at container (lit "env")))

  abbrev pub volume_edges : BuildContext → Fields → BuildContext
  volume_edges c volume =
      let config_map = string_at (obj volume) (lit "configMap" ∷ lit "name" ∷ []) in
      let secret = string_at (obj volume) (lit "secret" ∷ lit "secretName" ∷ []) in
      let claim = string_at (obj volume) (lit "persistentVolumeClaim" ∷ lit "claimName" ∷ []) in
      let c1 =
        refer_to_named c (lit "mounts") pod_id (lit "ConfigMap") namespace config_map
          (lit "Pod.spec.volumes.configMap") in
      let c2 =
        refer_to_named c1 (lit "mounts") pod_id (lit "Secret") namespace secret
          (lit "Pod.spec.volumes.secret") in
      refer_to_named c2 (lit "binds-storage") pod_id (lit "PersistentVolumeClaim") namespace claim
        (lit "Pod.spec.volumes.persistentVolumeClaim")

-- The containers that `forEachContainer` visits.
unfoldable pub containers_of : KubeObject → List Fields
containers_of o =
    as_array (field_at o (lit "spec" ∷ lit "containers" ∷ []))
    ++ as_array (field_at o (lit "spec" ∷ lit "initContainers" ∷ []))

unfoldable pub add_pod_edges : BuildContext → KubeObject → Text → Text → BuildContext
add_pod_edges c pod pod_id namespace =
    let node_name = text_at pod (lit "spec" ∷ lit "nodeName" ∷ []) in
    let service_account = text_at pod (lit "spec" ∷ lit "serviceAccountName" ∷ []) in
    let c1 =
      refer_to_named c (lit "scheduled-on") pod_id (lit "Node") [] node_name
        (lit "Pod.spec.nodeName") in
    let c2 =
      refer_to_named c1 (lit "uses-service-account") pod_id (lit "ServiceAccount") namespace
        service_account (lit "Pod.spec.serviceAccountName") in
    let c3 = for_each (container_edges pod_id namespace) c2 (containers_of pod) in
    for_each (volume_edges pod_id namespace) c3
      (as_array (field_at pod (lit "spec" ∷ lit "volumes" ∷ [])))

-- An `owns` edge, as `addObjectEdges` adds them.
abbrev pub owned : BuildContext → Text → Text → Text → Text → Text → BuildContext
owned c namespace kind name object_id source_field =
    add_edge c (lit "owns") (node_id c.cluster_id namespace kind name) object_id source_field
      (lit "observed")

abbrev pub owner_edge : Text → Text → BuildContext → Fields → BuildContext
owner_edge namespace object_id c owner =
    elim (normalize_upload_resource_kind (string_at (obj owner) (lit "kind" ∷ []))) [
      | none ↦ c
      | some kind ↦
          let name = string_at (obj owner) (lit "name" ∷ []) in
          if truthy name
          then owned c namespace kind name object_id (lit "metadata.ownerReferences")
          else c
    ]

abbrev pub claim_volume_field : Text → Text → Text
claim_volume_field kind reference =
    if text_eq reference (lit "PersistentVolume")
    then lit "PersistentVolumeClaim.spec.volumeName"
    else kind ++ lit ".spec.storageClassName"

module _ (s : Schemas) where
  abbrev pub custom_resource_reference_edge :
      Text → BuildContext → CustomResourceReference → BuildContext
  custom_resource_reference_edge object_id c r =
      let target = node_id c.cluster_id r.namespace r.kind r.name in
      if has target c.node_set
      then add_edge c (lit "references") object_id target r.source_field (lit "inferred")
      else c

  unfoldable pub add_custom_resource_reference_edges :
      BuildContext → KubeObject → Text → Definition → List Definition → BuildContext
  add_custom_resource_reference_edges c o object_id definition definitions =
      for_each (custom_resource_reference_edge object_id) c (
        s.infer_custom_resource_references (field_at o (lit "spec" ∷ [])) (object_namespace o)
          definition definitions)

  module _ (o : KubeObject) (object_id namespace kind : Text) where
    abbrev pub workload_edges : BuildContext → BuildContext
    workload_edges c =
        if s.workload_template_is_valid kind o
        then for_each
            (λ c (r : WorkloadReference).
              refer_to c r.edge_type object_id r.kind namespace r.name r.source_field)
            c (s.workload_references kind o)
        else c

    abbrev pub ingress_edges : BuildContext → BuildContext
    ingress_edges c =
        if s.ingress_spec_is_valid o
        then for_each
            (λ c name.
              refer_to c (lit "routes-to") object_id (lit "Service") namespace name
                (lit "Ingress.spec.rules.http.paths.backend.service"))
            c (s.ingress_service_names o)
        else c

    abbrev pub gateway_edge : BuildContext → NamespacedReference → BuildContext
    gateway_edge c r =
        refer_to c (lit "attaches-to") object_id (lit "Gateway") r.namespace r.name
          (kind ++ lit ".spec.parentRefs")

    abbrev pub backend_edge : BuildContext → NamespacedReference → BuildContext
    backend_edge c r =
        refer_to c (lit "routes-to") object_id (lit "Service") r.namespace r.name
          (kind ++ lit ".spec.rules.backendRefs")

    abbrev pub gateway_route_edges : BuildContext → BuildContext
    gateway_route_edges c =
        if s.gateway_route_spec_is_valid kind o
        then for_each backend_edge
            (for_each gateway_edge c (s.gateway_route_parent_gateways o namespace))
            (s.gateway_route_backend_services o namespace)
        else c

    abbrev pub scale_edge : BuildContext → Text → Text → BuildContext
    scale_edge c target name = elim (normalize_upload_resource_kind target) [
      | none ↦ c
      | some target_kind ↦
          refer_to_named c (lit "targets-scale") object_id target_kind namespace name
            (lit "HorizontalPodAutoscaler.spec.scaleTargetRef")
    ]

    abbrev pub hpa_edges : BuildContext → BuildContext
    hpa_edges c =
        if s.hpa_spec_is_valid o
        then elim (s.hpa_scale_target o) [ none ↦ c | some r ↦ scale_edge c r.kind r.name ]
        else c

    abbrev pub storage_edges : BuildContext → BuildContext
    storage_edges c =
        for_each
          (λ c (r : KindReference).
            refer_to c (lit "binds-storage") object_id r.kind [] r.name
              (claim_volume_field kind r.kind))
          c (s.storage_references kind o)

    -- The edges that depend on the kind. No two of the source's tests hold of one kind.
    unfoldable pub kind_edges : BuildContext → BuildContext
    kind_edges c =
        if text_eq kind (lit "Pod")
        then add_pod_edges c o object_id namespace
        else if is_upload_workload_kind kind
        then workload_edges c
        else if text_eq kind (lit "Ingress")
        then ingress_edges c
        else if is_gateway_route_kind kind
        then gateway_route_edges c
        else if text_eq kind (lit "HorizontalPodAutoscaler")
        then hpa_edges c
        else if is_upload_storage_kind kind
        then storage_edges c
        else c

  -- From the owners and the namespace.
  unfoldable pub owns_edges : KubeObject → Text → BuildContext → BuildContext
  owns_edges o object_id c =
      let namespace = object_namespace o in
      let c1 = for_each (owner_edge namespace object_id) c (owner_references o) in
      if truthy namespace
      then owned c1 [] (lit "Namespace") namespace object_id (lit "metadata.namespace")
      else c1

  -- The edges of an object of a known kind and name.
  abbrev pub named_object_edges :
      List Definition → KubeObject → Text → Option Definition → Text → BuildContext → BuildContext
  named_object_edges definitions o kind none name c =
      let object_id = node_id c.cluster_id (object_namespace o) kind name in
      kind_edges o object_id (object_namespace o) kind (owns_edges o object_id c)
  named_object_edges definitions o kind (some d) name c =
      let object_id = node_id c.cluster_id (object_namespace o) kind name in
      let c1 =
        owned (owns_edges o object_id c) [] (lit "CustomResourceDefinition") d.name object_id
          (lit "CustomResourceDefinition.spec.names.kind") in
      add_custom_resource_reference_edges c1 o object_id d definitions

  unfoldable pub add_object_edges : List Definition → BuildContext → KubeObject → BuildContext
  add_object_edges definitions c o = elim (normalize_object_kind o definitions) [
    | none ↦ c
    | some (kind, definition) ↦
        let name = object_name_for_kind kind o in
        if truthy name then named_object_edges definitions o kind definition name c else c
  ]
