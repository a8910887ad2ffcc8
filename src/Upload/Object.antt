-- ===== src/Upload/Object.antt =====
-- `KubeObject`, of website/src/features/upload/kubernetesObject.ts, and the kinds that uploads may
-- have, of uploadResourceKinds.ts. An object is the fields of a parsed document. A field to which
-- `KubeObject` gives a type counts as missing where a document has a value of another type there.
use kuviewer.Base.{
  Bool, ◌&&◌, Option, none, some, List, [], ◌∷◌, if◌then◌else◌, Text, lit, truthy, has, ◌≡◌, refl,
  false, text_eq,
}
use kuviewer.Base.Dict.{Dict}
use kuviewer.Base.Sets.{set_of}
use kuviewer.Base.Sort.{text_compare, sort_by}
use kuviewer.Json.{Value, str, obj, Fields, entries, read_at, string_at, as_array}

abbrev pub KubeObject : Type 0
KubeObject = Fields

-- `readAt` and `stringAt` on an object.
unfoldable pub field_at : KubeObject → List Text → Value
field_at o path = read_at (obj o) path

unfoldable pub text_at : KubeObject → List Text → Text
text_at o path = string_at (obj o) path

unfoldable pub object_kind : KubeObject → Text
unfolding text_at
object_kind o = text_at o (lit "kind" ∷ [])

unfoldable pub api_version : KubeObject → Text
unfolding text_at
api_version o = text_at o (lit "apiVersion" ∷ [])

-- `object.metadata?.name || ''` and `object.metadata?.namespace || ''`.
unfoldable pub object_name : KubeObject → Text
unfolding text_at
object_name o = text_at o (lit "metadata" ∷ lit "name" ∷ [])

unfoldable pub object_namespace : KubeObject → Text
unfolding text_at
object_namespace o = text_at o (lit "metadata" ∷ lit "namespace" ∷ [])

-- `object.kind && object.metadata?.name`.
unfoldable pub is_named : KubeObject → Bool
unfolding object_kind object_name
is_named o = truthy (object_kind o) && truthy (object_name o)

-- `Record<string, string>`.
abbrev pub text_entries : Dict Value → Dict Text
text_entries [] = []
text_entries ((k, str s) ∷ es) = (k, s) ∷ text_entries es
text_entries (e ∷ es) = text_entries es

unfoldable pub labels : KubeObject → Dict Text
unfolding field_at
labels o = elim (field_at o (lit "metadata" ∷ lit "labels" ∷ [])) [
  | obj fs ↦ text_entries (entries fs)
  | _ ↦ []
]

unfoldable pub owner_references : KubeObject → List Fields
unfolding field_at
owner_references o = as_array (field_at o (lit "metadata" ∷ lit "ownerReferences" ∷ []))

unfoldable pub unique_strings : List Text → List Text
unique_strings xs = sort_by text_compare (set_of xs)

unfoldable pub supported_upload_kinds : List Text
supported_upload_kinds =
    lit "Cluster"
    ∷ lit "Namespace"
    ∷ lit "Node"
    ∷ lit "Deployment"
    ∷ lit "ReplicaSet"
    ∷ lit "StatefulSet"
    ∷ lit "DaemonSet"
    ∷ lit "Job"
    ∷ lit "CronJob"
    ∷ lit "HorizontalPodAutoscaler"
    ∷ lit "Pod"
    ∷ lit "ServiceAccount"
    ∷ lit "Service"
    ∷ lit "EndpointSlice"
    ∷ lit "Ingress"
    ∷ lit "Gateway"
    ∷ lit "HTTPRoute"
    ∷ lit "GRPCRoute"
    ∷ lit "TLSRoute"
    ∷ lit "TCPRoute"
    ∷ lit "NetworkPolicy"
    ∷ lit "ConfigMap"
    ∷ lit "Secret"
    ∷ lit "PersistentVolumeClaim"
    ∷ lit "PersistentVolume"
    ∷ lit "StorageClass"
    ∷ lit "CustomResourceDefinition"
    ∷ []

-- A string that is one of the kinds; any other value comes here as the empty string.
unfoldable pub normalize_upload_resource_kind : Text → Option Text
unfolding supported_upload_kinds
normalize_upload_resource_kind kind = if has kind supported_upload_kinds then some kind else none

-- CustomResource is a kind of nodes, not one that a manifest has.
pub no_custom_kind : has (lit "CustomResource") supported_upload_kinds ≡ false
unfolding has supported_upload_kinds text_eq lit
no_custom_kind = refl
