-- ===== src/Upload/Schemas/Workload.antt =====
-- website/src/features/upload/workloadSchema.ts: the pod templates of workloads, `parseTemplate`.
pub mod Counts
pub mod Distinct
use kuviewer.Base.{
  ℕ, ◌+◌, Bool, true, false, not, ◌&&◌, ◌||◌, Option, none, some, List, [], ◌∷◌, ◌++◌, Text, lit,
  text_eq, truthy, has, all, length, leb, ltb, ◌==◌, join, split, if◌then◌else◌, ◌>>=◌, ◌>>◌, guard,
}
use kuviewer.Base.Sort.{text_compare, sort_by}
use kuviewer.Json.{Value, undefined, str, obj, Fields, at, is_nullish, is_record, as_record}
use kuviewer.Upload.Graph.Schemas.{WorkloadReference}
use kuviewer.Upload.Object.{KubeObject, field_at}
use kuviewer.Upload.Schemas.Images.{valid_upload_container_image, record_array}
use kuviewer.Upload.Values.{valid_dns_label}

abbrev pub max_containers : ℕ
max_containers = 64

abbrev pub max_container_entries : ℕ
max_container_entries = 128

-- `validReferenceName` of the workloads.
unfoldable pub valid_workload_name : Text → Bool
valid_workload_name s = leb (length s) 253 && all valid_dns_label (split b'.' s)

-- The references so far and the keys of those that were seen.
pub record References : Type 0 where
  pub seen : List Text
  pub references : List WorkloadReference

-- `` `${kind}\u0000${name}\u0000${edgeType}\u0000${sourceField}` ``.
abbrev pub reference_key : WorkloadReference → Text
reference_key r = r.kind ++ (0 ∷ (r.name ++ (0 ∷ (r.edge_type ++ (0 ∷ r.source_field)))))

-- A reference is added once; more than so many are refused, after the last was added.
abbrev pub include : WorkloadReference → References → Option References
include r s =
    if has (reference_key r) s.seen
    then (if leb (length s.references) max_container_entries then some s else none)
    else if leb (length s.references + 1) max_container_entries
    then some (record { seen = reference_key r ∷ s.seen; references = s.references ++ (r ∷ []) })
    else none

-- `addReference`: none where it returns false.
unfoldable pub add_reference : Text → Value → Text → Text → References → Option References
add_reference kind (str name) edge_type source_field s =
    if valid_workload_name name
    then include
        (record { kind = kind; name = name; edge_type = edge_type; source_field = source_field }) s
    else none
add_reference kind _ edge_type source_field s = none

-- What a field may refer to: the name's value is undefined where the field holds no object.
pub record Candidate : Type 0 where
  pub kind : Text
  pub name : Value
  pub source_field : Text

abbrev pub candidate : Fields → Text → Text → Text → Text → List Candidate
candidate fs key kind name_key source_field =
    if is_nullish (at fs key)
    then []
    else record {
      kind = kind;
      name = elim (at fs key) [ obj gs ↦ at gs name_key | _ ↦ undefined ];
      source_field = source_field;
    }
      ∷ []

unfoldable pub add_candidates : Text → List Candidate → References → Option References
add_candidates edge_type [] s = some s
add_candidates edge_type (c ∷ cs) s =
    add_reference c.kind c.name edge_type c.source_field s >>= λ t. add_candidates edge_type cs t

-- A loop over objects that ends at the first that is refused.
unfoldable pub each_object :
    (Fields → References → Option References) → List Fields → References → Option References
each_object step [] s = some s
each_object step (fs ∷ rest) s = step fs s >>= λ t. each_object step rest t

unfoldable pub workload_pod_spec_path : Text → List Text
workload_pod_spec_path kind =
    if text_eq kind (lit "CronJob")
    then lit "spec" ∷ lit "jobTemplate" ∷ lit "spec" ∷ lit "template" ∷ lit "spec" ∷ []
    else lit "spec" ∷ lit "template" ∷ lit "spec" ∷ []

-- How many values are there: one or none.
abbrev pub present : Value → ℕ
present v = if is_nullish v then 0 else 1

unfoldable pub valid_local_env_sources : Fields → ℕ → Bool
valid_local_env_sources fs sources =
    let field_ref = at fs (lit "fieldRef") in
    let resource_ref = at fs (lit "resourceFieldRef") in
    (sources + (present field_ref + present resource_ref)) == 1
    && (is_nullish field_ref || is_record field_ref)
    && (is_nullish resource_ref || is_record resource_ref)

module _ (prefix : Text) where
  abbrev pub service_account : Value → References → Option References
  service_account (str s) r =
      if truthy s
      then add_reference (lit "ServiceAccount") (str s) (lit "uses-service-account")
          (prefix ++ lit ".serviceAccountName") r
      else some r
  service_account v r = if is_nullish v then some r else none

  abbrev pub pull_secret : Fields → References → Option References
  pull_secret fs r =
      add_reference (lit "Secret") (at fs (lit "name")) (lit "env-from")
        (prefix ++ lit ".imagePullSecrets") r

  abbrev pub template_volume : Fields → References → Option References
  template_volume fs r =
      let candidates =
        candidate fs (lit "configMap") (lit "ConfigMap") (lit "name")
          (prefix ++ lit ".volumes.configMap")
        ++ (candidate fs (lit "secret") (lit "Secret") (lit "secretName")
              (prefix ++ lit ".volumes.secret")
            ++ candidate fs (lit "persistentVolumeClaim") (lit "PersistentVolumeClaim")
                (lit "claimName") (prefix ++ lit ".volumes.persistentVolumeClaim")) in
      if ltb 1 (length candidates) then none else add_candidates (lit "mounts") candidates r

  abbrev pub template_env_from : Fields → References → Option References
  template_env_from fs r =
      let candidates =
        candidate fs (lit "configMapRef") (lit "ConfigMap") (lit "name")
          (prefix ++ lit ".containers.envFrom.configMapRef")
        ++ candidate fs (lit "secretRef") (lit "Secret") (lit "name")
            (prefix ++ lit ".containers.envFrom.secretRef") in
      if length candidates == 1 then add_candidates (lit "env-from") candidates r else none

  abbrev pub value_from : Fields → References → Option References
  value_from fs r =
      let candidates =
        candidate fs (lit "configMapKeyRef") (lit "ConfigMap") (lit "name")
          (prefix ++ lit ".containers.env.valueFrom.configMapKeyRef")
        ++ candidate fs (lit "secretKeyRef") (lit "Secret") (lit "name")
            (prefix ++ lit ".containers.env.valueFrom.secretKeyRef") in
      if valid_local_env_sources fs (length candidates)
      then add_candidates (lit "env-from") candidates r
      else none

  abbrev pub template_env : Fields → References → Option References
  template_env fs r = elim (at fs (lit "valueFrom")) [
    | obj gs ↦ value_from gs r
    | v ↦ if is_nullish v then some r else none
  ]

  unfoldable pub collect_container_references : Fields → References → Option References
  collect_container_references fs r = do
    env_from ← record_array (at fs (lit "envFrom")) max_container_entries
    env ← record_array (at fs (lit "env")) max_container_entries
    s ← each_object template_env_from env_from r
    each_object template_env env s

-- The name of a container, new among those seen, and its image: blank where there is none.
abbrev pub new_name : List Text → Value → Option Text
new_name seen (str s) = if valid_dns_label s && not (has s seen) then some s else none
new_name seen _ = none

abbrev pub template_image : Value → Option Text
template_image (str s) = if valid_upload_container_image s then some s else none
template_image v = if is_nullish v then some [] else none

-- What the loop over the containers gathers.
pub record Gathered : Type 0 where
  pub names : List Text
  pub images : List Text
  pub found : References

abbrev pub with_image : Text → List Text → List Text
with_image image images =
    if truthy image && not (has image images) then images ++ (image ∷ []) else images

unfoldable pub add_container : Text → Gathered → Fields → Option Gathered
add_container prefix g fs = do
  name ← new_name g.names (at fs (lit "name"))
  image ← template_image (at fs (lit "image"))
  found ← collect_container_references prefix fs g.found
  some (record { names = name ∷ g.names; images = with_image image g.images; found = found })

unfoldable pub add_containers : Text → Gathered → List Fields → Option Gathered
add_containers prefix g [] = some g
add_containers prefix g (fs ∷ rest) =
    add_container prefix g fs >>= λ h. add_containers prefix h rest

pub record ParsedTemplate : Type 0 where
  pub containers : ℕ
  pub init_containers : ℕ
  pub images : List Text
  pub references : List WorkloadReference

-- The references of the template itself: its account, pull secrets and volumes.
unfoldable pub template_references : Text → Fields → Option References
template_references prefix spec = do
  secrets ← record_array (at spec (lit "imagePullSecrets")) max_container_entries
  volumes ← record_array (at spec (lit "volumes")) max_container_entries
  r ←
      service_account prefix (at spec (lit "serviceAccountName"))
        (record { seen = []; references = [] })
  r1 ← each_object (pull_secret prefix) secrets r
  each_object (template_volume prefix) volumes r1

abbrev pub template_of : List Fields → List Fields → Gathered → ParsedTemplate
template_of containers inits g = record {
  containers = length containers;
  init_containers = length inits;
  images = sort_by text_compare g.images;
  references = g.found.references;
}

unfoldable pub parse_pod_spec : Text → Fields → Option ParsedTemplate
parse_pod_spec prefix spec = do
  containers ← record_array (at spec (lit "containers")) max_containers
  inits ← record_array (at spec (lit "initContainers")) max_containers
  guard (ltb 0 (length containers) && leb (length containers + length inits) max_containers)
  r ← template_references prefix spec
  g ← add_containers prefix (record { names = []; images = []; found = r }) (inits ++ containers)
  some (template_of containers inits g)

unfoldable pub parse_template : Text → KubeObject → Option ParsedTemplate
parse_template kind o =
    let path = workload_pod_spec_path kind in
    as_record (field_at o path) >>= λ spec.
    parse_pod_spec (kind ++ (b'.' ∷ join (lit ".") path)) spec
