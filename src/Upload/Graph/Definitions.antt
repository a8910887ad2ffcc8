-- ===== src/Upload/Graph/Definitions.antt =====
-- The custom resource definitions of an upload, and the kind of an object:
-- `customResourceDefinitionRecords` and `normalizeObjectKind` of parseKubernetesFiles.ts.
use kuviewer.Base.{
  Bool, true, false, ◌&&◌, Option, none, some, List, [], ◌∷◌, ◌++◌, map, if◌then◌else◌, Text, lit,
  truthy, or_text, text_eq, has, split, join, filter, any, find, flat_map,
}
use kuviewer.Base.Sort.{text_compare, sort_by}
use kuviewer.Json.{bool, str, Fields, at, as_array, is_text}
use kuviewer.Upload.Object.{
  KubeObject, field_at, text_at, object_kind, object_name, api_version,
  normalize_upload_resource_kind,
}

pub record Definition : Type 0 where
  pub name : Text
  pub group : Text
  pub kind : Text
  pub versions : List Text
  pub scope : Text

abbrev pub versions_of : KubeObject → List Fields
versions_of o = as_array (field_at o (lit "spec" ∷ lit "versions" ∷ []))

-- The name of a version that has the given mark.
abbrev pub marked_version : Text → Fields → List Text
marked_version mark fs = elim (at fs mark) [
  | bool true ↦ elim (at fs (lit "name")) [ str s ↦ s ∷ [] | _ ↦ [] ]
  | _ ↦ []
]

abbrev pub first_or_blank : List Text → Text
first_or_blank [] = []
first_or_blank (x ∷ xs) = x

unfoldable pub crd_served_versions : KubeObject → List Text
crd_served_versions o =
    sort_by text_compare (flat_map (marked_version (lit "served")) (versions_of o))

unfoldable pub crd_storage_version : KubeObject → Text
crd_storage_version o = first_or_blank (flat_map (marked_version (lit "storage")) (versions_of o))

unfoldable pub crd_established : KubeObject → Bool
crd_established o =
    any
      (λ fs.
        is_text (at fs (lit "type")) (lit "Established")
        && is_text (at fs (lit "status")) (lit "True"))
      (as_array (field_at o (lit "status" ∷ lit "conditions" ∷ [])))

-- The served versions, or the stored one where none is served.
abbrev pub known_versions : List Text → Text → List Text
known_versions [] [] = []
known_versions [] (c ∷ s) = (c ∷ s) ∷ []
known_versions (v ∷ vs) stored = v ∷ vs

abbrev pub definition_of : KubeObject → Definition
definition_of o = record {
  name = object_name o;
  group = text_at o (lit "spec" ∷ lit "group" ∷ []);
  kind = text_at o (lit "spec" ∷ lit "names" ∷ lit "kind" ∷ []);
  versions = known_versions (crd_served_versions o) (crd_storage_version o);
  scope = or_text (text_at o (lit "spec" ∷ lit "scope" ∷ [])) (lit "-");
}

abbrev pub is_complete : Definition → Bool
is_complete d =
    truthy d.name
    && truthy d.group
    && truthy d.kind
    && (elim d.versions [ [] ↦ false | _ ∷ _ ↦ true ])

unfoldable pub custom_resource_definition_records : List KubeObject → List Definition
custom_resource_definition_records objects = filter is_complete (
    map definition_of
      (filter (λ o. text_eq (object_kind o) (lit "CustomResourceDefinition")) objects))

abbrev pub last_of : Text → List Text → Text
last_of p [] = p
last_of p (q ∷ ps) = last_of q ps

abbrev pub all_but_last : Text → List Text → List Text
all_but_last p [] = []
all_but_last p (q ∷ ps) = p ∷ all_but_last q ps

-- The group and the version. One part alone is a version: `join` of no parts is blank.
unfoldable pub api_version_parts : Text → Text × Text
api_version_parts version = elim (split b'/' version) [
  | [] ↦ ([], [])
  | p ∷ ps ↦ (join (lit "/") (all_but_last p ps), last_of p ps)
]

abbrev pub defines : Text → Text → Text → Definition → Bool
defines group version kind d =
    text_eq d.group group && text_eq d.kind kind && has version d.versions

unfoldable pub custom_resource_definition_for_object :
    KubeObject → List Definition → Option Definition
custom_resource_definition_for_object o definitions =
    let (group, version) = api_version_parts (api_version o) in
    if truthy (object_kind o) && truthy (api_version o) && truthy group && truthy version
    then find (defines group version (object_kind o)) definitions
    else none

-- The kind of an object with its definition, if it is of a custom resource: none where the kind is
-- not supported.
unfoldable pub normalize_object_kind :
    KubeObject → List Definition → Option (Text × Option Definition)
normalize_object_kind o definitions = elim (normalize_upload_resource_kind (object_kind o)) [
  | some kind ↦ some (kind, none)
  | none ↦ elim (custom_resource_definition_for_object o definitions) [
    | some d ↦ some (lit "CustomResource", some d)
    | none ↦ none
  ]
]

-- `objectNameForKind`: a custom resource is shown with its kind.
unfoldable pub object_name_for_kind : Text → KubeObject → Text
object_name_for_kind kind o =
    if text_eq kind (lit "CustomResource")
    then or_text (object_kind o) (lit "CustomResource") ++ (b':' ∷ object_name o)
    else object_name o
