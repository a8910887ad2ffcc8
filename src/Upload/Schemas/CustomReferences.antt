-- ===== src/Upload/Schemas/CustomReferences.antt =====
-- website/src/features/upload/customResourceReferences.ts: the references that a custom resource's
-- specification seems to have. The specification is a tree here: the source visits an object that
-- a YAML document shares between two places only at the first of them.
pub mod Bounds
pub mod Inferred
use kuviewer.Base.{
  ℕ, ◌+◌, Bool, true, false, not, ◌&&◌, ◌||◌, Option, none, some, List, [], ◌∷◌, ◌++◌, map, Text,
  lit, text_eq, truthy, or_text, has, any, find, length, leb, ltb, take, trim, if◌then◌else◌,
}
use kuviewer.Base.Decimal.{decimal}
use kuviewer.Json.{
  Value, undefined, null, bool, num, str, arr, obj, Items, nil, cons, Fields, end, field, at,
}
use kuviewer.Platform.{Platform}
use kuviewer.Upload.Graph.Definitions.{Definition, api_version_parts, defines}
use kuviewer.Upload.Graph.Schemas.{CustomResourceReference}
use kuviewer.Upload.LabelSelector.Summary.{mask_control}
use kuviewer.Upload.Object.{normalize_upload_resource_kind}
use kuviewer.Upload.Values.{ends_with}

abbrev pub max_references : ℕ
max_references = 80

abbrev pub max_traversal_depth : ℕ
max_traversal_depth = 32

abbrev pub max_visited_values : ℕ
max_visited_values = 5000

abbrev pub max_path_length : ℕ
max_path_length = 512

abbrev pub max_path_segment_length : ℕ
max_path_segment_length = 120

unfoldable pub cluster_scoped_kinds : List Text
cluster_scoped_kinds =
    lit "Cluster"
    ∷ lit "Namespace"
    ∷ lit "Node"
    ∷ lit "PersistentVolume"
    ∷ lit "StorageClass"
    ∷ lit "CustomResourceDefinition"
    ∷ []

pub record Traversal : Type 0 where
  pub references : List CustomResourceReference
  pub visited_values : ℕ

abbrev pub push_reference : CustomResourceReference → Traversal → Traversal
push_reference r s = record s { references = s.references ++ (r ∷ []) }

abbrev pub is_full : Traversal → Bool
is_full s = leb max_references (length s.references)

-- No more references or values are looked at.
abbrev pub is_over : Traversal → Bool
is_over s = is_full s || leb max_visited_values s.visited_values

-- `stringValue`.
unfoldable pub string_value : Value → Text
string_value (str s) = trim s
string_value _ = []

unfoldable pub append_path : Text → Text → Text
append_path path key =
    take max_path_length (path ++ (b'.' ∷ take max_path_segment_length (map mask_control key)))

unfoldable pub append_index : Text → ℕ → Text
append_index path index = take max_path_length (path ++ (b'[' ∷ (decimal index ++ (b']' ∷ []))))

-- `/(Ref|Refs|Reference|References)$/`.
unfoldable pub is_reference_field_name : Text → Bool
is_reference_field_name key =
    any (λ e. ends_with e key) (lit "Ref" ∷ lit "Refs" ∷ lit "Reference" ∷ lit "References" ∷ [])

-- Of the pairs of keys and kinds, the kind of the key.
abbrev pub kind_among : List (List Text × Text) → Text → Option Text
kind_among [] key = none
kind_among ((known, kind) ∷ rest) key = if has key known then some kind else kind_among rest key

unfoldable pub target_namespace_for_kind : Text → Text → Definition → Text
target_namespace_for_kind kind namespace d =
    if (text_eq kind (lit "CustomResource") && text_eq d.scope (lit "Cluster"))
      || has kind cluster_scoped_kinds
    then []
    else namespace

unfoldable pub custom_resource_definition_for_reference :
    Text → Text → List Definition → Option Definition
custom_resource_definition_for_reference version kind definitions =
    let (group, name) = api_version_parts version in
    if truthy group && truthy name then find (defines group name kind) definitions else none

-- The keys that tell a kind of the object they hold, and those that tell one of the name they hold.
unfoldable pub reference_key_kinds : List (List Text × Text)
reference_key_kinds =
    (lit "secretref" ∷ lit "secretrefs" ∷ [], lit "Secret")
    ∷ (lit "configmapref" ∷ lit "configmaprefs" ∷ [], lit "ConfigMap")
    ∷ (lit "serviceaccountref" ∷ lit "serviceaccountrefs" ∷ [], lit "ServiceAccount")
    ∷ (
      lit "serviceref" ∷ lit "servicerefs" ∷ lit "backendref" ∷ lit "backendrefs" ∷ [],
      lit "Service",
    )
    ∷ []

unfoldable pub name_key_kinds : List (List Text × Text)
name_key_kinds =
    (lit "secretname" ∷ [], lit "Secret")
    ∷ (lit "configmapname" ∷ [], lit "ConfigMap")
    ∷ (lit "serviceaccountname" ∷ [], lit "ServiceAccount")
    ∷ (lit "servicename" ∷ [], lit "Service")
    ∷ []

module _ (js : Platform) where
  unfoldable pub custom_resource_reference_kind_from_key : Text → Option Text
  unfolding reference_key_kinds
  custom_resource_reference_kind_from_key key = kind_among reference_key_kinds (js.lower key)

  unfoldable pub custom_resource_reference_kind_from_name_key : Text → Option Text
  unfolding name_key_kinds
  custom_resource_reference_kind_from_name_key key = kind_among name_key_kinds (js.lower key)

  module _ (default_namespace : Text) (source : Definition) (definitions : List Definition) where
    -- The reference of a known kind.
    abbrev pub reference_of :
        Fields → Text → Text → Text → Definition → Text → CustomResourceReference
    reference_of fs kind kind_name name d source_field = record {
      kind = kind;
      namespace =
          target_namespace_for_kind kind
            (or_text (string_value (at fs (lit "namespace"))) default_namespace) d;
      name =
          if text_eq kind (lit "CustomResource")
          then or_text kind_name (or_text d.kind (lit "CustomResource")) ++ (b':' ∷ name)
          else name;
      source_field = source_field;
    }

    -- Where no definition fits: the kind that the object names, or that the key tells.
    abbrev pub native_reference :
        Fields → Option Text → Text → Text → Text → Option CustomResourceReference
    native_reference fs fallback kind_name name source_field =
        elim (normalize_upload_resource_kind kind_name) [
          | some kind ↦ some (reference_of fs kind kind_name name source source_field)
          | none ↦ elim fallback [
            | some kind ↦ some (reference_of fs kind kind_name name source source_field)
            | none ↦ none
          ]
        ]

    unfoldable pub custom_resource_reference_from_object :
        Fields → Option Text → Text → Option CustomResourceReference
    custom_resource_reference_from_object fs fallback source_field =
        let name = string_value (at fs (lit "name")) in
        let version = string_value (at fs (lit "apiVersion")) in
        let kind_name = string_value (at fs (lit "kind")) in
        let fitting =
          if truthy kind_name && truthy version
          then custom_resource_definition_for_reference version kind_name definitions
          else none in
        if truthy name
        then elim fitting [
          | some d ↦ some (reference_of fs (lit "CustomResource") kind_name name d source_field)
          | none ↦ native_reference fs fallback kind_name name source_field
        ]
        else none

    abbrev pub push_found : Option CustomResourceReference → Traversal → Traversal
    push_found none s = s
    push_found (some r) s = push_reference r s

    -- The references of an array's objects, from an index on.
    unfoldable pub push_items : Items → ℕ → Option Text → Text → Traversal → Traversal
    push_items nil index fallback path s = s
    push_items (cons (obj fs) vs) index fallback path s =
        let found = custom_resource_reference_from_object fs fallback (append_index path index) in
        if is_full s then s else push_items vs (index + 1) fallback path (push_found found s)
    push_items (cons v vs) index fallback path s =
        if is_full s then s else push_items vs (index + 1) fallback path s

    -- The references of the value under a key whose name says that it holds some.
    abbrev pub push_referenced : Text → Value → Text → Traversal → Traversal
    push_referenced key (obj fs) path s =
        if is_reference_field_name key
        then push_found
            (custom_resource_reference_from_object fs (custom_resource_reference_kind_from_key key)
              path)
            s
        else s
    push_referenced key (arr vs) path s =
        if is_reference_field_name key
        then push_items vs 0 (custom_resource_reference_kind_from_key key) path s
        else s
    push_referenced key v path s = s

    -- The reference by a name alone, as `secretName` has it.
    abbrev pub named_reference : Fields → Text → Text → Text → CustomResourceReference
    named_reference whole kind name path = record {
      kind = kind;
      namespace =
          target_namespace_for_kind kind
            (or_text (string_value (at whole (lit "namespace"))) default_namespace) source;
      name = name;
      source_field = path;
    }

    abbrev pub push_named : Fields → Text → Value → Text → Traversal → Traversal
    push_named whole key (str name) path s =
        elim (custom_resource_reference_kind_from_name_key key) [
          | none ↦ s
          | some kind ↦
              if truthy (trim name) && not (is_full s)
              then push_reference (named_reference whole kind (trim name) path) s
              else s
        ]
    push_named whole key v path s = s

    abbrev pub enter : ℕ → Traversal → Option Traversal
    enter depth s =
        if is_over s || ltb max_traversal_depth depth
        then none
        else some (record s { visited_values = s.visited_values + 1 })

    -- `collectCustomResourceReferences`: a value, the items of an array from an index on, and the
    -- fields of an object.
    unfoldable mutual
      pub collect_references : Value → Text → ℕ → Traversal → Traversal
      collect_references (arr vs) path depth s = elim (enter depth s) [
        | none ↦ s
        | some t ↦ collect_items vs path 0 depth t
      ]
      collect_references (obj fs) path depth s = elim (enter depth s) [
        | none ↦ s
        | some t ↦ collect_fields fs fs path depth t
      ]
      collect_references undefined path depth s = s
      collect_references null path depth s = s
      collect_references v path depth s = elim (enter depth s) [ none ↦ s | some t ↦ t ]

      pub collect_items : Items → Text → ℕ → ℕ → Traversal → Traversal
      collect_items nil path index depth s = s
      collect_items (cons v vs) path index depth s = elim (is_over s) [
        | true ↦ s
        | false ↦
            collect_items vs path (index + 1) depth
              (collect_references v (append_index path index) (depth + 1) s)
      ]

      pub collect_fields : Fields → Fields → Text → ℕ → Traversal → Traversal
      collect_fields end whole path depth s = s
      collect_fields (field key v fs) whole path depth s = elim (is_over s) [
        | true ↦ s
        | false ↦
            let child = append_path path key in
            collect_fields fs whole path depth (
              collect_references v child (depth + 1)
                (push_named whole key v child (push_referenced key v child s)))
      ]

    unfoldable pub infer_custom_resource_references : Value → List CustomResourceReference
    infer_custom_resource_references spec =
        (collect_references spec (lit "spec") 0
          (record { references = []; visited_values = 0 })).references
