-- ===== src/Upload/Schemas/CustomReferences/Inferred.antt =====
-- What is inferred of any specification, by induction on it.
use kuviewer.Base.{
  ℕ, ◌+◌, ◌≤◌, ◌≡◌, false, not, ◌&&◌, ◌||◌, none, some, List, Text, lit, truthy, length, ltb, trim,
  All, arith, Bool-cases, Option-cases, inl, inr,
}
use kuviewer.Json.{
  Value, undefined, null, bool, num, str, arr, obj, Items, nil, cons, Fields, end, field,
}
use kuviewer.Platform.{Platform}
use kuviewer.Upload.Graph.Closed.{if_keeps}
use kuviewer.Upload.Graph.Definitions.{Definition}
use kuviewer.Upload.Schemas.CustomReferences.{
  Traversal, is_full, is_over, append_path, append_index, is_reference_field_name,
  custom_resource_reference_kind_from_name_key, push_referenced, push_named, enter,
  collect_references, collect_items, collect_fields, infer_custom_resource_references,
  max_traversal_depth,
}
use kuviewer.Upload.Schemas.CustomReferences.Bounds.{
  IsReference, IsBounded, append_path-length, from_object-IsFound, push_reference-IsBounded,
  push_found-IsBounded, push_items-IsBounded, target_namespace-blank, kind_from_key-IsNative,
  kind_from_name_key-IsNative,
}

module _ (js : Platform) (default_namespace : Text) (source : Definition)
    (ds : List Definition) where
  push_referenced-IsBounded :
      (key : Text) (v : Value) (path : Text) (s : Traversal)
      → length path ≤ 512
      → is_full s ≡ false
      → IsBounded ds s
      → IsBounded ds (push_referenced js default_namespace source ds key v path s)
  push_referenced-IsBounded key (obj fs) path s short room b =
      if_keeps (IsBounded ds) (is_reference_field_name key) _ s
        (push_found-IsBounded js default_namespace source ds _ s
          (from_object-IsFound js default_namespace source ds fs _ path
            (kind_from_key-IsNative js key) short)
          room b)
        b
  push_referenced-IsBounded key (arr vs) path s short room b =
      if_keeps (IsBounded ds) (is_reference_field_name key) _ s
        (push_items-IsBounded js default_namespace source ds vs 0 _ path s
          (kind_from_key-IsNative js key) b)
        b
  push_referenced-IsBounded key undefined path s short room b = b
  push_referenced-IsBounded key null path s short room b = b
  push_referenced-IsBounded key (bool t) path s short room b = b
  push_referenced-IsBounded key (num n) path s short room b = b
  push_referenced-IsBounded key (str t) path s short room b = b

  push_named-IsBounded :
      (whole : Fields) (key : Text) (v : Value) (path : Text) (s : Traversal)
      → length path ≤ 512
      → IsBounded ds s
      → IsBounded ds (push_named js default_namespace source ds whole key v path s)
  push_named-IsBounded whole key (str t) path s short b =
      elim (Option-cases (custom_resource_reference_kind_from_name_key js key)) [
        | inl e ↦ rw (e, push_named) b
        | inr (kind, e) ↦ elim (Bool-cases (truthy (trim t) && not (is_full s))) [
          | inl fits ↦
              rw (e, fits, push_named)
                (push_reference-IsBounded ds _ s
                  (
                    ground arith,
                    (
                      short,
                      (
                        target_namespace-blank kind _ source,
                        inl (rw e at (kind_from_name_key-IsNative js key)),
                      ),
                    ),
                  )
                  (ground arith) b)
          | inr other ↦ rw (e, other, push_named) b
        ]
      ]
  push_named-IsBounded whole key undefined path s short b = b
  push_named-IsBounded whole key null path s short b = b
  push_named-IsBounded whole key (bool t) path s short b = b
  push_named-IsBounded whole key (num n) path s short b = b
  push_named-IsBounded whole key (arr vs) path s short b = b
  push_named-IsBounded whole key (obj fs) path s short b = b

  counted :
      (depth : ℕ) (s : Traversal)
      → IsBounded ds s
      → IsBounded ds (elim (enter js default_namespace source ds depth s) [ none ↦ s | some t ↦ t ])
  counted depth s b = elim (Bool-cases (is_over s || ltb max_traversal_depth depth)) [
    | inl over ↦ rw over b
    | inr room ↦ rw room b
  ]

  mutual
    unfolding collect_references

    collect_references-IsBounded :
        (v : Value) (path : Text) (depth : ℕ) (s : Traversal)
        → IsBounded ds s
        → IsBounded ds (collect_references js default_namespace source ds v path depth s)
    collect_references-IsBounded (arr vs) path depth s b =
        elim (Bool-cases (is_over s || ltb max_traversal_depth depth)) [
          | inl over ↦ rw (over, collect_references) b
          | inr room ↦ rw (room, collect_references) (collect_items-IsBounded vs path 0 depth _ b)
        ]
    collect_references-IsBounded (obj fs) path depth s b =
        elim (Bool-cases (is_over s || ltb max_traversal_depth depth)) [
          | inl over ↦ rw (over, collect_references) b
          | inr room ↦ rw (room, collect_references) (collect_fields-IsBounded fs fs path depth _ b)
        ]
    collect_references-IsBounded undefined path depth s b = b
    collect_references-IsBounded null path depth s b = b
    collect_references-IsBounded (bool t) path depth s b = counted depth s b
    collect_references-IsBounded (num n) path depth s b = counted depth s b
    collect_references-IsBounded (str t) path depth s b = counted depth s b

    collect_items-IsBounded :
        (vs : Items) (path : Text) (index depth : ℕ) (s : Traversal)
        → IsBounded ds s
        → IsBounded ds (collect_items js default_namespace source ds vs path index depth s)
    collect_items-IsBounded nil path index depth s b = b
    collect_items-IsBounded (cons v vs) path index depth s b = elim (Bool-cases (is_over s)) [
      | inl over ↦ rw (over, collect_items) b
      | inr room ↦
          rw (room, collect_items)
            (collect_items-IsBounded vs path (index + 1) depth _
              (collect_references-IsBounded v (append_index path index) (depth + 1) s b))
    ]

    collect_fields-IsBounded :
        (fs whole : Fields) (path : Text) (depth : ℕ) (s : Traversal)
        → IsBounded ds s
        → IsBounded ds (collect_fields js default_namespace source ds fs whole path depth s)
    collect_fields-IsBounded end whole path depth s b = b
    collect_fields-IsBounded (field key v fs) whole path depth s b = elim (Bool-cases (is_over s)) [
      | inl over ↦ rw (over, collect_fields) b
      | inr room ↦
          let short = append_path-length path key in
          rw (room, collect_fields)
            (collect_fields-IsBounded fs whole path depth _ (
              collect_references-IsBounded v (append_path path key) (depth + 1) _ (
                push_named-IsBounded whole key v (append_path path key) _ short (
                  push_referenced-IsBounded key v (append_path path key) s short (ground arith)
                    b))))
    ]

  -- Of any specification, however large or deep, at most 80 references are inferred; each has a
  -- name and a path of at most 512 units, and no namespace where its kind is one of the six of the
  -- cluster. A reference to a custom resource is named after the kind of a definition among those
  -- given, and has no namespace where the scope of that is Cluster.
  pub infer_custom_resource_references-IsBounded :
      (spec : Value)
      → let rs = infer_custom_resource_references js default_namespace source ds spec in
        (length rs ≤ 80) × All (IsReference ds) rs
  unfolding infer_custom_resource_references
  infer_custom_resource_references-IsBounded spec =
      collect_references-IsBounded spec (lit "spec") 0 _ (omega arith, tt)
