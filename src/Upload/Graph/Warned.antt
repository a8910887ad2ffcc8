-- ===== src/Upload/Graph/Warned.antt =====
-- The warnings of an upload, and the counts of its cluster.
use kuviewer.Base.{
  ◌+◌, ◌≡◌, refl, ap, sym, ◌∙◌, Bool, true, false, not, ◌&&◌, none, some, List, [], ◌∷◌, ◌++◌, map,
  Text, arith, Option-cases, inl, inr, filter, length, append-nil, append_assoc,
}
use kuviewer.Base.Dict.{Dict}
use kuviewer.Platform.{Platform}
use kuviewer.Topology.Types.{SummaryValue, TopologyNode}
use kuviewer.Upload.Graph.{BuildContext, add_node, add_edge, for_each}
use kuviewer.Upload.Graph.Build.{
  UploadOptions, add_object_node, build_nodes, namespace_node, cluster_node, empty_context,
  namespaces_of, unsupported_message, build_snapshot_from_kubernetes_objects, is_kind, is_healthy,
}
use kuviewer.Upload.Graph.Closed.{HidesSecret, for_each-keeps}
use kuviewer.Upload.Graph.Definitions.{
  Definition, custom_resource_definition_records, normalize_object_kind,
}
use kuviewer.Upload.Graph.Induction.{edges-keeps}
use kuviewer.Upload.Graph.Schemas.{Schemas}
use kuviewer.Upload.Object.{KubeObject, is_named}

-- The kind of the object is not supported, and no definition is uploaded for it.
abbrev pub is_unsupported : List Definition → KubeObject → Bool
is_unsupported ds o = elim (normalize_object_kind o ds) [ none ↦ true | some k ↦ false ]

add_node-warnings :
    (c : BuildContext) (kind namespace name status : Text) (labels : Dict Text)
    (summary : Dict SummaryValue)
    → (add_node c kind namespace name status labels summary).warnings ≡ c.warnings
unfolding add_node
add_node-warnings c kind namespace name status labels summary = ground arith

add_edge-warnings :
    (c : BuildContext) (type source target source_field confidence : Text)
    → (add_edge c type source target source_field confidence).warnings ≡ c.warnings
unfolding add_edge
add_edge-warnings c type source target source_field confidence = ground arith

module _ (js : Platform) (s : Schemas) where
  object_nodes-warnings :
      (ds : List Definition) (objects : List KubeObject) (c : BuildContext)
      → (for_each (add_object_node js s ds) c objects).warnings
        ≡ c.warnings ++ map unsupported_message (filter (is_unsupported ds) objects)
  unfolding for_each filter add_object_node
  object_nodes-warnings ds [] c = sym (append-nil c.warnings)
  object_nodes-warnings ds (o ∷ objects) c = elim (Option-cases (normalize_object_kind o ds)) [
    | inl e ↦
        object_nodes-warnings ds objects (add_object_node js s ds c o)
        ∙ rw (e, add_object_node, is_unsupported)
            (append_assoc c.warnings (unsupported_message o ∷ []) _)
    | inr (k, e) ↦
        object_nodes-warnings ds objects (add_object_node js s ds c o)
        ∙ rw (e, add_object_node, is_unsupported)
            (ap
              (λ (w : List Text). w ++ map unsupported_message (filter (is_unsupported ds) objects))
              (add_node-warnings c k.0 _ _ _ _ _))
  ]

  -- The warnings that were there stay, in their order, and after them comes one message for each
  -- named object whose kind is not supported, in the order of the objects; nothing else warns.
  pub build_snapshot_from_kubernetes_objects-warnings :
      (objects : List KubeObject) (warnings : List Text) (options : UploadOptions)
      → let valid = filter is_named objects in
        (build_snapshot_from_kubernetes_objects js s objects warnings options).1
        ≡ warnings
          ++ map unsupported_message
              (filter (is_unsupported (custom_resource_definition_records valid)) valid)
  unfolding build_snapshot_from_kubernetes_objects build_nodes
  build_snapshot_from_kubernetes_objects-warnings objects warnings options =
      edges-keeps Warned keep_node keep_edge js s valid warnings options
        (object_nodes-warnings ds valid _ ∙ ap (λ (w : List Text). w ++ added) before)
    where
      valid : List KubeObject
      valid = filter is_named objects

      ds : List Definition
      ds = custom_resource_definition_records valid

      added : List Text
      added = map unsupported_message (filter (is_unsupported ds) valid)

      Warned : BuildContext → Type 0
      Warned c = c.warnings ≡ warnings ++ added

      keep_node :
          (c : BuildContext) (kind namespace name status : Text) (labels : Dict Text)
          (summary : Dict SummaryValue)
          → HidesSecret kind summary
          → Warned c
          → Warned (add_node c kind namespace name status labels summary)
      keep_node c kind namespace name status labels summary hides e =
          add_node-warnings c kind namespace name status labels summary ∙ e

      keep_edge :
          (c : BuildContext) (type source target source_field confidence : Text)
          → Warned c
          → Warned (add_edge c type source target source_field confidence)
      keep_edge c type source target source_field confidence e =
          add_edge-warnings c type source target source_field confidence ∙ e

      Unwarned : BuildContext → Type 0
      Unwarned c = c.warnings ≡ warnings

      before : Unwarned (
          for_each
            (namespace_node js s options)
            (cluster_node js s options valid
              (namespaces_of valid)
              (empty_context options.cluster_id warnings))
            (namespaces_of valid))
      before =
          for_each-keeps Unwarned (namespace_node js s options)
            (λ c n e. add_edge-warnings _ _ _ _ _ _ ∙ add_node-warnings c _ _ n _ _ _ ∙ e) _
            (namespaces_of valid)
            (add_node-warnings (empty_context options.cluster_id warnings) _ _ _ _ _ _)

healthy_or_not :
    (kind : Text) (ns : List TopologyNode)
    → length (filter (λ n. is_kind kind n && is_healthy n) ns)
        + length (filter (λ n. is_kind kind n && not (is_healthy n)) ns)
      ≡ length (filter (is_kind kind) ns)
unfolding filter
healthy_or_not kind [] = refl
healthy_or_not kind (n ∷ ns) = ground (arith, healthy_or_not kind ns)
