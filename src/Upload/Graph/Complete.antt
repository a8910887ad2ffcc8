-- ===== src/Upload/Graph/Complete.antt =====
-- That nothing is lost between the recognition of an object and the snapshot; Recognized says what
-- is recognized.
use kuviewer.Base.{
  ℕ, zero, suc, ◌≡◌, refl, ◌∙◌, Bool, true, not, ◌||◌, Option, some, List, [], ◌∷◌, ◌++◌, Text, lit,
  truthy, or_text, text_eq, text_eq_iff, has, arith, Bool-cases, inl, inr, filter, get_elem?,
  and-split,
}
use kuviewer.Base.Dict.{Dict}
use kuviewer.Base.Sets.{has-add}
use kuviewer.Platform.{Platform}
use kuviewer.Topology.Types.{SummaryValue}
use kuviewer.Upload.Graph.{BuildContext, node_id, edge_id, add_node, add_edge, for_each}
use kuviewer.Upload.Graph.Build.{
  UploadOptions, add_object_node, build_nodes, namespace_node,
  build_snapshot_from_kubernetes_objects,
}
use kuviewer.Upload.Graph.Closed.{
  HidesSecret, other-HidesSecret, object_summary-HidesSecret, for_each-keeps,
}
use kuviewer.Upload.Graph.Definitions.{
  Definition, custom_resource_definition_records, normalize_object_kind, object_name_for_kind,
}
use kuviewer.Upload.Graph.Formed.{graph_node_ids, build_graph-IsWellFormed}
use kuviewer.Upload.Graph.Induction.{edges-keeps, add_object_node-keeps}
use kuviewer.Upload.Graph.Schemas.{Schemas}
use kuviewer.Upload.Object.{KubeObject, is_named, object_kind, object_name, object_namespace}

-- The graph of a cluster has a node with the id.
abbrev pub HasNode : Text → Text → BuildContext → Type 0
HasNode cluster_id id c = (c.cluster_id ≡ cluster_id) × (has id c.node_set ≡ true)

module _ (cluster_id id : Text) where
  add_node-HasNode :
      (c : BuildContext) (kind namespace name status : Text) (labels : Dict Text)
      (summary : Dict SummaryValue)
      → HidesSecret kind summary
      → HasNode cluster_id id c
      → HasNode cluster_id id (add_node c kind namespace name status labels summary)
  unfolding add_node
  add_node-HasNode c kind namespace name status labels summary hides h =
      elim (Bool-cases
        (not (truthy name) || has (node_id c.cluster_id namespace kind name) c.node_set)) [
          | inl known ↦ rw (known, add_node) h
          | inr new ↦
              rw (new, add_node)
                (
                  h.0,
                  ground (arith, has-add id (node_id c.cluster_id namespace kind name) c.node_set),
                )
        ]

  add_edge-HasNode :
      (c : BuildContext) (type source target source_field confidence : Text)
      → HasNode cluster_id id c
      → HasNode cluster_id id (add_edge c type source target source_field confidence)
  unfolding add_edge
  add_edge-HasNode c type source target source_field confidence h =
      elim (Bool-cases (
        not (truthy source)
        || not (truthy target)
        || not (has source c.node_set)
        || not (has target c.node_set)
        || has (edge_id source target type source_field) c.edge_set)) [
          | inl refused ↦ rw (refused, add_edge) h
          | inr new ↦ rw (new, add_edge) h
        ]

-- The node that is asked for is there afterwards.
add_node-new :
    (c : BuildContext) (kind namespace name status : Text) (labels : Dict Text)
    (summary : Dict SummaryValue)
    → truthy name ≡ true
    → has
        (node_id c.cluster_id namespace kind name)
        (add_node c kind namespace name status labels summary).node_set
      ≡ true
unfolding add_node
add_node-new c kind namespace name status labels summary named =
    let id = node_id c.cluster_id namespace kind name in
    ground (arith, has-add id id c.node_set, text_eq_iff id id)

add_node-cluster_id :
    (c : BuildContext) (kind namespace name status : Text) (labels : Dict Text)
    (summary : Dict SummaryValue)
    → (add_node c kind namespace name status labels summary).cluster_id ≡ c.cluster_id
unfolding add_node
add_node-cluster_id c kind namespace name status labels summary = ground arith

add_edge-cluster_id :
    (c : BuildContext) (type source target source_field confidence : Text)
    → (add_edge c type source target source_field confidence).cluster_id ≡ c.cluster_id
unfolding add_edge
add_edge-cluster_id c type source target source_field confidence = ground arith

object_name_for_kind-truthy :
    (kind : Text) (o : KubeObject) → is_named o ≡ true → truthy (object_name_for_kind kind o) ≡ true
unfolding object_name_for_kind is_named
object_name_for_kind-truthy kind o named = elim (Bool-cases (text_eq kind (lit "CustomResource"))) [
  | inl custom ↦
      rw (custom, object_name_for_kind)
        (truthy-append (or_text (object_kind o) (lit "CustomResource")))
  | inr other ↦ rw (other, object_name_for_kind) (and-split (truthy (object_kind o)) _ named).1
]
  where
    truthy-append : (s : Text) → truthy (s ++ (b':' ∷ object_name o)) ≡ true
    truthy-append [] = refl
    truthy-append (c ∷ s) = refl

-- A test keeps a member that passes it.
pub get_elem?-filter :
    {A : Type 0} (p : A → Bool) (xs : List A) (i : ℕ) (x : A)
    → get_elem? xs i ≡ some x
    → p x ≡ true
    → (j : ℕ) × (get_elem? (filter p xs) j ≡ some x)
unfolding filter
get_elem?-filter p [] i x h t = absurd (ground arith)
get_elem?-filter p (y ∷ ys) zero x h t = let e : y ≡ x = ground arith in (0, rw (e, t) refl)
get_elem?-filter p (y ∷ ys) (suc i) x h t =
    let (j, found) = get_elem?-filter p ys i x h t in
    elim (Bool-cases (p y)) [ inl keep ↦ (suc j, rw keep found) | inr drop ↦ (j, rw drop found) ]

-- What one item brings about and every item keeps holds at the end.
for_each-reaches :
    {C A : Type 0} (I P : C → Type 0) (f : C → A → C) (x : A)
    → ((c : C) (y : A) → I c → I (f c y))
    → ((c : C) (y : A) → P c → P (f c y))
    → ((c : C) → I c → P (f c x))
    → (xs : List A) (i : ℕ) (c : C) → get_elem? xs i ≡ some x
    → I c
    → P (for_each f c xs)
unfolding for_each
for_each-reaches I P f x keep_i keep_p reach [] i c h start = absurd (ground arith)
for_each-reaches I P f x keep_i keep_p reach (y ∷ ys) zero c h start =
    let e : y ≡ x = ground arith in for_each-keeps P f keep_p (f c y) ys (rw e (reach c start))
for_each-reaches I P f x keep_i keep_p reach (y ∷ ys) (suc i) c h start =
    for_each-reaches I P f x keep_i keep_p reach ys i (f c y) h (keep_i c y start)

module _ (js : Platform) (s : Schemas) where
  IsOf : Text → BuildContext → Type 0
  IsOf cluster_id c = c.cluster_id ≡ cluster_id

  build_nodes-HasNode :
      (objects : List KubeObject) (warnings : List Text) (options : UploadOptions) (i : ℕ)
      (o : KubeObject) (kind : Text) (d : Option Definition)
      → get_elem? objects i ≡ some o
      → is_named o ≡ true
      → normalize_object_kind o (custom_resource_definition_records objects) ≡ some (kind, d)
      → HasNode options.cluster_id
          (node_id options.cluster_id (object_namespace o) kind (object_name_for_kind kind o))
          (build_nodes js s objects warnings options)
  unfolding build_nodes IsOf add_object_node text_eq lit
  build_nodes-HasNode objects warnings options i o kind d there named known =
      for_each-reaches (IsOf options.cluster_id) (HasNode options.cluster_id id)
        (add_object_node js s ds) o
        (add_object_node-keeps (IsOf options.cluster_id) keep_node keep_edge js s (λ c m e. e) ds)
        (add_object_node-keeps (HasNode options.cluster_id id)
          (add_node-HasNode options.cluster_id id) (add_edge-HasNode options.cluster_id id) js s
          (λ c m e. e) ds)
        reach objects i _ there
        (for_each-keeps (IsOf options.cluster_id) (namespace_node js s options)
          (λ c n e. keep_edge _ _ _ _ _ _ (keep_node c _ _ n _ _ _ (other-HidesSecret _ _ refl) e))
          _ _ (keep_node _ _ _ _ _ _ _ (other-HidesSecret _ _ refl) refl))
    where
      ds : List Definition
      ds = custom_resource_definition_records objects

      id : Text
      id = node_id options.cluster_id (object_namespace o) kind (object_name_for_kind kind o)

      keep_node :
          (c : BuildContext) (kind namespace name status : Text) (labels : Dict Text)
          (summary : Dict SummaryValue)
          → HidesSecret kind summary
          → IsOf options.cluster_id c
          → IsOf options.cluster_id (add_node c kind namespace name status labels summary)
      keep_node c kind namespace name status labels summary hides e =
          add_node-cluster_id c kind namespace name status labels summary ∙ e

      keep_edge :
          (c : BuildContext) (type source target source_field confidence : Text)
          → IsOf options.cluster_id c
          → IsOf options.cluster_id (add_edge c type source target source_field confidence)
      keep_edge c type source target source_field confidence e =
          add_edge-cluster_id c type source target source_field confidence ∙ e

      reach :
          (c : BuildContext)
          → IsOf options.cluster_id c
          → HasNode options.cluster_id id (add_object_node js s ds c o)
      reach c e =
          rw (known, add_object_node)
            (
              keep_node c kind _ _ _ _ _ (object_summary-HidesSecret js s kind o d) e,
              rw (← e) (add_node-new c kind _ _ _ _ _ (object_name_for_kind-truthy kind o named)),
            )

  -- What is recognized as an object of a kind has its node in the snapshot.
  pub build_snapshot-normalized :
      (objects : List KubeObject) (warnings : List Text) (options : UploadOptions) (i : ℕ)
      (o : KubeObject) (kind : Text) (d : Option Definition)
      → get_elem? objects i ≡ some o
      → is_named o ≡ true
      → normalize_object_kind o (custom_resource_definition_records (filter is_named objects))
        ≡ some (kind, d)
      → has (node_id options.cluster_id (object_namespace o) kind (object_name_for_kind kind o)) (
          graph_node_ids
            (build_snapshot_from_kubernetes_objects js s objects warnings options).0.nodes)
        ≡ true
  unfolding build_snapshot_from_kubernetes_objects
  build_snapshot-normalized objects warnings options i o kind d there named known =
      let (j, kept) = get_elem?-filter is_named objects i o there named in
      let valid = filter is_named objects in
      let id = node_id options.cluster_id (object_namespace o) kind (object_name_for_kind kind o) in
      let all =
        edges-keeps (HasNode options.cluster_id id) (add_node-HasNode options.cluster_id id)
          (add_edge-HasNode options.cluster_id id) js s valid warnings options
          (build_nodes-HasNode valid warnings options j o kind d kept named known) in
      rw (← (build_graph-IsWellFormed js s valid warnings options).node_ids) all.1
