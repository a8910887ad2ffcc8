-- ===== src/Upload/Graph/Closed.antt =====
-- Induction over the building of the graph: what every added node, edge and warning keeps holds of
-- the whole graph.
use kuviewer.Base.{
  ℕ, ◌≡◌, refl, or_text, Bool, true, false, Option, none, some, List, [], ◌∷◌, if◌then◌else◌, Text,
  lit, truthy, text_eq, text_eq_iff, arith, Option-cases, inl, inr, ◌⊎◌,
}
use kuviewer.Base.Dict.{Dict}
use kuviewer.Base.Number.{whole}
use kuviewer.Json.{Value, undefined, null, bool, num, str, arr, obj, string_at, Fields}
use kuviewer.Platform.{Platform}
use kuviewer.Topology.Types.{SummaryValue, text, number, boolean}
use kuviewer.Upload.Graph.{
  BuildContext, add_node, add_edge, ensure_reference_node, reference_summary, for_each,
}
use kuviewer.Upload.Graph.Definitions.{Definition, normalize_object_kind, object_name_for_kind}
use kuviewer.Upload.Graph.Edges.{
  refer_to, refer_to_named, env_from_entry, env_entry, container_edges, volume_edges, containers_of,
  add_pod_edges, owner_edge, custom_resource_reference_edge, add_custom_resource_reference_edges,
  kind_edges, owns_edges, named_object_edges, add_object_edges, scale_edge, workload_edges,
  ingress_edges, gateway_route_edges, hpa_edges, storage_edges,
}
use kuviewer.Upload.Graph.Schemas.{Schemas}
use kuviewer.Upload.Graph.Summaries.{object_summary, secret_object_summary, field_count}
use kuviewer.Upload.Object.{
  KubeObject, field_at, text_at, owner_references, object_namespace, normalize_upload_resource_kind,
}

-- The whole summary of a Secret that is only referred to.
abbrev pub referred_secret : Dict SummaryValue
referred_secret = (lit "referenced", boolean true) ∷ (lit "values", text (lit "hidden")) ∷ []

-- The whole summary of a Secret of the given type with so many keys.
abbrev pub uploaded_secret : Text → ℕ → Dict SummaryValue
uploaded_secret type keys =
    (lit "type", text type)
    ∷ (lit "keys", number (whole keys))
    ∷ (lit "values", text (lit "hidden"))
    ∷ []

abbrev pub IsSecretShown : Dict SummaryValue → Type 0
IsSecretShown summary =
    (summary ≡ referred_secret)
    ⊎ ((type : Text) × (keys : ℕ) × (summary ≡ uploaded_secret type keys))

-- The summary of a node of the kind hides what a Secret holds.
unfoldable pub HidesSecret : Text → Dict SummaryValue → Type 0
HidesSecret kind summary = kind ≡ lit "Secret" → IsSecretShown summary

pub for_each-keeps {ℓ κ μ} :
    {C : Type ℓ} {A : Type κ} (P : C → Type μ) (f : C → A → C)
    → ((c : C) (x : A) → P c → P (f c x))
    → (c : C) (xs : List A) → P c
    → P (for_each f c xs)
unfolding for_each
for_each-keeps P f each c [] p = p
for_each-keeps P f each c (x ∷ xs) p = for_each-keeps P f each (f c x) xs (each c x p)

-- Both branches of a test.
pub if_keeps {ℓ μ} :
    {C : Type ℓ} (P : C → Type μ) (t : Bool) (a b : C) → P a → P b → P (if t then a else b)
if_keeps P true a b p q = p
if_keeps P false a b p q = q

-- A kind other than Secret has nothing to hide.
pub other-HidesSecret :
    (kind : Text) (summary : Dict SummaryValue)
    → text_eq kind (lit "Secret") ≡ false
    → HidesSecret kind summary
unfolding HidesSecret
other-HidesSecret kind summary other e = absurd (ground (arith, text_eq_iff kind (lit "Secret")))

reference_summary-HidesSecret : (kind : Text) → HidesSecret kind (reference_summary kind)
unfolding HidesSecret
reference_summary-HidesSecret kind e = rw ((text_eq_iff kind (lit "Secret")).1 e) (inl refl)

field_count-whole : (v : Value) → (n : ℕ) × (field_count v ≡ whole n)
unfolding field_count
field_count-whole (obj fs) = (_, refl)
field_count-whole undefined = (0, refl)
field_count-whole null = (0, refl)
field_count-whole (bool b) = (0, refl)
field_count-whole (num n) = (0, refl)
field_count-whole (str s) = (0, refl)
field_count-whole (arr vs) = (0, refl)

secret_object_summary-IsSecretShown : (o : KubeObject) → IsSecretShown (secret_object_summary o)
unfolding secret_object_summary
secret_object_summary-IsSecretShown o =
    let (n, e) = field_count-whole (field_at o (lit "data" ∷ [])) in
    inr (or_text (text_at o (lit "type" ∷ [])) (lit "Opaque"), n, rw e refl)

pub object_summary-HidesSecret :
    (js : Platform) (s : Schemas) (kind : Text) (o : KubeObject) (d : Option Definition)
    → HidesSecret kind (object_summary js s kind o d)
unfolding HidesSecret object_summary
object_summary-HidesSecret js s kind o d e =
    rw ((text_eq_iff kind (lit "Secret")).1 e) (secret_object_summary-IsSecretShown o)

module _ (P : BuildContext → Type 0)
    (node : (c : BuildContext) (kind namespace name status : Text) (labels : Dict Text)
        (summary : Dict SummaryValue)
      → HidesSecret kind summary
      → P c
      → P (add_node c kind namespace name status labels summary))
    (edge : (c : BuildContext) (type source target source_field confidence : Text)
      → P c
      → P (add_edge c type source target source_field confidence)) where
  refer_to-keeps :
      (c : BuildContext) (type source kind namespace name source_field : Text)
      → P c
      → P (refer_to c type source kind namespace name source_field)
  unfolding refer_to ensure_reference_node
  refer_to-keeps c type source kind namespace name source_field p =
      edge (ensure_reference_node c kind namespace name) type source _ source_field _
        (node c kind namespace name _ _ _ (reference_summary-HidesSecret kind) p)

  refer_to_named-keeps :
      (c : BuildContext) (type source kind namespace name source_field : Text)
      → P c
      → P (refer_to_named c type source kind namespace name source_field)
  unfolding refer_to_named
  refer_to_named-keeps c type source kind namespace name source_field p =
      if_keeps P (truthy name) (refer_to c type source kind namespace name source_field) c
        (refer_to-keeps c type source kind namespace name source_field p) p

  add_pod_edges-keeps :
      (c : BuildContext) (pod : KubeObject) (pod_id namespace : Text)
      → P c
      → P (add_pod_edges c pod pod_id namespace)
  unfolding add_pod_edges
  add_pod_edges-keeps c pod pod_id namespace p =
      for_each-keeps P (volume_edges pod_id namespace)
        (λ c volume p. refer_to_named-keeps _ _ pod_id _ namespace _ _ (
          refer_to_named-keeps _ _ pod_id _ namespace _ _
            (refer_to_named-keeps c _ pod_id _ namespace _ _ p)))
        _ _
        (for_each-keeps P (container_edges pod_id namespace)
          (λ c container p.
            for_each-keeps P (env_entry pod_id namespace)
              (λ c entry p.
                refer_to_named-keeps _ _ pod_id _ namespace _ _
                  (refer_to_named-keeps c _ pod_id _ namespace _ _ p))
              _ _
              (for_each-keeps P (env_from_entry pod_id namespace)
                (λ c entry p.
                  refer_to_named-keeps _ _ pod_id _ namespace _ _
                    (refer_to_named-keeps c _ pod_id _ namespace _ _ p))
                c _ p))
          _ (containers_of pod)
          (refer_to_named-keeps _ _ pod_id _ namespace _ _
            (refer_to_named-keeps c _ pod_id _ [] _ _ p)))

  owner_edge-keeps :
      (namespace object_id : Text) (c : BuildContext) (owner : Fields)
      → P c
      → P (owner_edge namespace object_id c owner)
  owner_edge-keeps namespace object_id c owner p =
      elim (Option-cases
        (normalize_upload_resource_kind (string_at (obj owner) (lit "kind" ∷ [])))) [
          | inl e ↦ rw (e, owner_edge) p
          | inr (kind, e) ↦ rw (e, owner_edge) (if_keeps P _ _ c (edge c _ _ object_id _ _ p) p)
        ]

  add_custom_resource_reference_edges-keeps :
      (s : Schemas) (c : BuildContext) (o : KubeObject) (object_id : Text) (d : Definition)
      (ds : List Definition)
      → P c
      → P (add_custom_resource_reference_edges s c o object_id d ds)
  unfolding add_custom_resource_reference_edges
  add_custom_resource_reference_edges-keeps s c o object_id d ds p =
      for_each-keeps P (custom_resource_reference_edge s object_id)
        (λ c r p. if_keeps P _ _ c (edge c _ object_id _ _ _ p) p) c _ p

  module _ (s : Schemas) (o : KubeObject) (object_id namespace kind : Text) where
    kind_edges-keeps : (c : BuildContext) → P c → P (kind_edges s o object_id namespace kind c)
    unfolding kind_edges
    kind_edges-keeps c p = if_keeps P _ _ _ (add_pod_edges-keeps c o object_id namespace p) (
        if_keeps P _ _ _ workload (
          if_keeps P _ _ _ ingress
            (if_keeps P _ _ _ routes (if_keeps P _ _ _ hpa (if_keeps P _ _ c storage p)))))
      where
        workload : P (workload_edges s o object_id namespace kind c)
        workload =
            if_keeps P _ _ c
              (for_each-keeps P _ (λ c r p. refer_to-keeps c _ object_id _ namespace _ _ p) c _ p) p

        ingress : P (ingress_edges s o object_id namespace kind c)
        ingress =
            if_keeps P _ _ c
              (for_each-keeps P _ (λ c r p. refer_to-keeps c _ object_id _ namespace _ _ p) c _ p) p

        routes : P (gateway_route_edges s o object_id namespace kind c)
        routes =
            if_keeps P _ _ c
              (for_each-keeps P _ (λ c r p. refer_to-keeps c _ object_id _ _ _ _ p) _ _
                (for_each-keeps P _ (λ c r p. refer_to-keeps c _ object_id _ _ _ _ p) c _ p))
              p

        scaled : (target name : Text) → P (scale_edge s o object_id namespace kind c target name)
        scaled target name = elim (Option-cases (normalize_upload_resource_kind target)) [
          | inl e ↦ rw (e, scale_edge) p
          | inr (k, e) ↦
              rw (e, scale_edge) (refer_to_named-keeps c _ object_id k namespace name _ p)
        ]

        hpa : P (hpa_edges s o object_id namespace kind c)
        hpa = elim (Option-cases (s.hpa_scale_target o)) [
          | inl e ↦ rw (e, hpa_edges) (if_keeps P _ c c p p)
          | inr (r, e) ↦ rw (e, hpa_edges) (if_keeps P _ _ c (scaled r.kind r.name) p)
        ]

        storage : P (storage_edges s o object_id namespace kind c)
        storage = for_each-keeps P _ (λ c r p. refer_to-keeps c _ object_id _ [] _ _ p) c _ p

  owns_edges-keeps :
      (s : Schemas) (o : KubeObject) (object_id : Text) (c : BuildContext)
      → P c
      → P (owns_edges s o object_id c)
  unfolding owns_edges
  owns_edges-keeps s o object_id c p =
      let owners =
        for_each-keeps P (owner_edge (object_namespace o) object_id)
          (owner_edge-keeps (object_namespace o) object_id) c (owner_references o) p in
      if_keeps P (truthy (object_namespace o)) _ _ (edge _ _ _ object_id _ _ owners) owners

  named_object_edges-keeps :
      (s : Schemas) (ds : List Definition) (o : KubeObject) (kind : Text) (d : Option Definition)
      (name : Text) (c : BuildContext)
      → P c
      → P (named_object_edges s ds o kind d name c)
  named_object_edges-keeps s ds o kind none name c p =
      kind_edges-keeps s o _ (object_namespace o) kind _ (owns_edges-keeps s o _ c p)
  named_object_edges-keeps s ds o kind (some d) name c p =
      add_custom_resource_reference_edges-keeps s _ o _ d ds
        (edge _ _ _ _ _ _ (owns_edges-keeps s o _ c p))

  pub add_object_edges-keeps :
      (s : Schemas) (ds : List Definition) (c : BuildContext) (o : KubeObject)
      → P c
      → P (add_object_edges s ds c o)
  unfolding add_object_edges
  add_object_edges-keeps s ds c o p = elim (Option-cases (normalize_object_kind o ds)) [
    | inl e ↦ rw (e, add_object_edges) p
    | inr ((kind, d), e) ↦
        rw (e, add_object_edges)
          (if_keeps P (truthy (object_name_for_kind kind o)) _ c
            (named_object_edges-keeps s ds o kind d (object_name_for_kind kind o) c p) p)
  ]
