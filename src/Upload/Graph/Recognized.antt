-- ===== src/Upload/Graph/Recognized.antt =====
-- Which objects of an upload have a node: those of the supported kinds, and the custom resources of
-- the definitions that are uploaded with them.
use kuviewer.Base.{
  ℕ, ◌≡◌, refl, ap, sym, ◌∙◌, ◌⊎◌, inl, inr, Bool, true, false, not, ◌&&◌, ◌||◌, Option, none, some,
  List, [], ◌∷◌, ◌++◌, map, filter, find, flat_map, any, Text, lit, truthy, or_text, or_text-truthy,
  text_eq, text_eq_iff, has, split, arith, Bool-cases, get_elem?, and-split, if◌then◌else◌, zero,
  suc,
}
use kuviewer.Base.Sort.{sort_by, sort_by-any, text_compare}
use kuviewer.Json.{bool, str, Fields, at}
use kuviewer.Platform.{Platform}
use kuviewer.Upload.Graph.{node_id}
use kuviewer.Upload.Graph.Build.{UploadOptions, build_snapshot_from_kubernetes_objects}
use kuviewer.Upload.Graph.Complete.{build_snapshot-normalized, get_elem?-filter}
use kuviewer.Upload.Graph.Definitions.{
  Definition, custom_resource_definition_records, custom_resource_definition_for_object,
  normalize_object_kind, object_name_for_kind, definition_of, is_complete, versions_of,
  marked_version, crd_served_versions, known_versions, defines, api_version_parts,
}
use kuviewer.Upload.Graph.Formed.{graph_node_ids}
use kuviewer.Upload.Graph.Schemas.{Schemas}
use kuviewer.Upload.Object.{
  KubeObject, is_named, object_kind, object_name, object_namespace, api_version, text_at,
  supported_upload_kinds, no_custom_kind, normalize_upload_resource_kind,
}

-- The definition marks the version as served.
abbrev pub Serves : KubeObject → Text → Type 0
Serves crd version =
    (i : ℕ) × (fs : Fields) × (get_elem? (versions_of crd) i ≡ some fs)
    × (at fs (lit "served") ≡ bool true)
    × (at fs (lit "name") ≡ str version)

-- A named definition of a custom resource, of the object's kind, whose group and one of whose served
-- versions are those of the object's `apiVersion`.
pub record IsDefinedBy (o crd : KubeObject) : Type 0 where
  pub group : Text
  pub version : Text
  pub defines_kind : object_kind crd ≡ lit "CustomResourceDefinition"
  pub has_name : is_named crd ≡ true
  pub of_group : text_at crd (lit "spec" ∷ lit "group" ∷ []) ≡ group
  pub of_kind : text_at crd (lit "spec" ∷ lit "names" ∷ lit "kind" ∷ []) ≡ object_kind o
  pub of_version : split b'/' (api_version o) ≡ group ∷ version ∷ []
  pub full_group : truthy group ≡ true
  pub full_version : truthy version ≡ true
  pub served : Serves crd version

-- The kind and the name of the node: those of an object of a supported kind; for a custom resource
-- that a definition among the objects defines, its own kind stands before the name.
abbrev pub IsShownAs : List KubeObject → KubeObject → Text → Text → Type 0
IsShownAs objects o kind name =
    ((has (object_kind o) supported_upload_kinds ≡ true)
      × (kind ≡ object_kind o)
      × (name ≡ object_name o))
    ⊎ ((has (object_kind o) supported_upload_kinds ≡ false)
        × (kind ≡ lit "CustomResource")
        × (name ≡ object_kind o ++ (b':' ∷ object_name o))
        × (j : ℕ) × (crd : KubeObject) × (get_elem? objects j ≡ some crd)
        × IsDefinedBy o crd)

get_elem?-map :
    {A B : Type 0} (f : A → B) (xs : List A) (i : ℕ) (x : A)
    → get_elem? xs i ≡ some x
    → get_elem? (map f xs) i ≡ some (f x)
get_elem?-map f [] i x h = absurd (ground arith)
get_elem?-map f (y ∷ ys) zero x h = let e : y ≡ x = ground arith in ap (λ z. some (f z)) e
get_elem?-map f (y ∷ ys) (suc i) x h = get_elem?-map f ys i x h

find-some :
    {A : Type 0} (p : A → Bool) (xs : List A) (i : ℕ) (x : A)
    → get_elem? xs i ≡ some x
    → p x ≡ true
    → (y : A) × (find p xs ≡ some y)
unfolding find
find-some p [] i x h t = absurd (ground arith)
find-some p (y ∷ ys) zero x h t = let e : y ≡ x = ground arith in (y, rw (ap p e ∙ t) refl)
find-some p (y ∷ ys) (suc i) x h t = elim (Bool-cases (p y)) [
  | inl found ↦ (y, rw found refl)
  | inr other ↦ let (z, e) = find-some p ys i x h t in (z, rw other e)
]

has-append-left : (k : Text) (xs ys : List Text) → has k xs ≡ true → has k (xs ++ ys) ≡ true
unfolding has
has-append-left k [] ys h = absurd (ground arith)
has-append-left k (x ∷ xs) ys h = ground (arith, has-append-left k xs ys)

has-append-right : (k : Text) (xs ys : List Text) → has k ys ≡ true → has k (xs ++ ys) ≡ true
unfolding has
has-append-right k [] ys h = h
has-append-right k (x ∷ xs) ys h = ground (arith, has-append-right k xs ys h)

has-flat_map :
    {A : Type 0} (f : A → List Text) (k : Text) (xs : List A) (i : ℕ) (x : A)
    → get_elem? xs i ≡ some x
    → has k (f x) ≡ true
    → has k (flat_map f xs) ≡ true
unfolding flat_map
has-flat_map f k [] i x h t = absurd (ground arith)
has-flat_map f k (y ∷ ys) zero x h t =
    let e : y ≡ x = ground arith in has-append-left k (f y) (flat_map f ys) (rw e t)
has-flat_map f k (y ∷ ys) (suc i) x h t =
    has-append-right k (f y) (flat_map f ys) (has-flat_map f k ys i x h t)

has_as_any : (k : Text) (xs : List Text) → has k xs ≡ any (λ x. text_eq x k) xs
unfolding has any
has_as_any k [] = refl
has_as_any k (x ∷ xs) = ground (arith, has_as_any k xs)

marked-has :
    (version : Text) (fs : Fields)
    → at fs (lit "served") ≡ bool true
    → at fs (lit "name") ≡ str version
    → has version (marked_version (lit "served") fs) ≡ true
unfolding has
marked-has version fs mark name =
    rw (mark, name, marked_version) (ground (arith, text_eq_iff version version))

-- A served version is among the served versions, and they are those of the definition.
served-has :
    (crd : KubeObject) (version : Text)
    → Serves crd version
    → has version (crd_served_versions crd) ≡ true
unfolding crd_served_versions
served-has crd version (i, fs, there, mark, name) =
    let found = flat_map (marked_version (lit "served")) (versions_of crd) in
    has_as_any version (sort_by text_compare found)
    ∙ sort_by-any text_compare (λ x. text_eq x version) found
    ∙ sym (has_as_any version found)
    ∙ has-flat_map (marked_version (lit "served")) version (versions_of crd) i fs there
        (marked-has version fs mark name)

known_versions-has :
    (k : Text) (vs : List Text) (stored : Text)
    → has k vs ≡ true
    → has k (known_versions vs stored) ≡ true
unfolding has
known_versions-has k [] stored h = absurd (ground arith)
known_versions-has k (v ∷ vs) stored h = h

has-nonempty :
    (k : Text) (vs : List Text) → has k vs ≡ true → (elim vs [ [] ↦ false | _ ∷ _ ↦ true ]) ≡ true
unfolding has
has-nonempty k [] h = absurd (ground arith)
has-nonempty k (v ∷ vs) h = refl

is_complete-of :
    (d : Definition) (k : Text)
    → truthy d.name ≡ true
    → truthy d.group ≡ true
    → truthy d.kind ≡ true
    → has k d.versions ≡ true
    → is_complete d ≡ true
is_complete-of d k a b c h = rw (a, b, c) (has-nonempty k d.versions h)

defines-of :
    (d : Definition) (group version kind : Text)
    → d.group ≡ group
    → d.kind ≡ kind
    → has version d.versions ≡ true
    → defines group version kind d ≡ true
defines-of d group version kind g k h =
    rw ((text_eq_iff d.group group).1 g, (text_eq_iff d.kind kind).1 k) h

split-truthy : (c : ℕ) (s g v : Text) → split c s ≡ g ∷ v ∷ [] → truthy s ≡ true
unfolding split
split-truthy c [] g v h = absurd (ground arith)
split-truthy c (d ∷ s) g v h = refl

parts-of :
    (s group version : Text)
    → split b'/' s ≡ group ∷ version ∷ []
    → api_version_parts s ≡ (group, version)
unfolding api_version_parts kuviewer.Base.join
parts-of s group version h = rw (h, api_version_parts) refl

for_object-find :
    (o crd : KubeObject) (ds : List Definition) (w : IsDefinedBy o crd)
    → is_named o ≡ true
    → custom_resource_definition_for_object o ds
      ≡ find (defines w.group w.version (object_kind o)) ds
unfolding custom_resource_definition_for_object is_named
for_object-find o crd ds w named =
    let kind_told = (and-split (truthy (object_kind o)) _ named).0 in
    let version_told = split-truthy b'/' (api_version o) w.group w.version w.of_version in
    rw
      (
        parts-of (api_version o) w.group w.version w.of_version,
        kind_told,
        version_told,
        w.full_group,
        w.full_version,
      )
      refl

-- The object's definition is found among those of the upload.
IsDefinedBy-some :
    (objects : List KubeObject) (o crd : KubeObject) (j : ℕ)
    → get_elem? objects j ≡ some crd
    → is_named o ≡ true
    → IsDefinedBy o crd
    → (d : Definition) × (custom_resource_definition_for_object o
          (custom_resource_definition_records (filter is_named objects))
        ≡ some d)
unfolding custom_resource_definition_for_object custom_resource_definition_records api_version_parts
    is_named
IsDefinedBy-some objects o crd j there named w =
    let (j1, at1) = get_elem?-filter is_named objects j crd there w.has_name in
    let is_crd =
      (text_eq_iff (object_kind crd) (lit "CustomResourceDefinition")).1 w.defines_kind in
    let (j2, at2) =
      get_elem?-filter (λ o. text_eq (object_kind o) (lit "CustomResourceDefinition"))
        (filter is_named objects) j1 crd at1 is_crd in
    let at3 = get_elem?-map definition_of _ j2 crd at2 in
    let versions : has w.version (definition_of crd).versions ≡ true =
      known_versions-has w.version (crd_served_versions crd) _
        (served-has crd w.version w.served) in
    let complete : is_complete (definition_of crd) ≡ true =
      is_complete-of (definition_of crd) w.version
        (and-split (truthy (object_kind crd)) _ w.has_name).1 (rw w.of_group w.full_group)
        (rw w.of_kind (and-split (truthy (object_kind o)) _ named).0) versions in
    let (j4, at4) = get_elem?-filter is_complete _ j2 (definition_of crd) at3 complete in
    let fits : defines w.group w.version (object_kind o) (definition_of crd) ≡ true =
      defines-of (definition_of crd) w.group w.version (object_kind o) w.of_group w.of_kind
        versions in
    let (d, found) =
      find-some (defines w.group w.version (object_kind o)) _ j4 (definition_of crd) at4 fits in
    (d, for_object-find o crd _ w named ∙ found)

normalized-native :
    (o : KubeObject) (ds : List Definition)
    → has (object_kind o) supported_upload_kinds ≡ true
    → normalize_object_kind o ds ≡ some (object_kind o, none)
unfolding normalize_object_kind normalize_upload_resource_kind
normalized-native o ds known = rw (known, normalize_object_kind) refl

normalized-custom :
    (o : KubeObject) (ds : List Definition) (d : Definition)
    → has (object_kind o) supported_upload_kinds ≡ false
    → custom_resource_definition_for_object o ds ≡ some d
    → normalize_object_kind o ds ≡ some (lit "CustomResource", some d)
unfolding normalize_object_kind normalize_upload_resource_kind
normalized-custom o ds d unknown found = rw (unknown, found, normalize_object_kind) refl

native_name :
    (o : KubeObject)
    → has (object_kind o) supported_upload_kinds ≡ true
    → object_name_for_kind (object_kind o) o ≡ object_name o
unfolding object_name_for_kind
native_name o known = elim (Bool-cases (text_eq (object_kind o) (lit "CustomResource"))) [
  | inl same ↦ absurd (
      ground (
        arith,
        no_custom_kind,
        rw ((text_eq_iff (object_kind o) (lit "CustomResource")).0 same) at known,
      ))
  | inr other ↦ rw other refl
]

custom_name :
    (o : KubeObject)
    → is_named o ≡ true
    → object_name_for_kind (lit "CustomResource") o ≡ object_kind o ++ (b':' ∷ object_name o)
unfolding object_name_for_kind is_named text_eq lit
custom_name o named =
    ap (λ k. k ++ (b':' ∷ object_name o))
      (or_text-truthy (object_kind o) _ (and-split (truthy (object_kind o)) _ named).0)

module _ (js : Platform) (s : Schemas) where
  -- An object with a name has a node in the snapshot if its kind is supported: under its namespace,
  -- kind and name. One of another kind has a node, under its namespace, as a CustomResource and with
  -- its own kind before its name, if a named definition is uploaded with it whose group and kind are
  -- the object's and which marks the object's version as served.
  pub build_snapshot_from_kubernetes_objects-has :
      (objects : List KubeObject) (warnings : List Text) (options : UploadOptions) (i : ℕ)
      (o : KubeObject) (kind name : Text)
      → get_elem? objects i ≡ some o
      → is_named o ≡ true
      → IsShownAs objects o kind name
      → has (node_id options.cluster_id (object_namespace o) kind name) (
          graph_node_ids
            (build_snapshot_from_kubernetes_objects js s objects warnings options).0.nodes)
        ≡ true
  build_snapshot_from_kubernetes_objects-has objects warnings options i o kind name there named
        (inl (known, k, n)) =
      rw (k, n, ← (native_name o known))
        (build_snapshot-normalized js s objects warnings options i o (object_kind o) none there
          named (normalized-native o _ known))
  build_snapshot_from_kubernetes_objects-has objects warnings options i o kind name there named
        (inr (unknown, k, n, j, crd, among, w)) =
      let (d, found) = IsDefinedBy-some objects o crd j among named w in
      rw (k, n, ← (custom_name o named))
        (build_snapshot-normalized js s objects warnings options i o (lit "CustomResource") (some d)
          there named (normalized-custom o _ d unknown found))
