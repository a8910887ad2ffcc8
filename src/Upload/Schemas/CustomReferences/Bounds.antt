-- ===== src/Upload/Schemas/CustomReferences/Bounds.antt =====
-- The bounds of the references that are inferred of a custom resource.
use kuviewer.Base.{
  ℕ, ◌+◌, ◌≤◌, ◌≡◌, refl, sym, ap, ◌∙◌, ◌⊎◌, get_elem?, find-get_elem?, text_eq_iff, true, false,
  not, ◌&&◌, ◌||◌, Option, none, some, List, [], ◌∷◌, ◌++◌, Text, lit, text_eq, truthy,
  or_text-truthy, has, length, All, All-append, length-append, length-take, arith, Bool-cases,
  Option-cases, inl, inr, if◌then◌else◌,
}
use kuviewer.Json.{undefined, null, bool, num, str, arr, obj, Items, nil, cons, Fields, at}
use kuviewer.Platform.{Platform}
use kuviewer.Upload.Graph.Definitions.{Definition, api_version_parts, defines}
use kuviewer.Upload.Graph.Closed.{if_keeps}
use kuviewer.Upload.Graph.Schemas.{CustomResourceReference}
use kuviewer.Upload.Object.{normalize_upload_resource_kind, supported_upload_kinds, no_custom_kind}
use kuviewer.Upload.Schemas.CustomReferences.{
  Traversal, push_reference, is_full, max_path_length, cluster_scoped_kinds, append_path,
  append_index, string_value, target_namespace_for_kind, reference_of, native_reference,
  custom_resource_reference_from_object, push_found, push_items,
  custom_resource_definition_for_reference, kind_among, reference_key_kinds, name_key_kinds,
  custom_resource_reference_kind_from_key, custom_resource_reference_kind_from_name_key,
}

-- A reference to a custom resource is named after the kind of one of the definitions; where that
-- has the scope Cluster, the reference has no namespace.
abbrev pub IsScoped : List Definition → CustomResourceReference → Type 0
IsScoped ds r =
    (text_eq r.kind (lit "CustomResource") ≡ false)
    ⊎ ((i : ℕ) × (d : Definition) × (name : Text) × (get_elem? ds i ≡ some d)
        × (r.name ≡ d.kind ++ (b':' ∷ name))
        × ((not (text_eq d.scope (lit "Cluster")) || not (truthy r.namespace)) ≡ true))

-- A reference has a name and a short path, and names no namespace where its kind has none.
abbrev pub IsReference : List Definition → CustomResourceReference → Type 0
IsReference ds r =
    (truthy r.name ≡ true)
    × ((length r.source_field ≤ 512)
        × (((not (has r.kind cluster_scoped_kinds) || not (truthy r.namespace)) ≡ true)
            × IsScoped ds r))

-- At most 80 references, and each is one.
abbrev pub IsBounded : List Definition → Traversal → Type 0
IsBounded ds s = (length s.references ≤ 80) × All (IsReference ds) s.references

abbrev pub IsFound : List Definition → Option CustomResourceReference → Type 0
IsFound ds none = Unit
IsFound ds (some r) = IsReference ds r

-- A kind, if there is one, that is not that of the custom resources.
abbrev pub IsNative : Option Text → Type 0
IsNative none = Unit
IsNative (some kind) = text_eq kind (lit "CustomResource") ≡ false

kind_among-IsNative :
    (pairs : List (List Text × Text)) (key : Text)
    → All (λ p. text_eq p.1 (lit "CustomResource") ≡ false) pairs
    → IsNative (kind_among pairs key)
kind_among-IsNative [] key a = tt
kind_among-IsNative ((known, kind) ∷ rest) key a = elim (Bool-cases (has key known)) [
  | inl found ↦ rw found a.0
  | inr other ↦ rw other (kind_among-IsNative rest key a.1)
]

pub kind_from_key-IsNative :
    (js : Platform) (key : Text) → IsNative (custom_resource_reference_kind_from_key js key)
unfolding custom_resource_reference_kind_from_key reference_key_kinds text_eq lit
kind_from_key-IsNative js key =
    kind_among-IsNative reference_key_kinds (js.lower key) (refl, (refl, (refl, (refl, tt))))

pub kind_from_name_key-IsNative :
    (js : Platform) (key : Text) → IsNative (custom_resource_reference_kind_from_name_key js key)
unfolding custom_resource_reference_kind_from_name_key name_key_kinds text_eq lit
kind_from_name_key-IsNative js key =
    kind_among-IsNative name_key_kinds (js.lower key) (refl, (refl, (refl, (refl, tt))))

normalize-IsNative : (kind : Text) → IsNative (normalize_upload_resource_kind kind)
unfolding normalize_upload_resource_kind
normalize-IsNative kind = elim (Bool-cases (has kind supported_upload_kinds)) [
  | inr other ↦ rw other tt
  | inl known ↦ elim (Bool-cases (text_eq kind (lit "CustomResource"))) [
    | inl custom ↦ absurd (
        ground
          (arith, no_custom_kind, rw ((text_eq_iff kind (lit "CustomResource")).0 custom) at known))
    | inr other ↦ rw known other
  ]
]

pub append_path-length : (path key : Text) → length (append_path path key) ≤ 512
unfolding append_path
append_path-length path key = omega (arith, length-take {0} max_path_length (path ++ (b'.' ∷ _)))

pub append_index-length : (path : Text) (index : ℕ) → length (append_index path index) ≤ 512
unfolding append_index
append_index-length path index = omega (arith, length-take {0} max_path_length (path ++ (b'[' ∷ _)))

pub target_namespace-blank :
    (kind namespace : Text) (d : Definition)
    → (not (has kind cluster_scoped_kinds)
        || not (truthy (target_namespace_for_kind kind namespace d)))
      ≡ true
unfolding target_namespace_for_kind
target_namespace-blank kind namespace d = ground arith

truthy-append : (s t : Text) → truthy (s ++ (b':' ∷ t)) ≡ true
truthy-append [] t = refl
truthy-append (c ∷ s) t = refl

-- The definition that a reference fits is one of those given, of the kind that it names.
definition_for_reference :
    (version kind : Text) (ds : List Definition) (d : Definition)
    → custom_resource_definition_for_reference version kind ds ≡ some d
    → (i : ℕ) × (get_elem? ds i ≡ some d) × (d.kind ≡ kind)
unfolding custom_resource_definition_for_reference
definition_for_reference version kind ds d h =
    let (group, name) = api_version_parts version in
    elim (Bool-cases (truthy group && truthy name)) [
      | inr blank ↦ absurd (ground (arith, rw blank at h))
      | inl full ↦
          let (i, there, fits) = find-get_elem? (defines group name kind) ds d (rw full at h) in
          (i, there, (text_eq_iff d.kind kind).0 (ground arith))
    ]

module _ (js : Platform) (default_namespace : Text) (source : Definition)
    (ds : List Definition) where
  native-IsReference :
      (fs : Fields) (kind kind_name name : Text) (d : Definition) (path : Text)
      → text_eq kind (lit "CustomResource") ≡ false
      → truthy name ≡ true
      → length path ≤ 512
      → IsReference ds (reference_of js default_namespace source ds fs kind kind_name name d path)
  native-IsReference fs kind kind_name name d path native named short =
      (rw native named, (short, (target_namespace-blank kind _ d, inl native)))

  scoped :
      (namespace : Text) (d : Definition)
      → (not (text_eq d.scope (lit "Cluster"))
          || not (truthy (target_namespace_for_kind (lit "CustomResource") namespace d)))
        ≡ true
  unfolding target_namespace_for_kind text_eq lit
  scoped namespace d = ground arith

  custom-IsReference :
      (fs : Fields) (kind_name name : Text) (d : Definition) (path : Text) (i : ℕ)
      → get_elem? ds i ≡ some d
      → d.kind ≡ kind_name
      → truthy kind_name ≡ true
      → length path ≤ 512
      → IsReference ds (
          reference_of js default_namespace source ds fs
            (lit "CustomResource")
            kind_name
            name
            d
            path)
  unfolding text_eq lit
  custom-IsReference fs kind_name name d path i there same named short = (
    truthy-append _ name,
    (
      short,
      (
        target_namespace-blank (lit "CustomResource") _ d,
        inr (
          i,
          d,
          name,
          there,
          ap (λ k. k ++ (b':' ∷ name)) (or_text-truthy kind_name _ named ∙ sym same),
          scoped _ d,
        ),
      ),
    ),
  )

  native_reference-IsFound :
      (fs : Fields) (fallback : Option Text) (kind_name name path : Text)
      → IsNative fallback
      → truthy name ≡ true
      → length path ≤ 512
      → IsFound ds (native_reference js default_namespace source ds fs fallback kind_name name path)
  native_reference-IsFound fs fallback kind_name name path native named short =
      elim (Option-cases (normalize_upload_resource_kind kind_name)) [
        | inr (kind, e) ↦
            rw (e, native_reference)
              (native-IsReference fs kind kind_name name source path
                (rw e at (normalize-IsNative kind_name)) named short)
        | inl e ↦ rw (e, native_reference) (told fallback native)
      ]
    where
      told :
          (fallback : Option Text)
          → IsNative fallback
          → IsFound ds (elim fallback [
            | some kind ↦
                some
                  (reference_of js default_namespace source ds fs kind kind_name name source path)
            | none ↦ none
          ])
      told none native = tt
      told (some kind) native =
          native-IsReference fs kind kind_name name source path native named short

  pub from_object-IsFound :
      (fs : Fields) (fallback : Option Text) (path : Text)
      → IsNative fallback
      → length path ≤ 512
      → IsFound ds
          (custom_resource_reference_from_object js default_namespace source ds fs fallback path)
  unfolding custom_resource_reference_from_object
  from_object-IsFound fs fallback path native short = elim (Bool-cases (truthy name)) [
    | inr blank ↦ rw (blank, custom_resource_reference_from_object) tt
    | inl named ↦ elim (Option-cases fitting) [
      | inl e ↦
          rw (named, e, custom_resource_reference_from_object)
            (native_reference-IsFound fs fallback kind_name name path native named short)
      | inr (d, e) ↦ rw (named, e, custom_resource_reference_from_object) (custom d e)
    ]
  ]
    where
      name : Text
      name = string_value (at fs (lit "name"))

      kind_name : Text
      kind_name = string_value (at fs (lit "kind"))

      version : Text
      version = string_value (at fs (lit "apiVersion"))

      fitting : Option Definition
      fitting =
          if truthy kind_name && truthy version
          then custom_resource_definition_for_reference version kind_name ds
          else none

      custom :
          (d : Definition)
          → fitting ≡ some d
          → IsReference ds (
              reference_of js default_namespace source ds fs
                (lit "CustomResource")
                kind_name
                name
                d
                path)
      custom d e = elim (Bool-cases (truthy kind_name && truthy version)) [
        | inr blank ↦ absurd (ground (arith, rw blank at e))
        | inl full ↦
            let (i, there, same) = definition_for_reference version kind_name ds d (rw full at e) in
            custom-IsReference fs kind_name name d path i there same (ground arith) short
      ]

pub push_reference-IsBounded :
    (ds : List Definition) (r : CustomResourceReference) (s : Traversal)
    → IsReference ds r
    → is_full s ≡ false
    → IsBounded ds s
    → IsBounded ds (push_reference r s)
push_reference-IsBounded ds r s good room (few, all) = (
  ground (arith, length-append {0} s.references (r ∷ [])),
  All-append (IsReference ds) s.references (r ∷ []) all (good, tt),
)

module _ (js : Platform) (default_namespace : Text) (source : Definition)
    (ds : List Definition) where
  pub push_found-IsBounded :
      (found : Option CustomResourceReference) (s : Traversal)
      → IsFound ds found
      → is_full s ≡ false
      → IsBounded ds s
      → IsBounded ds (push_found js default_namespace source ds found s)
  push_found-IsBounded none s good room b = b
  push_found-IsBounded (some r) s good room b = push_reference-IsBounded ds r s good room b

  pub push_items-IsBounded :
      (vs : Items) (index : ℕ) (fallback : Option Text) (path : Text) (s : Traversal)
      → IsNative fallback
      → IsBounded ds s
      → IsBounded ds (push_items js default_namespace source ds vs index fallback path s)
  unfolding push_items
  push_items-IsBounded nil index fallback path s native b = b
  push_items-IsBounded (cons (obj fs) vs) index fallback path s native b =
      elim (Bool-cases (is_full s)) [
        | inl full ↦ rw (full, push_items) b
        | inr room ↦
            rw (room, push_items)
              (push_items-IsBounded vs (index + 1) fallback path _ native (
                push_found-IsBounded _ s
                  (from_object-IsFound js default_namespace source ds fs fallback _ native
                    (append_index-length path index))
                  room b))
      ]
  push_items-IsBounded (cons undefined vs) index fallback path s native b =
      if_keeps (IsBounded ds) (is_full s) s _ b
        (push_items-IsBounded vs (index + 1) fallback path s native b)
  push_items-IsBounded (cons null vs) index fallback path s native b =
      if_keeps (IsBounded ds) (is_full s) s _ b
        (push_items-IsBounded vs (index + 1) fallback path s native b)
  push_items-IsBounded (cons (bool t) vs) index fallback path s native b =
      if_keeps (IsBounded ds) (is_full s) s _ b
        (push_items-IsBounded vs (index + 1) fallback path s native b)
  push_items-IsBounded (cons (num n) vs) index fallback path s native b =
      if_keeps (IsBounded ds) (is_full s) s _ b
        (push_items-IsBounded vs (index + 1) fallback path s native b)
  push_items-IsBounded (cons (str t) vs) index fallback path s native b =
      if_keeps (IsBounded ds) (is_full s) s _ b
        (push_items-IsBounded vs (index + 1) fallback path s native b)
  push_items-IsBounded (cons (arr us) vs) index fallback path s native b =
      if_keeps (IsBounded ds) (is_full s) s _ b
        (push_items-IsBounded vs (index + 1) fallback path s native b)
