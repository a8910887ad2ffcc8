-- ===== src/Upload/Import/Safe.antt =====
-- What an imported topology may hold, whatever value it was read from.
use kuviewer.Base.{
  ℕ, ◌≤◌, ◌<◌, ◌≡◌, refl, inl, inr, true, none, some, List, [], ◌∷◌, arith, Text, lit, truthy, trim,
  has, length, length-take, All, Bool-cases, along_some, >>=-eq-some,
}
use kuviewer.Base.Dict.{Dict}
use kuviewer.Base.Number.{Number, dyadic, pos, negsuc, num_le, is_finite}
use kuviewer.Json.{Value, num, str, obj, at}
use kuviewer.Platform.{Platform}
use kuviewer.SafeMetadata.{IsRedacted, safe_annotations-IsRedacted}
use kuviewer.Topology.Types.{TopologyNode, resource_kinds, resource_statuses}
use kuviewer.Upload.Import.Snapshot.{sanitize_imported_node, unless_empty}
use kuviewer.Upload.Import.Values.{
  imported_string, required_imported_string, imported_coordinate, member_of, max_coordinate,
  min_coordinate, clamp,
}

abbrev pub IsSized : ℕ → Text → Type 0
IsSized n s = (0 < length s) × (length s ≤ n)

imported_string-le : (v : Value) (n : ℕ) → length (imported_string v n) ≤ n
unfolding imported_string
imported_string-le (str s) n = omega (arith, length-take n (trim s))
imported_string-le _ n = omega arith

truthy-pos : (s : Text) → truthy s ≡ true → 0 < length s
truthy-pos [] h = absurd (ground arith)
truthy-pos (c ∷ s) h = omega arith

pub required_imported_string-IsSized :
    (v : Value) (n : ℕ) (s : Text) → required_imported_string v n ≡ some s → IsSized n s
unfolding required_imported_string
required_imported_string-IsSized v n s h = elim (Bool-cases (truthy (imported_string v n))) [
  | inl full ↦
      along_some (IsSized n) (rw full at h)
        (truthy-pos (imported_string v n) full, imported_string-le v n)
  | inr empty ↦ absurd (ground arith)
]

pub member_of-has :
    (known : List Text) (v : Value) (s : Text) → member_of known v ≡ some s → has s known ≡ true
unfolding member_of
member_of-has known (str t) s h = ground arith
member_of-has known _ s h = absurd (ground arith)

abbrev IsWithin : Number → Type 0
IsWithin x = (num_le min_coordinate x ≡ true) × (num_le x max_coordinate ≡ true)

clamp-IsWithin : (n : Number) → is_finite n ≡ true → IsWithin (clamp n)
clamp-IsWithin (dyadic (pos n) k) h = ground arith
clamp-IsWithin (dyadic (negsuc n) k) h = ground arith
clamp-IsWithin _ h = absurd (ground arith)

imported_coordinate-IsWithin : (v : Value) → IsWithin (imported_coordinate v)
unfolding imported_coordinate
imported_coordinate-IsWithin (num n) = elim (Bool-cases (is_finite n)) [
  | inl finite ↦ rw finite (clamp-IsWithin n finite)
  | inr not_finite ↦ rw not_finite (refl, refl)
]
imported_coordinate-IsWithin _ = (refl, refl)

abbrev pub annotations_of : TopologyNode → Dict Text
annotations_of n = elim n.annotations [ none ↦ [] | some m ↦ m ]

-- A node of an imported topology.
pub record IsImportedNode (js : Platform) (n : TopologyNode) : Type 0 where
  pub kind_known : has n.kind resource_kinds ≡ true
  pub status_known : has n.status resource_statuses ≡ true
  pub id_sized : IsSized 500 n.id
  pub cluster_id_sized : IsSized 160 n.cluster_id
  pub name_sized : IsSized 253 n.name
  pub x_within : IsWithin n.x
  pub y_within : IsWithin n.y
  pub annotations_redacted : All (IsRedacted js) (annotations_of n)

unless_empty-All :
    (P : Text × Text → Type 0) (m : Dict Text)
    → All P m
    → All P (elim (unless_empty m) [ none ↦ [] | some k ↦ k ])
unless_empty-All P [] a = tt
unless_empty-All P (e ∷ m) a = a

-- Whatever value a node is read from, its kind and status are known ones, its id, cluster and name
-- are neither empty nor too long, it lies within the coordinate limits, and each annotation is
-- redacted or free of sensitive words in key and value.
pub sanitize_imported_node-IsImportedNode :
    (js : Platform) (v : Value) {n : TopologyNode}
    → sanitize_imported_node js v ≡ some n
    → IsImportedNode js n
unfolding sanitize_imported_node
sanitize_imported_node-IsImportedNode js (obj fs) h =
    let (kind, hk, h1) = >>=-eq-some (member_of resource_kinds (at fs (lit "kind"))) _ h in
    let (status, hs, h2) = >>=-eq-some (member_of resource_statuses (at fs (lit "status"))) _ h1 in
    let (id, hi, h3) = >>=-eq-some (required_imported_string (at fs (lit "id")) 500) _ h2 in
    let (cluster, hc, h4) =
      >>=-eq-some (required_imported_string (at fs (lit "clusterId")) 160) _ h3 in
    let (name, hn, h5) = >>=-eq-some (required_imported_string (at fs (lit "name")) 253) _ h4 in
    along_some (IsImportedNode js) h5 (record {
      kind_known = member_of-has resource_kinds (at fs (lit "kind")) kind hk;
      status_known = member_of-has resource_statuses (at fs (lit "status")) status hs;
      id_sized = required_imported_string-IsSized (at fs (lit "id")) 500 id hi;
      cluster_id_sized = required_imported_string-IsSized (at fs (lit "clusterId")) 160 cluster hc;
      name_sized = required_imported_string-IsSized (at fs (lit "name")) 253 name hn;
      x_within = imported_coordinate-IsWithin (at fs (lit "x"));
      y_within = imported_coordinate-IsWithin (at fs (lit "y"));
      annotations_redacted = unless_empty-All (IsRedacted js) _ (safe_annotations-IsRedacted js _);
    })
sanitize_imported_node-IsImportedNode js _ h = absurd (ground arith)
