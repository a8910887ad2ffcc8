-- ===== src/Resources/Presets/Accepted.antt =====
-- What a stored or imported view is cut down to before it is used.
use kuviewer.Base.{
  ℕ, ◌≤◌, ◌≡◌, refl, true, not, ◌&&◌, some, [], ◌∷◌, arith, suc, Text, lit, text_eq, truthy,
  or_text, trim, length, length-take, take, >>=-eq-some, guard-eq-some, and-split, along_some,
  Bool-cases, inl, inr,
}
use kuviewer.Base.Number.{Number, whole, is_finite, num_lt}
use kuviewer.Json.{Value, undefined, null, bool, num, str, arr, obj, at}
use kuviewer.Resources.Presets.{
  ResourceViewPreset, valid_resource_view_preset, normalize_resource_view_preset_group,
  normalize_resource_view_preset_order, positive_or, or_all, as_text, as_number, text_or_empty,
}

-- A positive finite number.
abbrev pub IsPlace : Number → Type 0
IsPlace n = (is_finite n ≡ true) × (num_lt (whole 0) n ≡ true)

-- A view in its normal form.
pub record IsNormal (p : ResourceViewPreset) : Type 0 where
  pub name_there : truthy p.name ≡ true
  pub name_short : length p.name ≤ 80
  pub group_there : truthy p.group ≡ true
  pub group_short : length p.group ≤ 40
  pub query_short : length p.query ≤ 160
  pub cluster_there : truthy p.cluster ≡ true
  pub namespace_there : truthy p.namespace ≡ true
  pub kind_there : truthy p.kind ≡ true
  pub status_there : truthy p.status ≡ true
  pub order_placed : IsPlace p.order

take-truthy : (n : ℕ) (s : Text) → not (text_eq s []) ≡ true → truthy (take (suc n) s) ≡ true
unfolding text_eq
take-truthy n [] h = absurd (ground arith)
take-truthy n (c ∷ s) h = refl

or_text-truthy : (s d : Text) → truthy d ≡ true → truthy (or_text s d) ≡ true
or_text-truthy [] d h = h
or_text-truthy (c ∷ s) d h = refl

take-short : (n : ℕ) (s : Text) → length (take n s) ≤ n
take-short n s = omega (arith, length-take n s)

group-normal :
    (s : Text)
    → (truthy (normalize_resource_view_preset_group s) ≡ true)
      × (length (normalize_resource_view_preset_group s) ≤ 40)
unfolding normalize_resource_view_preset_group lit
group-normal s = (
  or_text-truthy (take 40 (trim s)) (lit "General") refl,
  short (take 40 (trim s)) (take-short 40 (trim s)),
)
  where
    short : (t : Text) → length t ≤ 40 → length (or_text t (lit "General")) ≤ 40
    short [] h = omega arith
    short (c ∷ t) h = h

positive_or-IsPlace : (n d : Number) → IsPlace d → IsPlace (positive_or n d)
positive_or-IsPlace n d h = elim (Bool-cases (is_finite n && num_lt (whole 0) n)) [
  | inl good ↦ rw good (and-split (is_finite n) (num_lt (whole 0) n) good)
  | inr bad ↦ rw bad h
]

order-IsPlace :
    (v : Value) (d : Number) → IsPlace d → IsPlace (normalize_resource_view_preset_order v d)
unfolding normalize_resource_view_preset_order
order-IsPlace (num n) d h = positive_or-IsPlace n d h
order-IsPlace undefined d h = h
order-IsPlace null d h = h
order-IsPlace (bool b) d h = h
order-IsPlace (str s) d h = h
order-IsPlace (arr vs) d h = h
order-IsPlace (obj fs) d h = h

or_all-truthy : (s : Text) → truthy (or_all s) ≡ true
unfolding lit
or_all-truthy s = or_text-truthy s (lit "all") refl

-- Whatever value a view is read from, with a positive finite place to fall back on, the view that
-- is accepted is normal: name, group, cluster, namespace, kind and status are not empty, name, group
-- and query have at most 80, 40 and 160 code units, and the order is positive and finite.
pub valid_resource_view_preset-IsNormal :
    (v : Value) (fallback : Number) {p : ResourceViewPreset}
    → IsPlace fallback
    → valid_resource_view_preset v fallback ≡ some p
    → IsNormal p
unfolding valid_resource_view_preset
valid_resource_view_preset-IsNormal (obj fs) fallback {p} f h =
    let (name, _, h1) = >>=-eq-some (as_text (at fs (lit "name"))) _ h in
    let (there, h2) = guard-eq-some (not (text_eq (trim name) [])) _ h1 in
    let (query, _, h3) = >>=-eq-some (as_text (at fs (lit "query"))) _ h2 in
    let (cluster, _, h4) = >>=-eq-some (as_text (at fs (lit "cluster"))) _ h3 in
    let (namespace, _, h5) = >>=-eq-some (as_text (at fs (lit "namespace"))) _ h4 in
    let (kind, _, h6) = >>=-eq-some (as_text (at fs (lit "kind"))) _ h5 in
    let (status, _, h7) = >>=-eq-some (as_text (at fs (lit "status"))) _ h6 in
    let (updated, _, h8) = >>=-eq-some (as_number (at fs (lit "updatedAt"))) _ h7 in
    let g = group-normal (text_or_empty (at fs (lit "group"))) in
    along_some IsNormal h8 (record {
      name_there = take-truthy 79 (trim name) there;
      name_short = take-short 80 (trim name);
      group_there = g.0;
      group_short = g.1;
      query_short = take-short 160 query;
      cluster_there = or_all-truthy cluster;
      namespace_there = or_all-truthy namespace;
      kind_there = or_all-truthy kind;
      status_there = or_all-truthy status;
      order_placed = order-IsPlace (at fs (lit "order")) fallback f;
    })
valid_resource_view_preset-IsNormal _ fallback f h = absurd (ground arith)
