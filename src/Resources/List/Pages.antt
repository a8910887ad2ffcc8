-- ===== src/Resources/List/Pages.antt =====
-- Paging, sorting and the selection: what stays in the list.
use kuviewer.Base.{
  ℕ, ◌+◌, ◌≡◌, subst, refl, sym, ◌∙◌, ap, Bool, true, false, not, ◌&&◌, ◌||◌, List, [], ◌∷◌, ◌++◌,
  map, arith, Text, text_eq_iff, has, filter, length, length-filter-le, ◌==◌, ==_iff, Bool-cases,
  inl, inr,
}
use kuviewer.Base.Indexed.{indexed}
use kuviewer.Base.Sets.{
  Distinct, set_of, has-set_of, has-append, has-filter, filter-Distinct, map-filter,
}
use kuviewer.Base.Sort.{sort_by, sort_by-count}
use kuviewer.Platform.{Platform}
use kuviewer.Resources.List.{
  ResourceExplorerItem, resource_ids, SortPreference, Placed, merge_resource_pages, placed_order,
  sort_resource_list, reconcile_resource_selection,
}

ids-append :
    (xs ys : List ResourceExplorerItem)
    → resource_ids (xs ++ ys) ≡ resource_ids xs ++ resource_ids ys
ids-append [] ys = refl
ids-append (x ∷ xs) ys = ap (◌∷◌ x.id) (ids-append xs ys)

ids-merge :
    (current incoming : List ResourceExplorerItem)
    → resource_ids (merge_resource_pages current incoming)
      ≡ resource_ids current
        ++ filter (λ k. not (has k (set_of (resource_ids current)))) (resource_ids incoming)
unfolding merge_resource_pages
ids-merge current incoming =
    ids-append current _
    ∙ ap (λ s. resource_ids current ++ s)
        (map-filter (λ (r : ResourceExplorerItem). r.id)
          (λ k. not (has k (set_of (resource_ids current)))) incoming)

append-Distinct :
    (xs ys : List Text)
    → Distinct xs
    → Distinct ys
    → ((k : Text) → has k ys ≡ true → has k xs ≡ false)
    → Distinct (xs ++ ys)
unfolding has
append-Distinct [] ys d e apart = e
append-Distinct (x ∷ xs) ys d e apart = (
  ground (arith, has-append x xs ys, apart x, text_eq_iff x x),
  append-Distinct xs ys d.1 e (λ k h. ground (arith, apart k h)),
)

has-merge :
    (current incoming : List ResourceExplorerItem) (k : Text)
    → has k (resource_ids (merge_resource_pages current incoming))
      ≡ (has k (resource_ids current) || has k (resource_ids incoming))
has-merge current incoming k =
    let fresh = λ (j : Text). not (has j (set_of (resource_ids current))) in
    ap (has k) (ids-merge current incoming)
    ∙ has-append k (resource_ids current) (filter fresh (resource_ids incoming))
    ∙ ground
        (arith, has-filter fresh k (resource_ids incoming), has-set_of k (resource_ids current))

-- Adding a page of resources to those loaded: an id is there afterwards exactly where it was loaded
-- or came with the page; and where neither of the two had an id twice, the result has none twice.
pub merge_resource_pages-Distinct :
    (current incoming : List ResourceExplorerItem) (k : Text)
    → Distinct (resource_ids current)
    → Distinct (resource_ids incoming)
    → Distinct (resource_ids (merge_resource_pages current incoming))
      × (has k (resource_ids (merge_resource_pages current incoming))
          ≡ (has k (resource_ids current) || has k (resource_ids incoming)))
merge_resource_pages-Distinct current incoming k d e =
    let fresh = λ (j : Text). not (has j (set_of (resource_ids current))) in
    (
      subst Distinct (sym (ids-merge current incoming)) (
          append-Distinct (resource_ids current) (filter fresh (resource_ids incoming)) d
            (filter-Distinct fresh (resource_ids incoming) e)
            (λ j h. ground (
              arith,
              has-filter fresh j (resource_ids incoming),
              has-set_of j (resource_ids current),
            ))),
      has-merge current incoming k,
    )

all_known :
    (known : List Text) (incoming : List ResourceExplorerItem)
    → ((k : Text) → has k (resource_ids incoming) ≡ true → has k known ≡ true)
    → filter (λ (r : ResourceExplorerItem). not (has r.id known)) incoming ≡ []
unfolding filter has
all_known known [] h = refl
all_known known (r ∷ rs) h =
    let rest = all_known known rs (λ k e. h k (ground arith)) in
    ground (arith, h r.id, text_eq_iff r.id r.id)

append-nil : (xs : List ResourceExplorerItem) → xs ++ [] ≡ xs
append-nil [] = refl
append-nil (x ∷ xs) = ap (◌∷◌ x) (append-nil xs)

-- A page that comes a second time changes nothing.
pub merge_resource_pages-twice :
    (current incoming : List ResourceExplorerItem)
    → merge_resource_pages (merge_resource_pages current incoming) incoming
      ≡ merge_resource_pages current incoming
unfolding merge_resource_pages
merge_resource_pages-twice current incoming =
    again (merge_resource_pages current incoming)
      (λ k h. has-set_of k _ ∙ has-merge current incoming k ∙ ground arith)
  where
    again :
        (loaded : List ResourceExplorerItem)
        → ((k : Text)
            → has k (resource_ids incoming) ≡ true
            → has k (set_of (resource_ids loaded)) ≡ true)
        → merge_resource_pages loaded incoming ≡ loaded
    again loaded h =
        ap (λ s. loaded ++ s) (all_known (set_of (resource_ids loaded)) incoming h)
        ∙ append-nil loaded

filter-full :
    (p : Text → Bool) (xs : List Text) → length (filter p xs) ≡ length xs → filter p xs ≡ xs
unfolding filter
filter-full p [] h = refl
filter-full p (x ∷ xs) h = elim (Bool-cases (p x)) [
  | inl y ↦ filter-keep p x xs y ∙ ap (◌∷◌ x) (filter-full p xs (ground arith))
  | inr n ↦ absurd (ground (arith, length-filter-le p xs))
]
  where
    filter-keep :
        (q : Text → Bool) (z : Text) (zs : List Text)
        → q z ≡ true
        → filter q (z ∷ zs) ≡ z ∷ filter q zs
    filter-keep q z zs h = ground arith

-- After the visible resources change, exactly the selected ids that are still visible stay selected,
-- whether the code keeps the old set or makes a new one.
pub reconcile_resource_selection-has :
    (selected : List Text) (visible : List ResourceExplorerItem) (k : Text)
    → has k (reconcile_resource_selection selected visible)
      ≡ (has k selected && has k (resource_ids visible))
unfolding reconcile_resource_selection
reconcile_resource_selection-has selected visible k =
    let p = λ (j : Text). has j (set_of (resource_ids visible)) in
    let kept =
      has-filter p k selected
      ∙ ap (λ b. has k selected && b) (has-set_of k (resource_ids visible)) in
    elim (Bool-cases (length (filter p selected) == length selected)) [
      | inl same ↦
          rw same
            (sym (ap (has k) (filter-full p selected ((==_iff _ (length selected)).0 same))) ∙ kept)
      | inr less ↦ rw less kept
    ]

count-firsts :
    (p : ResourceExplorerItem → Bool) (es : List Placed)
    → length (filter p (map (λ e. e.0) es)) ≡ length (filter (λ e. p e.0) es)
unfolding filter
count-firsts p [] = refl
count-firsts p (e ∷ es) = ground (arith, count-firsts p es)

count-indexed :
    (p : ResourceExplorerItem → Bool) (i : ℕ) (rs : List ResourceExplorerItem)
    → length (filter (λ e. p e.0) (indexed i rs)) ≡ length (filter p rs)
unfolding filter indexed
count-indexed p i [] = refl
count-indexed p i (r ∷ rs) = ground (arith, count-indexed p (i + 1) rs)

-- Sorting the list, by any field in any direction, neither loses nor doubles a resource: as many
-- pass any test as before.
pub sort_resource_list-count :
    (js : Platform) (rs : List ResourceExplorerItem) (preference : SortPreference)
    (p : ResourceExplorerItem → Bool)
    → length (filter p (sort_resource_list js rs preference)) ≡ length (filter p rs)
unfolding sort_resource_list
sort_resource_list-count js rs preference p =
    count-firsts p (sort_by (placed_order js preference) (indexed 0 rs))
    ∙ sort_by-count (placed_order js preference) (λ (e : Placed). p e.0) (indexed 0 rs)
    ∙ count-indexed p 0 rs
