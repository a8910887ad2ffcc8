-- ===== src/Resources/List/Selection.antt =====
-- `getResourceSelectionRange`: the resources between the anchor and the target.
use kuviewer.Base.{
  ℕ, zero, suc, ◌+◌, ◌-◌, ◌≤◌, ◌<◌, ◌≡◌, refl, sym, ◌∙◌, true, false, Option, none, some, List, [],
  ◌∷◌, arith, max, min, Text, text_eq, text_eq_iff, has, length, length-take, length-drop,
  length-map, take, drop, get_elem?, Option-cases, Bool-cases, inl, inr, along_some,
}
use kuviewer.Base.Indexed.{find_index}
use kuviewer.Resources.List.{
  ResourceExplorerItem, resource_ids, SelectionRange, index_of_resource, id_or,
  get_resource_selection_range,
}

-- A resource of the list at a place.
abbrev pub Stands : List ResourceExplorerItem → ℕ → Text → Type 0
Stands rs i id = (r : ResourceExplorerItem) × (get_elem? rs i ≡ some r) × (r.id ≡ id)

index-Stands :
    (rs : List ResourceExplorerItem) (id : Text) (i : ℕ)
    → index_of_resource rs id ≡ some i
    → Stands rs i id
unfolding find_index
index-Stands [] id i h = absurd (ground arith)
index-Stands (r ∷ rs) id i h = elim (Bool-cases (text_eq r.id id)) [
  | inl found ↦
      along_some (λ j. Stands (r ∷ rs) j id) (sym (head_found r rs id found) ∙ h)
        (r, refl, (text_eq_iff r.id id).0 found)
  | inr other ↦ elim (Option-cases (index_of_resource rs id)) [
    | inl nowhere ↦ absurd (ground arith)
    | inr (j, there) ↦
        along_some (λ n. Stands (r ∷ rs) n id) (sym (head_other r rs id j other there) ∙ h)
          (index-Stands rs id j there)
  ]
]
  where
    head_found :
        (q : ResourceExplorerItem) (qs : List ResourceExplorerItem) (k : Text)
        → text_eq q.id k ≡ true
        → index_of_resource (q ∷ qs) k ≡ some 0
    head_found q qs k e = ground arith

    head_other :
        (q : ResourceExplorerItem) (qs : List ResourceExplorerItem) (k : Text) (n : ℕ)
        → text_eq q.id k ≡ false
        → index_of_resource qs k ≡ some n
        → index_of_resource (q ∷ qs) k ≡ some (suc n)
    head_other q qs k n e t = ground arith

index-none :
    (rs : List ResourceExplorerItem) (id : Text)
    → has id (resource_ids rs) ≡ true
    → index_of_resource rs id ≡ none
    → false ≡ true
unfolding find_index has
index-none [] id h n = h
index-none (r ∷ rs) id h n = ground (arith, index-none rs id)

has-take_at :
    (rs : List ResourceExplorerItem) (n i : ℕ) (id : Text)
    → i < n
    → Stands rs i id
    → has id (resource_ids (take n rs)) ≡ true
unfolding has
has-take_at [] n i id h s = absurd (ground (arith, s.1))
has-take_at (r ∷ rs) zero i id h s = absurd (omega arith)
has-take_at (r ∷ rs) (suc n) zero id h s = ground (arith, s.1, s.2, text_eq_iff r.id id)
has-take_at (r ∷ rs) (suc n) (suc i) id h s = ground (arith, has-take_at rs n i id (omega arith) s)

-- What stands at a place of the slice from `start` stands in it.
has-slice :
    (rs : List ResourceExplorerItem) (start n i : ℕ) (id : Text)
    → start ≤ i
    → i < start + n
    → Stands rs i id
    → has id (resource_ids (take n (drop start rs))) ≡ true
has-slice rs zero n i id low high s = has-take_at rs n i id (omega arith) s
has-slice [] (suc start) n i id low high s = absurd (ground (arith, s.1))
has-slice (r ∷ rs) (suc start) n zero id low high s = absurd (omega arith)
has-slice (r ∷ rs) (suc start) n (suc i) id low high s =
    has-slice rs start n i id (omega arith) (omega arith) s

Stands-bound : (rs : List ResourceExplorerItem) (i : ℕ) (id : Text) → Stands rs i id → i < length rs
Stands-bound [] i id s = absurd (ground (arith, s.1))
Stands-bound (r ∷ rs) zero id s = omega arith
Stands-bound (r ∷ rs) (suc i) id s = omega (arith, Stands-bound rs i id s)

-- Where the first resource with the target's id is at one place of the list and the first with the
-- anchor's at another, there is a range between them: it keeps the anchor, both ids are in it, and
-- it has as many ids as there are places from one to the other, both counted.
pub get_resource_selection_range-between :
    (rs : List ResourceExplorerItem) (anchor_id target_id : Text) (selected : Option ℕ) (a t : ℕ)
    → index_of_resource rs target_id ≡ some t
    → index_of_resource rs anchor_id ≡ some a
    → (range : SelectionRange) × (get_resource_selection_range rs anchor_id target_id selected
        ≡ some range)
      × (range.anchor_resource_id ≡ anchor_id)
      × (has anchor_id range.resource_ids ≡ true)
      × (has target_id range.resource_ids ≡ true)
      × (length range.resource_ids ≡ max a t - min a t + 1)
unfolding get_resource_selection_range
get_resource_selection_range-between rs anchor_id target_id selected a t ht ha =
    let sa = index-Stands rs anchor_id a ha in
    let st = index-Stands rs target_id t ht in
    let start = min a t in
    let n = max a t + 1 - start in
    (
      record {
        anchor_resource_id = id_or (get_elem? rs a) target_id;
        resource_ids = resource_ids (take n (drop start rs));
      },
      ground arith,
      ground (arith, sa.1, sa.2),
      has-slice rs start n a anchor_id (omega arith) (omega arith) sa,
      has-slice rs start n t target_id (omega arith) (omega arith) st,
      length-map (λ (r : ResourceExplorerItem). r.id) (take n (drop start rs))
          ∙ omega (
            arith,
            length-take n (drop start rs),
            length-drop start rs,
            Stands-bound rs a anchor_id sa,
            Stands-bound rs t target_id st,
          ),
    )
