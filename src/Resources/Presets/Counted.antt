-- ===== src/Resources/Presets/Counted.antt =====
-- How a merge counts the incoming views.
use kuviewer.Base.{
  ℕ, ◌+◌, ◌≡◌, refl, ◌∙◌, none, some, List, [], ◌∷◌, arith, if◌then◌else◌, Text, has, length,
  length-append, filter, Bool-cases, inl, inr,
}
use kuviewer.Base.Sets.{has-set_of}
use kuviewer.Resources.Presets.{
  ResourceViewPreset, preset_names, resource_view_preset_filters_equal,
}
use kuviewer.Resources.Presets.Merge.{
  ConflictResolution, incoming, current, rename, Merging, nothing_merged, push_preset, push_presets,
  resolve_conflict, merge_against, merge_incoming, merge_all_incoming, merge_loops,
  merge_resource_view_presets, is_current_choice, resource_view_incoming_new_count,
}
use kuviewer.Snapshot.Diff.Laws.{last_with-none, last_with-some}

pub push_preset-counts :
    (p : ResourceViewPreset) (m : Merging)
    → ((push_preset p m).found ≡ m.found) × ((push_preset p m).duplicates ≡ m.duplicates)
unfolding push_preset
push_preset-counts p m = ground arith

pub push_presets-counts :
    (ps : List ResourceViewPreset) (m : Merging)
    → ((push_presets ps m).found ≡ m.found) × ((push_presets ps m).duplicates ≡ m.duplicates)
unfolding push_presets
push_presets-counts [] m = (refl, refl)
push_presets-counts (p ∷ ps) m =
    let (a, b) = push_presets-counts ps (push_preset p m) in
    let (c, d) = push_preset-counts p m in (a ∙ c, b ∙ d)

-- How many of the incoming views the loops have met under an existing name.
abbrev known : Merging → ℕ
known m = length m.found + m.duplicates

known-push : (p : ResourceViewPreset) (m : Merging) → known (push_preset p m) ≡ known m
known-push p m = let (a, b) = push_preset-counts p m in rw (a, b) refl

known-push_all : (ps : List ResourceViewPreset) (m : Merging) → known (push_presets ps m) ≡ known m
known-push_all ps m = let (a, b) = push_presets-counts ps m in rw (a, b) refl

module _ (stamp : Text) (existing : List ResourceViewPreset) (r : ConflictResolution) where
  known-resolve :
      (c : ConflictResolution) (p : ResourceViewPreset) (m : Merging)
      → known (resolve_conflict stamp existing c p m) ≡ known m
  known-resolve incoming p m = known-push p m
  known-resolve current p m = refl
  known-resolve rename p m = known-push _ m

  known-against :
      (p own : ResourceViewPreset) (m : Merging)
      → known (merge_against stamp existing r p (some own) m) ≡ known m + 1
  unfolding merge_against
  known-against p own m = elim (Bool-cases (resource_view_preset_filters_equal own p)) [
    | inl same ↦ rw same (elim (Bool-cases (is_current_choice r)) [
      | inl kept ↦ rw kept (omega arith)
      | inr pushed ↦ rw pushed (known-push p _ ∙ omega arith)
    ])
    | inr other ↦ rw other (
        known-resolve r p _
        ∙ omega (
          arith,
          length-append m.found (record { name = p.name; existing = own; proposed = p } ∷ []),
        ))
  ]

  known-incoming :
      (p : ResourceViewPreset) (m : Merging)
      → known (merge_incoming stamp existing r p m)
        ≡ (if has p.name (preset_names existing) then known m + 1 else known m)
  unfolding merge_incoming
  known-incoming p m = elim (Bool-cases (has p.name (preset_names existing))) [
    | inl there ↦
        let (own, e, _) =
          last_with-some (λ (q : ResourceViewPreset). q.name) existing p.name there in
        rw (e, there) (known-against p own m)
    | inr new ↦
        rw (last_with-none (λ (q : ResourceViewPreset). q.name) existing p.name new, new)
          (known-new p m)
  ]
    where
      known-new :
          (q : ResourceViewPreset) (n : Merging)
          → known (merge_against stamp existing r q none n) ≡ known n
      known-new q n = known-push q n

  known-all_incoming :
      (ps : List ResourceViewPreset) (m : Merging)
      → known (merge_all_incoming stamp existing r ps m)
          + resource_view_incoming_new_count existing ps
        ≡ known m + length ps
  unfolding merge_all_incoming resource_view_incoming_new_count filter
  known-all_incoming [] m = omega arith
  known-all_incoming (p ∷ ps) m = ground (
    arith,
    known-incoming p m,
    known-all_incoming ps (merge_incoming stamp existing r p m),
    has-set_of p.name (preset_names existing),
  )

  known-loops :
      (proposed : List ResourceViewPreset)
      → known (merge_loops stamp existing proposed r)
          + resource_view_incoming_new_count existing proposed
        ≡ length proposed
  unfolding merge_loops
  known-loops proposed = elim (Bool-cases (is_current_choice r)) [
    | inl first ↦ rw first (
        omega (
          arith,
          known-all_incoming proposed (push_presets existing nothing_merged),
          known-push_all existing nothing_merged,
        ))
    | inr last ↦ rw last (
        omega (
          arith,
          known-all_incoming proposed nothing_merged,
          known-push_all existing (merge_all_incoming stamp existing r proposed nothing_merged),
        ))
  ]

  -- A merge counts every incoming view once: as a conflict, as a duplicate, or as new.
  pub merge_resource_view_presets-counts :
      (proposed : List ResourceViewPreset)
      → let result = merge_resource_view_presets stamp existing proposed r in
        length result.conflicts
          + result.duplicate_count
          + resource_view_incoming_new_count existing proposed
        ≡ result.incoming_count
  unfolding merge_resource_view_presets
  merge_resource_view_presets-counts proposed = known-loops proposed
