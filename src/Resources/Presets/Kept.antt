-- ===== src/Resources/Presets/Kept.antt =====
-- Which views a merge keeps.
use kuviewer.Base.{
  ◌≡◌, refl, subst, ◌∙◌, ap, Bool, true, false, ◌||◌, Option, none, some, List, [], ◌∷◌, ◌++◌,
  arith, Text, text_eq, text_eq_iff, has, take, take_of_length-le, Bool-cases, inl, inr,
}
use kuviewer.Resources.Presets.{
  ResourceViewPreset, preset_names, resource_view_preset_filters_equal,
}
use kuviewer.Resources.Presets.Merge.{
  ConflictResolution, incoming, current, rename, Merging, nothing_merged, push_preset, push_presets,
  existing_by_name, resolve_conflict, merge_against, merge_incoming, merge_all_incoming,
  merge_loops, merge_resource_view_presets, is_current_choice,
}
use kuviewer.Resources.Presets.Merged.{
  Tidy, push_preset-Tidy, push_presets-Tidy, merge_incoming-Tidy, merge_all_incoming-Tidy,
}
use kuviewer.Resources.Presets.Orders.{has-normalize}

names-append :
    (k : Text) (ps : List ResourceViewPreset) (p : ResourceViewPreset)
    → has k (preset_names (ps ++ (p ∷ []))) ≡ (has k (preset_names ps) || text_eq p.name k)
unfolding has
names-append k [] p = ground arith
names-append k (q ∷ ps) p = ground (arith, names-append k ps p)

-- The views that have been merged under a name.
abbrev holds : Text → Merging → Bool
holds k m = has k (preset_names m.merged)

holds-push :
    (k : Text) (p : ResourceViewPreset) (m : Merging)
    → Tidy m
    → holds k (push_preset p m) ≡ (holds k m || text_eq p.name k)
unfolding push_preset
holds-push k p m t = elim (Bool-cases (has p.name m.seen_names)) [
  | inl old ↦
      push-old k p m old
      ∙ ground (arith, text_eq_iff p.name k, subst (λ s. has p.name s ≡ true) t.0 old)
  | inr new ↦ push-new k p m new
]
  where
    push-old :
        (j : Text) (q : ResourceViewPreset) (n : Merging)
        → has q.name n.seen_names ≡ true
        → holds j (push_preset q n) ≡ holds j n
    push-old j q n h = ground arith

    push-new :
        (j : Text) (q : ResourceViewPreset) (n : Merging)
        → has q.name n.seen_names ≡ false
        → holds j (push_preset q n) ≡ (holds j n || text_eq q.name j)
    push-new j q n h = rw h (names-append j n.merged q)

holds-push_all :
    (k : Text) (ps : List ResourceViewPreset) (m : Merging)
    → Tidy m
    → holds k (push_presets ps m) ≡ (holds k m || has k (preset_names ps))
unfolding push_presets has
holds-push_all k [] m t = ground arith
holds-push_all k (p ∷ ps) m t =
    holds-push_all k ps (push_preset p m) (push_preset-Tidy p m t)
    ∙ ground (arith, holds-push k p m t)

module _ (k stamp : Text) (existing : List ResourceViewPreset) (r : ConflictResolution) where
  -- Whatever the answer to conflicts, nothing merged is taken out again.
  holds-against :
      (p : ResourceViewPreset) (o : Option ResourceViewPreset) (m : Merging)
      → Tidy m
      → holds k m ≡ true
      → holds k (merge_against stamp existing r p o m) ≡ true
  unfolding merge_against
  holds-against p none m t h = holds-push k p m t ∙ ground arith
  holds-against p (some own) m t h = elim (Bool-cases (resource_view_preset_filters_equal own p)) [
    | inl same ↦ rw same (elim (Bool-cases (is_current_choice r)) [
      | inl kept ↦ rw kept h
      | inr pushed ↦ rw pushed (holds-push k p _ t ∙ ground arith)
    ])
    | inr other ↦ rw other (holds-resolve r p _ t h)
  ]
    where
      holds-resolve :
          (c : ConflictResolution) (q : ResourceViewPreset) (n : Merging)
          → Tidy n
          → holds k n ≡ true
          → holds k (resolve_conflict stamp existing c q n) ≡ true
      holds-resolve incoming q n t h = holds-push k q n t ∙ ground arith
      holds-resolve current q n t h = h
      holds-resolve rename q n t h = holds-push k _ n t ∙ ground arith

  holds-all_incoming :
      (ps : List ResourceViewPreset) (m : Merging)
      → Tidy m
      → holds k m ≡ true
      → holds k (merge_all_incoming stamp existing r ps m) ≡ true
  unfolding merge_all_incoming merge_incoming
  holds-all_incoming [] m t h = h
  holds-all_incoming (p ∷ ps) m t h =
      holds-all_incoming ps (merge_incoming stamp existing r p m)
        (merge_incoming-Tidy stamp existing r p m t)
        (holds-against p (existing_by_name existing p.name) m t h)

  holds-loops :
      (proposed : List ResourceViewPreset)
      → has k (preset_names existing) ≡ true
      → holds k (merge_loops stamp existing proposed r) ≡ true
  unfolding merge_loops
  holds-loops proposed h = elim (Bool-cases (is_current_choice r)) [
    | inl first ↦ rw first (
        holds-all_incoming proposed (push_presets existing nothing_merged)
          (push_presets-Tidy existing nothing_merged (refl, tt))
          (holds-push_all k existing nothing_merged (refl, tt) ∙ ground arith))
    | inr last ↦ rw last (
        holds-push_all k existing (merge_all_incoming stamp existing r proposed nothing_merged)
          (merge_all_incoming-Tidy stamp existing r proposed nothing_merged (refl, tt))
        ∙ ground arith)
  ]

  -- Where a merge drops no view, every name that the existing views had is still there, whatever the
  -- answer to conflicts.
  pub merge_resource_view_presets-kept :
      (proposed : List ResourceViewPreset)
      → (merge_resource_view_presets stamp existing proposed r).dropped_count ≡ 0
      → has k (preset_names existing) ≡ true
      → has k (preset_names (merge_resource_view_presets stamp existing proposed r).presets) ≡ true
  unfolding merge_resource_view_presets
  merge_resource_view_presets-kept proposed none_dropped h =
      let m = merge_loops stamp existing proposed r in
      has-normalize k (take 8 m.merged)
      ∙ ap (λ ps. has k (preset_names ps)) (take_of_length-le 8 m.merged (omega arith))
      ∙ holds-loops proposed h
