-- ===== src/Resources/Presets/Merged.antt =====
-- What a merge of two sets of views promises, whatever the answer to conflicts.
use kuviewer.Base.{
  ◌+◌, ◌≤◌, ◌≡◌, subst, refl, sym, ◌∙◌, ap, Option, none, some, List, [], ◌∷◌, ◌++◌, map, arith,
  Text, has, length, length-take, take, Bool-cases, inl, inr,
}
use kuviewer.Base.Indexed.{upto}
use kuviewer.Base.Number.{whole}
use kuviewer.Base.Sets.{add-new, Distinct, add-Distinct}
use kuviewer.Resources.Presets.{
  ResourceViewPreset, preset_names, preset_orders, resource_view_preset_filters_equal,
}
use kuviewer.Resources.Presets.Merge.{
  ConflictResolution, incoming, current, rename, Merging, nothing_merged, push_preset, push_presets,
  existing_by_name, resolve_conflict, merge_against, merge_incoming, merge_all_incoming,
  merge_loops, merge_resource_view_presets, is_current_choice,
}
use kuviewer.Resources.Presets.Orders.{
  normalize-Distinct, take_presets-Distinct, length-normalize, orders-normalize,
}

-- The names seen are those of the views merged, each once.
abbrev pub Tidy : Merging → Type 0
Tidy m = (m.seen_names ≡ preset_names m.merged) × Distinct m.seen_names

names-snoc :
    (ps : List ResourceViewPreset) (p : ResourceViewPreset)
    → preset_names (ps ++ (p ∷ [])) ≡ preset_names ps ++ (p.name ∷ [])
names-snoc [] p = refl
names-snoc (q ∷ ps) p = ap (◌∷◌ q.name) (names-snoc ps p)

pub push_preset-Tidy : (p : ResourceViewPreset) (m : Merging) → Tidy m → Tidy (push_preset p m)
unfolding push_preset
push_preset-Tidy p m t = elim (Bool-cases (has p.name m.seen_names)) [
  | inl old ↦ rw old t
  | inr new ↦
      let d = add-Distinct p.name m.seen_names t.1 in
      rw new (
        add-new p.name m.seen_names new
            ∙ ap (λ s. s ++ (p.name ∷ [])) t.0
            ∙ sym (names-snoc m.merged p),
        d,
      )
]

pub push_presets-Tidy :
    (ps : List ResourceViewPreset) (m : Merging) → Tidy m → Tidy (push_presets ps m)
unfolding push_presets
push_presets-Tidy [] m t = t
push_presets-Tidy (p ∷ ps) m t = push_presets-Tidy ps (push_preset p m) (push_preset-Tidy p m t)

module _ (stamp : Text) (existing : List ResourceViewPreset) (r : ConflictResolution) where
  resolve_conflict-Tidy :
      (c : ConflictResolution) (p : ResourceViewPreset) (m : Merging)
      → Tidy m
      → Tidy (resolve_conflict stamp existing c p m)
  resolve_conflict-Tidy incoming p m t = push_preset-Tidy p m t
  resolve_conflict-Tidy current p m t = t
  resolve_conflict-Tidy rename p m t = push_preset-Tidy _ m t

  merge_against-Tidy :
      (p : ResourceViewPreset) (o : Option ResourceViewPreset) (m : Merging)
      → Tidy m
      → Tidy (merge_against stamp existing r p o m)
  unfolding merge_against
  merge_against-Tidy p none m t = push_preset-Tidy p m t
  merge_against-Tidy p (some own) m t =
      elim (Bool-cases (resource_view_preset_filters_equal own p)) [
        | inl same ↦ rw same (elim (Bool-cases (is_current_choice r)) [
          | inl kept ↦ rw kept t
          | inr pushed ↦ rw pushed (push_preset-Tidy p _ t)
        ])
        | inr other ↦ rw other (resolve_conflict-Tidy r p _ t)
      ]

  pub merge_incoming-Tidy :
      (p : ResourceViewPreset) (m : Merging) → Tidy m → Tidy (merge_incoming stamp existing r p m)
  unfolding merge_incoming
  merge_incoming-Tidy p m t = merge_against-Tidy p (existing_by_name existing p.name) m t

  pub merge_all_incoming-Tidy :
      (ps : List ResourceViewPreset) (m : Merging)
      → Tidy m
      → Tidy (merge_all_incoming stamp existing r ps m)
  unfolding merge_all_incoming
  merge_all_incoming-Tidy [] m t = t
  merge_all_incoming-Tidy (p ∷ ps) m t =
      merge_all_incoming-Tidy ps (merge_incoming stamp existing r p m) (merge_incoming-Tidy p m t)

  pub merge_loops-Tidy :
      (proposed : List ResourceViewPreset) → Tidy (merge_loops stamp existing proposed r)
  unfolding merge_loops
  merge_loops-Tidy proposed = elim (Bool-cases (is_current_choice r)) [
    | inl first ↦ rw first (
        merge_all_incoming-Tidy proposed (push_presets existing nothing_merged)
          (push_presets-Tidy existing nothing_merged (refl, tt)))
    | inr last ↦ rw last (
        push_presets-Tidy existing (merge_all_incoming stamp existing r proposed nothing_merged)
          (merge_all_incoming-Tidy proposed nothing_merged (refl, tt)))
  ]

  -- A merge of any two lists of views, with any answer to conflicts, gives at most eight views, no
  -- two of one name, in the places 1, 2, 3 and so on; with those dropped they are all that was
  -- merged.
  pub merge_resource_view_presets-places :
      (proposed : List ResourceViewPreset)
      → let result = merge_resource_view_presets stamp existing proposed r in
        Distinct (preset_names result.presets)
        × (length result.presets ≤ 8)
        × (preset_orders result.presets ≡ map (λ i. whole (i + 1)) (upto 0 (length result.presets)))
        × (length result.presets + result.dropped_count
            ≡ length (merge_loops stamp existing proposed r).merged)
  unfolding merge_resource_view_presets
  merge_resource_view_presets-places proposed =
      let m = merge_loops stamp existing proposed r in
      let t = merge_loops-Tidy proposed in
      let d : Distinct (preset_names m.merged) = subst Distinct t.0 t.1 in
      let n = length-normalize (take 8 m.merged) in
      let k = length-take 8 m.merged in
      (
        normalize-Distinct (take 8 m.merged) (take_presets-Distinct 8 m.merged d),
        omega arith,
        orders-normalize (take 8 m.merged) ∙ ap (λ n. map (λ i. whole (i + 1)) (upto 0 n)) (sym n),
        omega arith,
      )
