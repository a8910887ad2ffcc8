-- ===== src/Resources/Presets/Previewed.antt =====
-- The preview of a team's views names every incoming view once.
use kuviewer.Base.{
  ℕ, ◌+◌, ◌≡◌, refl, ◌∙◌, Option, none, some, List, [], ◌∷◌, map, arith, if◌then◌else◌, Text, has,
  filter, length, length-map, Bool-cases, inl, inr,
}
use kuviewer.Base.Sets.{has-set_of}
use kuviewer.Platform.{Platform}
use kuviewer.Resources.Presets.Counted.{
  push_preset-counts, push_presets-counts, merge_resource_view_presets-counts,
}
use kuviewer.Resources.Presets.Merge.{
  incoming, ConflictItem, Merging, nothing_merged, existing_by_name, merge_against, merge_incoming,
  merge_all_incoming, merge_loops, merge_resource_view_presets, resource_view_incoming_new_count,
}
use kuviewer.Resources.Presets.Teams.{
  TeamAction, load, save, TeamSnapshotMetadata, names_new, names_same, build_team_compare_preview,
}
use kuviewer.Resources.Presets.{
  ResourceViewPreset, preset_names, resource_view_preset_filters_equal,
}
use kuviewer.Snapshot.Diff.Laws.{last_with-none, last_with-some}

length-names_new :
    (existing ps : List ResourceViewPreset)
    → length (names_new existing ps) ≡ resource_view_incoming_new_count existing ps
unfolding resource_view_incoming_new_count filter
length-names_new existing [] = refl
length-names_new existing (p ∷ ps) = elim (Bool-cases (has p.name (preset_names existing))) [
  | inl there ↦
      let (own, e, _) = last_with-some (λ (q : ResourceViewPreset). q.name) existing p.name there in
      ground (arith, e, length-names_new existing ps, has-set_of p.name (preset_names existing))
  | inr new ↦ ground (
    arith,
    last_with-none (λ (q : ResourceViewPreset). q.name) existing p.name new,
    length-names_new existing ps,
    has-set_of p.name (preset_names existing),
  )
]

module _ (stamp : Text) (existing : List ResourceViewPreset) where
  duplicates-against :
      (p own : ResourceViewPreset) (m : Merging)
      → (merge_against stamp existing incoming p (some own) m).duplicates
        ≡ (if resource_view_preset_filters_equal own p then m.duplicates + 1 else m.duplicates)
  unfolding merge_against
  duplicates-against p own m = elim (Bool-cases (resource_view_preset_filters_equal own p)) [
    | inl same ↦ rw same (push_preset-counts p _).1
    | inr other ↦ rw other (push_preset-counts p _).1
  ]

  duplicates-new :
      (p : ResourceViewPreset) (m : Merging)
      → (merge_against stamp existing incoming p none m).duplicates ≡ m.duplicates
  unfolding merge_against
  duplicates-new p m = (push_preset-counts p m).1

  duplicates-all_incoming :
      (ps : List ResourceViewPreset) (m : Merging)
      → (merge_all_incoming stamp existing incoming ps m).duplicates
        ≡ m.duplicates + length (names_same existing ps)
  unfolding merge_all_incoming merge_incoming
  duplicates-all_incoming [] m = omega arith
  duplicates-all_incoming (p ∷ ps) m =
      duplicates-all_incoming ps (merge_incoming stamp existing incoming p m)
      ∙ first (existing_by_name existing p.name)
    where
      first :
          (o : Option ResourceViewPreset)
          → (merge_against stamp existing incoming p o m).duplicates
              + length (names_same existing ps)
            ≡ m.duplicates
              + length (elim o [
                | none ↦ names_same existing ps
                | some own ↦
                    if resource_view_preset_filters_equal own p
                    then p.name ∷ names_same existing ps
                    else names_same existing ps
              ])
      first none = omega (arith, duplicates-new p m)
      first (some own) = ground (arith, duplicates-against p own m)

  duplicates-loops :
      (ps : List ResourceViewPreset)
      → (merge_loops stamp existing ps incoming).duplicates ≡ length (names_same existing ps)
  unfolding merge_loops
  duplicates-loops ps =
      (push_presets-counts existing
        (merge_all_incoming stamp existing incoming ps nothing_merged)).1
      ∙ duplicates-all_incoming ps nothing_merged
      ∙ omega arith

-- The names that a merge of incoming views shows as new, in conflict or without a change are
-- together as many as those views.
names_complete :
    (stamp : Text) (existing proposed : List ResourceViewPreset)
    → length (names_new existing proposed)
        + length (
            map
              (λ (c : ConflictItem). c.name)
              (merge_resource_view_presets stamp existing proposed incoming).conflicts)
        + length (names_same existing proposed)
      ≡ length proposed
unfolding merge_resource_view_presets
names_complete stamp existing proposed = omega (
  arith,
  length-names_new existing proposed,
  duplicates-loops stamp existing proposed,
  merge_resource_view_presets-counts stamp existing incoming proposed,
  length-map (λ (c : ConflictItem). c.name) (merge_loops stamp existing proposed incoming).found,
)

-- A preview of loading or saving a team's views names each incoming view once: the new names, the
-- conflicts and the names without a change are together as many as the incoming views.
pub build_team_compare_preview-counts :
    (js : Platform) (now : ℕ) (stamp : Text) (action : TeamAction)
    (mine theirs : List ResourceViewPreset) (invalid : ℕ) (metadata : Option TeamSnapshotMetadata)
    → let preview = build_team_compare_preview js now stamp action mine theirs invalid metadata in
      length preview.new_names + length preview.conflict_names + length preview.duplicate_names
      ≡ length preview.incoming_presets
unfolding build_team_compare_preview
build_team_compare_preview-counts js now stamp load mine theirs invalid metadata =
    names_complete stamp mine theirs
build_team_compare_preview-counts js now stamp save mine theirs invalid metadata =
    names_complete stamp theirs mine
