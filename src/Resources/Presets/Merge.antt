-- ===== src/Resources/Presets/Merge.antt =====
-- `mergeResourceViewPresets` and the preview of a team's views, of resourceViewPresets.ts.
use kuviewer.Base.{
  ℕ, ◌+◌, ◌-◌, zero, suc, Bool, true, false, not, ◌||◌, Option, none, some, List, [], ◌∷◌, ◌++◌,
  max, if◌then◌else◌, Text, lit, has, filter, length, take, slice_to, ◌==◌,
}
use kuviewer.Base.Decimal.{decimal}
use kuviewer.Base.Sets.{add, set_of}
use kuviewer.Resources.Presets.{
  ResourceViewPreset, preset_names, resource_view_preset_filters_equal, max_resource_view_presets,
  normalize_resource_view_preset_orders,
}
use kuviewer.Snapshot.Diff.{last_with}

pub data ConflictResolution : Type 0 where
  incoming current rename : ConflictResolution

pub record ConflictItem : Type 0 where
  pub name : Text
  pub existing : ResourceViewPreset
  pub proposed : ResourceViewPreset

pub record MergeResult : Type 0 where
  pub presets : List ResourceViewPreset
  pub conflicts : List ConflictItem
  pub duplicate_count : ℕ
  pub incoming_count : ℕ
  pub dropped_count : ℕ

-- The variables of the loop: `seenNames`, `merged`, `conflicts` and `duplicateCount`.
pub record Merging : Type 0 where
  pub seen_names : List Text
  pub merged : List ResourceViewPreset
  pub found : List ConflictItem
  pub duplicates : ℕ

abbrev pub nothing_merged : Merging
nothing_merged = record { seen_names = []; merged = []; found = []; duplicates = 0 }

unfoldable pub push_preset : ResourceViewPreset → Merging → Merging
push_preset preset m =
    if has preset.name m.seen_names
    then m
    else record m { seen_names = add preset.name m.seen_names; merged = m.merged ++ (preset ∷ []) }

unfoldable pub push_presets : List ResourceViewPreset → Merging → Merging
push_presets [] m = m
push_presets (p ∷ ps) m = push_presets ps (push_preset p m)

-- `existingByName.get(name)`.
abbrev pub existing_by_name : List ResourceViewPreset → Text → Option ResourceViewPreset
existing_by_name existing name = last_with (λ (p : ResourceViewPreset). p.name) existing name

abbrev pub copy_suffix : ℕ → Text
copy_suffix index = if index == 1 then lit " copy" else lit " copy " ++ decimal index

abbrev pub copy_candidate : Text → ℕ → Text
copy_candidate name index =
    slice_to (max 1 (80 - length (copy_suffix index))) name ++ copy_suffix index

-- The loop from the given index on; the fallback carries the clock in base 36.
unfoldable pub copied_name_from : ℕ → ℕ → Text → Text → (Text → Bool) → Text
copied_name_from zero index stamp name taken = slice_to 80 (slice_to 72 name ++ (b' ' ∷ stamp))
copied_name_from (suc left) index stamp name taken =
    let rest = copied_name_from left (index + 1) stamp name taken in
    if taken (copy_candidate name index) then rest else copy_candidate name index

abbrev pub is_taken : List Text → List ResourceViewPreset → Text → Bool
is_taken seen_names existing candidate =
    has candidate seen_names || has candidate (preset_names existing)

-- 99 turns, of the indices 1 to 99.
unfoldable pub copied_resource_view_preset_name :
    Text → Text → List Text → List ResourceViewPreset → Text
unfolding copied_name_from
copied_resource_view_preset_name stamp name seen_names existing =
    copied_name_from 99 1 stamp name (is_taken seen_names existing)

abbrev pub is_current_choice : ConflictResolution → Bool
is_current_choice current = true
is_current_choice _ = false

abbrev pub resolve_conflict :
    Text → List ResourceViewPreset → ConflictResolution → ResourceViewPreset → Merging → Merging
resolve_conflict stamp existing incoming preset m = push_preset preset m
resolve_conflict stamp existing current preset m = m
resolve_conflict stamp existing rename preset m =
    push_preset
      (record preset {
        name = copied_resource_view_preset_name stamp preset.name m.seen_names existing;
      })
      m

-- The body of the loop over the incoming presets, by what has the preset's name already.
unfoldable pub merge_against :
    Text
    → List ResourceViewPreset
    → ConflictResolution
    → ResourceViewPreset
    → Option ResourceViewPreset
    → Merging
    → Merging
unfolding push_preset
merge_against stamp existing resolution preset none m = push_preset preset m
merge_against stamp existing resolution preset (some own) m =
    if resource_view_preset_filters_equal own preset
    then (let n : Merging = record m { duplicates = m.duplicates + 1 } in
        if is_current_choice resolution then n else push_preset preset n)
    else resolve_conflict stamp existing resolution preset (record m {
      found = m.found ++ (record { name = preset.name; existing = own; proposed = preset } ∷ []);
    })

unfoldable pub merge_incoming :
    Text → List ResourceViewPreset → ConflictResolution → ResourceViewPreset → Merging → Merging
unfolding merge_against
merge_incoming stamp existing resolution preset m =
    merge_against stamp existing resolution preset (existing_by_name existing preset.name) m

unfoldable pub merge_all_incoming :
    Text
    → List ResourceViewPreset
    → ConflictResolution
    → List ResourceViewPreset
    → Merging
    → Merging
unfolding merge_incoming
merge_all_incoming stamp existing resolution [] m = m
merge_all_incoming stamp existing resolution (p ∷ ps) m =
    merge_all_incoming stamp existing resolution ps (merge_incoming stamp existing resolution p m)

-- The three loops in order.
unfoldable pub merge_loops :
    Text → List ResourceViewPreset → List ResourceViewPreset → ConflictResolution → Merging
unfolding merge_all_incoming push_presets
merge_loops stamp existing proposed resolution =
    let before =
      if is_current_choice resolution
      then push_presets existing nothing_merged
      else nothing_merged in
    let after = merge_all_incoming stamp existing resolution proposed before in
    if is_current_choice resolution then after else push_presets existing after

unfoldable pub merge_resource_view_presets :
    Text → List ResourceViewPreset → List ResourceViewPreset → ConflictResolution → MergeResult
unfolding merge_loops
merge_resource_view_presets stamp existing proposed resolution =
    let m = merge_loops stamp existing proposed resolution in
    record {
      presets = normalize_resource_view_preset_orders (take max_resource_view_presets m.merged);
      conflicts = m.found;
      duplicate_count = m.duplicates;
      incoming_count = length proposed;
      dropped_count = length m.merged - max_resource_view_presets;
    }

unfoldable pub resource_view_incoming_new_count :
    List ResourceViewPreset → List ResourceViewPreset → ℕ
resource_view_incoming_new_count existing proposed = length (
    filter (λ (p : ResourceViewPreset). not (has p.name (set_of (preset_names existing)))) proposed)
