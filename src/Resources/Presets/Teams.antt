-- ===== src/Resources/Presets/Teams.antt =====
-- The preview of loading or saving a team's views, of resourceViewPresets.ts.
use kuviewer.Base.{
  ℕ, Ordering, not, ◌&&◌, Option, none, some, List, [], ◌∷◌, ◌++◌, map, if◌then◌else◌, Text, lit,
  text_eq, truthy, or_text, trim, has, filter, length, slice_to, includes, join,
}
use kuviewer.Base.Dict.{Dict, lookup, insert}
use kuviewer.Base.Number.{Number, whole, is_finite, num_le, count_of}
use kuviewer.Base.Sets.{set_of}
use kuviewer.Base.Sort.{sort_by, text_compare}
use kuviewer.Json.{Value, num, str, Fields, at}
use kuviewer.Platform.{Platform}
use kuviewer.Resources.Presets.{
  ResourceViewPreset, preset_names, normalize_resource_view_preset_group,
  order_resource_view_presets, resource_view_preset_filters_equal, all_value,
  default_resource_view_group,
}
use kuviewer.Resources.Presets.Merge.{
  incoming, ConflictItem, MergeResult, existing_by_name, merge_resource_view_presets,
}

pub data TeamAction : Type 0 where
  load save : TeamAction

pub record TeamSnapshotMetadata : Type 0 where
  pub version : Number
  pub updated_at : Number
  pub count : Number
  pub storage : Text

pub record TeamComparePreview : Type 0 where
  pub action : TeamAction
  pub incoming_presets : List ResourceViewPreset
  pub invalid_count : ℕ
  pub merge_result : MergeResult
  pub local_count : ℕ
  pub team_count : ℕ
  pub new_names : List Text
  pub conflict_names : List Text
  pub duplicate_names : List Text
  pub local_only_names : List Text
  pub team_only_names : List Text
  pub folders : List Text
  pub timestamp : ℕ
  pub snapshot_metadata : Option TeamSnapshotMetadata

pub record TeamSyncSummary : Type 0 where
  pub action : TeamAction
  pub count : ℕ
  pub skipped_count : ℕ
  pub conflict_count : ℕ
  pub duplicate_count : ℕ
  pub new_count : ℕ
  pub local_count : ℕ
  pub folders : List Text
  pub timestamp : ℕ
  pub snapshot_metadata : Option TeamSnapshotMetadata

-- `Math.floor` of a number that is not negative is `count_of`.
unfoldable pub finite_non_negative_number : Value → Number → Number
finite_non_negative_number (num n) fallback =
    if is_finite n && num_le (whole 0) n then whole (count_of n) else fallback
finite_non_negative_number _ fallback = fallback

unfoldable pub resource_view_team_snapshot_storage : Value → Text
resource_view_team_snapshot_storage (str s) = or_text (slice_to 24 (trim s)) (lit "server")
resource_view_team_snapshot_storage _ = lit "server"

unfoldable pub resource_view_team_snapshot_metadata :
    Option Fields → ℕ → Option TeamSnapshotMetadata
unfolding finite_non_negative_number resource_view_team_snapshot_storage
resource_view_team_snapshot_metadata none fallback_count = none
resource_view_team_snapshot_metadata (some fs) fallback_count = some (record {
  version = finite_non_negative_number (at fs (lit "version")) (whole 0);
  updated_at = finite_non_negative_number (at fs (lit "updatedAt")) (whole 0);
  count = finite_non_negative_number (at fs (lit "count")) (whole fallback_count);
  storage = resource_view_team_snapshot_storage (at fs (lit "storage"));
})

-- `filter(Boolean)` of texts.
abbrev pub parts : List Text → List Text
parts ts = filter truthy ts

-- A part of a summary, left out where the filter is set to all.
abbrev pub unless_all : Text → Text → Text
unless_all prefix value = if text_eq value all_value then [] else prefix ++ value

-- The folder's part is never empty, so there is always a part.
unfoldable pub resource_view_preset_summary : ResourceViewPreset → Text
resource_view_preset_summary p = join (lit " · ") (
    parts (
      (lit "group:" ++ p.group)
      ∷ (if truthy (trim p.query) then lit "q:" ++ trim p.query else [])
      ∷ unless_all (lit "cluster:") p.cluster
      ∷ unless_all (lit "ns:") p.namespace
      ∷ unless_all (lit "kind:") p.kind
      ∷ unless_all (lit "status:") p.status
      ∷ []))

-- A folder of the list of views.
pub record PresetGroup : Type 0 where
  pub name : Text
  pub presets : List ResourceViewPreset
  pub total : ℕ

abbrev pub presets_or_none : Option (List ResourceViewPreset) → List ResourceViewPreset
presets_or_none none = []
presets_or_none (some ps) = ps

-- The loop over the presets, with the map `grouped`.
unfoldable pub group_loop :
    Dict (List ResourceViewPreset) → List ResourceViewPreset → Dict (List ResourceViewPreset)
unfolding normalize_resource_view_preset_group
group_loop grouped [] = grouped
group_loop grouped (p ∷ ps) =
    let name = normalize_resource_view_preset_group p.group in
    group_loop (insert name (presets_or_none (lookup name grouped) ++ (p ∷ [])) grouped) ps

abbrev pub preset_group : Text × List ResourceViewPreset → PresetGroup
preset_group e = record {
  name = e.0;
  presets = order_resource_view_presets e.1;
  total = length e.1;
}

-- The loop over the incoming presets: new names, and those that change nothing.
abbrev pub names_new : List ResourceViewPreset → List ResourceViewPreset → List Text
names_new existing [] = []
names_new existing (p ∷ ps) =
    let rest = names_new existing ps in
    elim (existing_by_name existing p.name) [ none ↦ p.name ∷ rest | some own ↦ rest ]

abbrev pub names_same : List ResourceViewPreset → List ResourceViewPreset → List Text
names_same existing [] = []
names_same existing (p ∷ ps) =
    let rest = names_same existing ps in
    elim (existing_by_name existing p.name) [
      | none ↦ rest
      | some own ↦ if resource_view_preset_filters_equal own p then p.name ∷ rest else rest
    ]

abbrev pub names_outside : List ResourceViewPreset → List ResourceViewPreset → List Text
names_outside others ps =
    preset_names
      (filter (λ (p : ResourceViewPreset). not (has p.name (set_of (preset_names others)))) ps)

abbrev pub existing_side :
    TeamAction → List ResourceViewPreset → List ResourceViewPreset → List ResourceViewPreset
existing_side load mine theirs = mine
existing_side save mine theirs = theirs

abbrev pub incoming_side :
    TeamAction → List ResourceViewPreset → List ResourceViewPreset → List ResourceViewPreset
incoming_side load mine theirs = theirs
incoming_side save mine theirs = mine

module _ (js : Platform) where
  open js use {lower, locale_compare}

  unfoldable pub resource_view_preset_folder_names : List ResourceViewPreset → List Text
  resource_view_preset_folder_names presets = sort_by locale_compare (
      sort_by text_compare (
        set_of
          (map (λ (p : ResourceViewPreset). normalize_resource_view_preset_group p.group) presets)))

  -- The default folder stands first.
  abbrev pub group_order : PresetGroup → PresetGroup → Ordering
  group_order l r =
      if text_eq l.name default_resource_view_group
      then Ordering.lt
      else if text_eq r.name default_resource_view_group
      then Ordering.gt
      else locale_compare l.name r.name

  unfoldable pub group_resource_view_presets : List ResourceViewPreset → List PresetGroup
  unfolding group_loop
  group_resource_view_presets presets =
      sort_by group_order (map preset_group (group_loop [] presets))

  unfoldable pub resource_view_preset_search_text : ResourceViewPreset → Text
  unfolding resource_view_preset_summary
  resource_view_preset_search_text p = lower (
      join (lit " ") (
        p.name
        ∷ p.group
        ∷ p.query
        ∷ p.cluster
        ∷ p.namespace
        ∷ p.kind
        ∷ p.status
        ∷ resource_view_preset_summary p
        ∷ []))

  -- The groups that still have a preset, each with those that match.
  abbrev pub matching_groups : Text → List PresetGroup → List PresetGroup
  matching_groups query [] = []
  matching_groups query (g ∷ gs) =
      let rest = matching_groups query gs in
      elim (filter (λ p. includes (resource_view_preset_search_text p) query) g.presets) [
        | [] ↦ rest
        | p ∷ ps ↦ record { name = g.name; presets = p ∷ ps; total = g.total } ∷ rest
      ]

  unfoldable pub filter_grouped_resource_view_presets : List PresetGroup → Text → List PresetGroup
  filter_grouped_resource_view_presets groups query =
      if truthy query then matching_groups query groups else groups

  -- The clock comes first, as a time and in base 36.
  unfoldable pub build_team_compare_preview :
      ℕ
      → Text
      → TeamAction
      → List ResourceViewPreset
      → List ResourceViewPreset
      → ℕ
      → Option TeamSnapshotMetadata
      → TeamComparePreview
  unfolding resource_view_preset_folder_names
  build_team_compare_preview now stamp action mine theirs invalid_count metadata =
      let existing = existing_side action mine theirs in
      let proposed = incoming_side action mine theirs in
      let merge = merge_resource_view_presets stamp existing proposed incoming in
      record {
        action = action;
        incoming_presets = proposed;
        invalid_count = invalid_count;
        merge_result = merge;
        local_count = length mine;
        team_count = length theirs;
        new_names = names_new existing proposed;
        conflict_names = map (λ (c : ConflictItem). c.name) merge.conflicts;
        duplicate_names = names_same existing proposed;
        local_only_names = names_outside theirs mine;
        team_only_names = names_outside mine theirs;
        folders = resource_view_preset_folder_names proposed;
        timestamp = now;
        snapshot_metadata = metadata;
      }

unfoldable pub team_sync_summary_from_compare : ℕ → TeamComparePreview → TeamSyncSummary
team_sync_summary_from_compare now preview = record {
  action = preview.action;
  count = length preview.incoming_presets;
  skipped_count = preview.invalid_count;
  conflict_count = length preview.conflict_names;
  duplicate_count = length preview.duplicate_names;
  new_count = length preview.new_names;
  local_count = preview.local_count;
  folders = preview.folders;
  timestamp = now;
  snapshot_metadata = preview.snapshot_metadata;
}
