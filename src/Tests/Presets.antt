-- ===== src/Tests/Presets.antt =====
-- Saved views, merged: a conflict, a duplicate and a new view; and the comparison's view.
use kuviewer.Base.{
  ℕ, ◌+◌, ◌≤◌, ◌≡◌, refl, Bool, true, false, not, ◌&&◌, Option, none, some, List, [], ◌∷◌, map,
  Text, lit, text_eq, has, length, if◌then◌else◌, All,
}
use kuviewer.Base.Indexed.{upto}
use kuviewer.Base.Number.{whole}
use kuviewer.Base.Sets.{Distinct}
use kuviewer.Json.{Value, str, num, obj, field, end}
use kuviewer.Resources.Presets.{
  ResourceViewPreset, preset_names, preset_orders, valid_resource_view_preset,
  normalize_resource_view_preset_orders,
}
use kuviewer.Resources.Presets.Accepted.{IsNormal, IsPlace, valid_resource_view_preset-IsNormal}
use kuviewer.Resources.Presets.Counted.{merge_resource_view_presets-counts}
use kuviewer.Resources.Presets.Kept.{merge_resource_view_presets-kept}
use kuviewer.Resources.Presets.Merge.{
  rename, incoming, MergeResult, merge_loops, merge_resource_view_presets,
  resource_view_incoming_new_count,
}
use kuviewer.Resources.Presets.Merged.{merge_resource_view_presets-places}
use kuviewer.Resources.Presets.Orders.{
  AreOrdered, unordered, normalize_resource_view_preset_orders-places,
}
use kuviewer.Resources.Presets.Previewed.{build_team_compare_preview-counts}
use kuviewer.Resources.Presets.Teams.{load, build_team_compare_preview}
use kuviewer.Tests.Data.{plain, preset}

abbrev own : List ResourceViewPreset
own = preset (lit "x") [] (whole 1) ∷ preset (lit "y") [] (whole 2) ∷ []

abbrev theirs : List ResourceViewPreset
theirs =
    preset (lit "x") (lit "web") (whole 1)
    ∷ preset (lit "y") [] (whole 2)
    ∷ preset (lit "z") [] (whole 3)
    ∷ []

places_example :
    let result = merge_resource_view_presets (lit "k") own theirs rename in
    Distinct (preset_names result.presets)
    × (length result.presets ≤ 8)
    × (preset_orders result.presets ≡ map (λ i. whole (i + 1)) (upto 0 (length result.presets)))
    × (length result.presets + result.dropped_count
        ≡ length (merge_loops (lit "k") own theirs rename).merged)
places_example = merge_resource_view_presets-places (lit "k") own rename theirs

counts_example :
    let result = merge_resource_view_presets (lit "k") own theirs rename in
    length result.conflicts + result.duplicate_count + resource_view_incoming_new_count own theirs
    ≡ result.incoming_count
counts_example = merge_resource_view_presets-counts (lit "k") own rename theirs

none-dropped : (merge_resource_view_presets (lit "k") own theirs incoming).dropped_count ≡ 0
unfolding merge_resource_view_presets has kuviewer.Snapshot.Diff.last_with text_eq lit
    kuviewer.Resources.Presets.resource_view_preset_filters_equal kuviewer.Base.Sets.add
none-dropped = refl

y-there : has (lit "y") (preset_names own) ≡ true
unfolding has text_eq lit
y-there = refl

kept_example :
    has (lit "y") (preset_names (merge_resource_view_presets (lit "k") own theirs incoming).presets)
    ≡ true
kept_example =
    merge_resource_view_presets-kept (lit "y") (lit "k") own incoming theirs none-dropped y-there

merged_names :
    preset_names (merge_resource_view_presets (lit "k") own theirs rename).presets
    ≡ lit "x copy" ∷ lit "x" ∷ lit "y" ∷ lit "z" ∷ []
unfolding merge_resource_view_presets normalize_resource_view_preset_orders
    kuviewer.Base.Sort.sort_by has kuviewer.Snapshot.Diff.last_with text_eq lit
    kuviewer.Resources.Presets.resource_view_preset_filters_equal kuviewer.Base.Sets.add
    kuviewer.Resources.Presets.Merge.copied_resource_view_preset_name
merged_names = refl

orders_example :
    (preset_orders (normalize_resource_view_preset_orders theirs)
      ≡ map (λ i. whole (i + 1)) (upto 0 (length theirs)))
    × ((es : List (ResourceViewPreset × ℕ)) × (map unordered
            (normalize_resource_view_preset_orders theirs)
          ≡ map (λ e. unordered e.0) es)
        × AreOrdered theirs es)
orders_example = normalize_resource_view_preset_orders-places theirs

-- A view as it is stored, without a group or an order.
abbrev stored : Value
stored = obj (
    field (lit "name") (str (lit " web ")) (
      field (lit "query") (str (lit "q")) (
        field (lit "cluster") (str []) (
          field (lit "namespace") (str (lit "default")) (
            field (lit "kind") (str (lit "Pod"))
              (field (lit "status") (str []) (field (lit "updatedAt") (num (whole 5)) end)))))))

abbrev accepted : ResourceViewPreset
accepted = record {
  name = lit "web";
  group = lit "General";
  query = lit "q";
  cluster = lit "all";
  namespace = lit "default";
  kind = lit "Pod";
  status = lit "all";
  order = whole 1;
  updated_at = whole 5;
}

stored-accepted : valid_resource_view_preset stored (whole 1) ≡ some accepted
unfolding valid_resource_view_preset kuviewer.Json.at text_eq lit kuviewer.Base.trim
stored-accepted = refl

one-IsPlace : IsPlace (whole 1)
one-IsPlace = (refl, refl)

accepted_example : IsNormal accepted
accepted_example = valid_resource_view_preset-IsNormal stored (whole 1) one-IsPlace stored-accepted

preview_example :
    let preview = build_team_compare_preview plain 7 (lit "k") load own theirs 0 none in
    length preview.new_names + length preview.conflict_names + length preview.duplicate_names
    ≡ length preview.incoming_presets
preview_example = build_team_compare_preview-counts plain 7 (lit "k") load own theirs 0 none
