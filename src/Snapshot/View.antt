-- ===== src/Snapshot/View.antt =====
-- website/src/features/snapshot/snapshotComparisonView.ts: which changes the comparison shows.
pub mod Shown
use kuviewer.Base.{
  ℕ, ◌+◌, Bool, true, false, not, ◌&&◌, ◌||◌, Option, none, some, List, [], ◌∷◌, ◌++◌, map,
  if◌then◌else◌, Text, lit, text_eq, truthy, trim, has, filter, length, all, includes, join, ◌==◌,
}
use kuviewer.Base.Dict.{Dict, lookup, insert}
use kuviewer.Base.Sets.{add, delete, set_of}
use kuviewer.Base.Sort.{sort_by}
use kuviewer.Platform.{Platform}
use kuviewer.Snapshot.Compare.{
  NodeChange, ClusterChange, EdgeChange, SnapshotComparison, ResourceIdentity,
}
use kuviewer.Snapshot.Diff.{ChangeType, same_type}
use kuviewer.Topology.Types.{ClusterSummary}

-- `SnapshotDiffChangeFilter`, of exportSnapshotDiff.ts: all changes, or those of a type.
pub data ChangeFilter : Type 0 where
  all_changes : ChangeFilter
  only : ChangeType → ChangeFilter

-- `SnapshotDiffScope`, of exportSnapshotDiff.ts.
pub data Scope : Type 0 where
  resources relations clusters : Scope

pub record VisibleChanges : Type 0 where
  pub clusters : List ClusterChange
  pub edges : List EdgeChange
  pub nodes : List NodeChange

unfoldable pub matches_change_type : ChangeType → ChangeFilter → Bool
matches_change_type type all_changes = true
matches_change_type type (only wanted) = same_type type wanted

-- `before?.provider` and `before?.version`, without what `filter(Boolean)` drops.
abbrev pub provider_version : Option ClusterSummary → List Text
provider_version none = []
provider_version (some c) = c.provider ∷ c.version ∷ []

-- The count of a relation so far, or 0.
abbrev pub count_or_zero : Option ℕ → ℕ
count_or_zero none = 0
count_or_zero (some n) = n

-- The loop over the changes, with the map `counts`.
unfoldable pub count_relations : Dict ℕ → List EdgeChange → Dict ℕ
count_relations counts [] = counts
count_relations counts (c ∷ cs) =
    count_relations (insert c.relation (count_or_zero (lookup c.relation counts) + 1) counts) cs

module _ (js : Platform) where
  open js use {lower, locale_compare}

  unfoldable pub node_search_value : NodeChange → Text
  node_search_value c =
      lower (join (lit " ") (c.kind ∷ c.namespace ∷ c.name ∷ c.cluster_id ∷ c.changed_fields))

  unfoldable pub edge_search_value : EdgeChange → Text
  edge_search_value c = lower (
      join (lit " ") (
        c.cluster_id ∷ c.relation ∷ c.source.kind ∷ c.source.namespace ∷ c.source.name
        ∷ c.target.kind ∷ c.target.namespace ∷ c.target.name ∷ c.source_field ∷ c.confidence
        ∷ c.changed_fields))

  unfoldable pub cluster_search_value : ClusterChange → Text
  cluster_search_value c = lower (
      join (lit " ") (
        filter truthy (
          c.id
          ∷ c.name
          ∷ (provider_version c.before ++ provider_version c.after ++ c.changed_fields))))

  -- The test of one change: its type, and the query in its text.
  abbrev pub is_shown : ChangeFilter → Text → ChangeType → Text → Bool
  is_shown change_filter query type searched =
      matches_change_type type change_filter && (not (truthy query) || includes searched query)

  unfoldable pub filter_snapshot_comparison :
      SnapshotComparison → ChangeFilter → Text → VisibleChanges
  unfolding matches_change_type node_search_value edge_search_value cluster_search_value
  filter_snapshot_comparison comparison change_filter query =
      let normalized = lower (trim query) in
      record {
        nodes =
            filter
              (λ (c : NodeChange). is_shown change_filter normalized c.type (node_search_value c))
              comparison.nodes;
        edges =
            filter
              (λ (c : EdgeChange). is_shown change_filter normalized c.type (edge_search_value c))
              comparison.edges;
        clusters =
            filter
              (λ (c : ClusterChange).
                is_shown change_filter normalized c.type (cluster_search_value c))
              comparison.clusters;
      }

  -- A pair is `{ relation, count }`.
  unfoldable pub relation_type_counts : List EdgeChange → List (Text × ℕ)
  unfolding count_relations
  relation_type_counts changes =
      sort_by (λ a b. locale_compare a.0 b.0) (count_relations [] changes)

unfoldable pub filter_relations_by_types : List EdgeChange → List Text → List EdgeChange
filter_relations_by_types changes selected =
    if length selected == 0
    then changes
    else filter (λ (c : EdgeChange). has c.relation selected) changes

abbrev pub sets_equal : List Text → List Text → Bool
sets_equal left right = length left == length right && all (λ k. has k right) left

unfoldable pub retain_available_relation_types : List Text → List (Text × ℕ) → List Text
retain_available_relation_types selected options =
    let next = filter (λ k. has k (set_of (map (λ o. o.0) options))) selected in
    if sets_equal selected next then selected else next

unfoldable pub toggle_relation_type_selection : List Text → Text → List Text
toggle_relation_type_selection selected relation =
    if has relation selected then delete relation selected else add relation selected

unfoldable pub scope_total_count : Scope → SnapshotComparison → ℕ
scope_total_count relations c = length c.edges
scope_total_count clusters c = length c.clusters
scope_total_count resources c = length c.nodes

unfoldable pub visible_change_count : Scope → VisibleChanges → ℕ
visible_change_count relations c = length c.edges
visible_change_count clusters c = length c.clusters
visible_change_count resources c = length c.nodes
