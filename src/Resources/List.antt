-- ===== src/Resources/List.antt =====
-- website/src/features/resources/resourceListModel.ts: the list of the resource explorer, with
-- `ResourceExplorerItem` of website/src/types/resourceExplorer.ts and `safeCsvCell` of
-- website/src/features/export/safeCsv.ts.
pub mod Pages
pub mod Selection
pub mod Cells
pub mod Keyboard
pub mod Export
pub mod Preferences
use kuviewer.Base.{
  ℕ, ◌+◌, ◌-◌, Ordering, compare, Bool, true, false, not, ◌&&◌, ◌||◌, Option, none, some, List, [],
  ◌∷◌, ◌++◌, map, max, min, if◌then◌else◌, Text, lit, text_eq, truthy, trim, has, filter, length,
  take, drop, get_elem?, includes, join, ◌==◌, leb,
}
use kuviewer.Base.Dict.{Dict}
use kuviewer.Base.Indexed.{indexed, find_index}
use kuviewer.Base.Sets.{set_of}
use kuviewer.Base.Sort.{or_else, sort_by, text_compare}
use kuviewer.Json.{Value}
use kuviewer.Platform.{Platform}
use kuviewer.Resources.Presets.{ResourceViewFilters, all_value}
use kuviewer.Topology.Types.{SummaryValue, text}

pub record RelatedResource : Type 0 where
  pub node_id : Text
  pub kind : Text
  pub namespace : Option Text
  pub name : Text
  pub edge_type : Text
  pub direction : Text
  pub source_field : Text

pub record ResourceExplorerItem : Type 0 where
  pub id : Text
  pub cluster_id : Text
  pub kind : Text
  pub namespace : Option Text
  pub name : Text
  pub status : Text
  pub labels : Dict Text
  pub annotations : Dict Text
  pub summary : Dict SummaryValue
  pub preview : Dict Value
  pub related : List RelatedResource

abbrev pub resource_ids : List ResourceExplorerItem → List Text
resource_ids rs = map (λ (r : ResourceExplorerItem). r.id) rs

pub data SortField : Type 0 where
  by_name by_kind by_namespace by_status by_cluster : SortField

pub data SortDirection : Type 0 where
  asc desc : SortDirection

pub record SortPreference : Type 0 where
  pub field : SortField
  pub direction : SortDirection

-- A page's resources that are not known yet come behind the known ones.
unfoldable pub merge_resource_pages :
    List ResourceExplorerItem → List ResourceExplorerItem → List ResourceExplorerItem
merge_resource_pages current incoming =
    current
    ++ filter (λ (r : ResourceExplorerItem). not (has r.id (set_of (resource_ids current))))
        incoming

-- `namespace || ''`.
abbrev pub or_empty : Option Text → Text
or_empty none = []
or_empty (some s) = s

abbrev pub is_namespace : Option Text → Text → Bool
is_namespace none s = false
is_namespace (some t) s = text_eq t s

-- `{ resource, index }`
abbrev pub Placed : Type 0
Placed = ResourceExplorerItem × ℕ

abbrev pub flip : Ordering → Ordering
flip Ordering.lt = Ordering.gt
flip Ordering.eq = Ordering.eq
flip Ordering.gt = Ordering.lt

abbrev pub directed : SortDirection → Ordering → Ordering
directed asc o = o
directed desc o = flip o

module _ (js : Platform) where
  open js use {lower, base_compare, text_of}

  -- `recordText`.
  unfoldable pub record_text : Dict SummaryValue → Text
  record_text m = lower (join (lit " ") (map (λ e. e.0 ++ (b':' ∷ text_of e.1)) m))

  -- `resource.namespace?.toLowerCase().includes(query)`
  abbrev pub namespace_includes : Option Text → Text → Bool
  namespace_includes none query = false
  namespace_includes (some s) query = includes (lower s) query

  unfoldable pub matches_query : Text → ResourceExplorerItem → Bool
  unfolding record_text
  matches_query query r =
      not (truthy query)
      || includes (lower r.name) query
      || includes (lower r.kind) query
      || namespace_includes r.namespace query
      || includes (lower r.cluster_id) query
      || includes (record_text (map (λ e. (e.0, text e.1)) r.labels)) query
      || includes (record_text r.summary) query

  unfoldable pub matches_filters : ResourceViewFilters → ResourceExplorerItem → Bool
  unfolding matches_query
  matches_filters f r =
      matches_query (lower (trim f.query)) r
      && (text_eq f.cluster all_value || text_eq r.cluster_id f.cluster)
      && (text_eq f.namespace all_value
          || is_namespace r.namespace f.namespace
          || (text_eq r.kind (lit "Namespace") && text_eq r.name f.namespace))
      && (text_eq f.kind all_value || text_eq r.kind f.kind)
      && (text_eq f.status all_value || text_eq r.status f.status)

  unfoldable pub filter_resource_list :
      List ResourceExplorerItem → ResourceViewFilters → List ResourceExplorerItem
  unfolding matches_filters
  filter_resource_list resources filters = filter (matches_filters filters) resources

  abbrev pub compare_resource_sort_value :
      SortField → ResourceExplorerItem → ResourceExplorerItem → Ordering
  compare_resource_sort_value by_cluster l r = base_compare l.cluster_id r.cluster_id
  compare_resource_sort_value by_kind l r = base_compare l.kind r.kind
  compare_resource_sort_value by_namespace l r =
      base_compare (or_empty l.namespace) (or_empty r.namespace)
  compare_resource_sort_value by_status l r = base_compare l.status r.status
  compare_resource_sort_value by_name l r = base_compare l.name r.name

  abbrev pub fallback_order : Placed → Placed → Ordering
  fallback_order l r = or_else (base_compare l.0.kind r.0.kind) (
      or_else (base_compare (or_empty l.0.namespace) (or_empty r.0.namespace)) (
        or_else (base_compare l.0.name r.0.name)
          (or_else (base_compare l.0.id r.0.id) (compare l.1 r.1))))

  -- `normalizeResourceListSortPreference` changes no preference of these types. The direction turns the chosen field's order alone.
  abbrev pub placed_order : SortPreference → Placed → Placed → Ordering
  placed_order p l r =
      or_else (directed p.direction (compare_resource_sort_value p.field l.0 r.0))
        (fallback_order l r)

  unfoldable pub sort_resource_list :
      List ResourceExplorerItem → SortPreference → List ResourceExplorerItem
  unfolding indexed
  sort_resource_list resources preference =
      map (λ e. e.0) (sort_by (placed_order preference) (indexed 0 resources))

-- The sets are those of the code; where nothing is dropped it gives back the same object.
unfoldable pub reconcile_resource_selection : List Text → List ResourceExplorerItem → List Text
reconcile_resource_selection current visible =
    let next = filter (λ k. has k (set_of (resource_ids visible))) current in
    if length next == length current then current else next

pub record SelectionRange : Type 0 where
  pub anchor_resource_id : Text
  pub resource_ids : List Text

abbrev pub index_of_resource : List ResourceExplorerItem → Text → Option ℕ
index_of_resource resources id =
    find_index (λ (r : ResourceExplorerItem). text_eq r.id id) resources

-- The first index that is there, `none` being -1.
abbrev pub first_index : Option ℕ → Option ℕ → ℕ → ℕ
first_index (some i) selected target = i
first_index none (some i) target = i
first_index none none target = target

abbrev pub id_or : Option ResourceExplorerItem → Text → Text
id_or none d = d
id_or (some r) d = r.id

unfoldable pub get_resource_selection_range :
    List ResourceExplorerItem → Text → Text → Option ℕ → Option SelectionRange
unfolding find_index
get_resource_selection_range resources anchor_id target_id selected =
    elim (index_of_resource resources target_id) [
      | none ↦ none
      | some target ↦
          let anchor = first_index (index_of_resource resources anchor_id) selected target in
          let start = min anchor target in
          some (record {
            anchor_resource_id = id_or (get_elem? resources anchor) target_id;
            resource_ids =
                resource_ids (take (max anchor target + 1 - start) (drop start resources));
          })
    ]

-- `Array.from(new Set(values)).sort()`
unfoldable pub unique_sorted_values : List Text → List Text
unique_sorted_values values = sort_by text_compare (set_of values)
