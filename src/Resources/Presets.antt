-- ===== src/Resources/Presets.antt =====
-- website/src/features/resources/resourceViewPresets.ts: the saved views of the resource explorer.
pub mod Merge
pub mod Merged
pub mod Counted
pub mod Kept
pub mod Accepted
pub mod Orders
pub mod Teams
pub mod Previewed
use kuviewer.Base.{
  ℕ, ◌+◌, Ordering, compare, Bool, true, false, not, ◌&&◌, ◌||◌, Option, none, some, List, [], ◌∷◌,
  ◌++◌, map, if◌then◌else◌, Text, lit, text_eq, truthy, or_text, trim, has, filter, length, take,
  flat_map, ◌>>=◌, ◌>>◌, guard, slice_to, includes, join,
}
use kuviewer.Base.Indexed.{indexed}
use kuviewer.Base.Number.{Number, whole, is_finite, num_lt, num_eq, infinite}
use kuviewer.Base.Sets.{set_of}
use kuviewer.Base.Sort.{or_else, sort_by, text_compare}
use kuviewer.Json.{items, Value, undefined, null, bool, num, str, arr, obj, Fields, at}
use kuviewer.Platform.{Platform}

abbrev pub default_resource_view_group : Text
default_resource_view_group = lit "General"

abbrev pub max_resource_view_presets : ℕ
max_resource_view_presets = 8

abbrev pub max_resource_view_group_length : ℕ
max_resource_view_group_length = 40

abbrev pub all_value : Text
all_value = lit "all"

pub record ResourceViewFilters : Type 0 where
  pub query : Text
  pub cluster : Text
  pub namespace : Text
  pub kind : Text
  pub status : Text

-- The fields of `ResourceViewFilters`, which the interface extends, and its own.
pub record ResourceViewPreset : Type 0 where
  pub name : Text
  pub group : Text
  pub query : Text
  pub cluster : Text
  pub namespace : Text
  pub kind : Text
  pub status : Text
  pub order : Number
  pub updated_at : Number

abbrev pub preset_names : List ResourceViewPreset → List Text
preset_names ps = map (λ (p : ResourceViewPreset). p.name) ps

abbrev pub preset_orders : List ResourceViewPreset → List Number
preset_orders ps = map (λ (p : ResourceViewPreset). p.order) ps

-- `normalizeResourceViewPresetOrder` of a number, and of an unknown value.
abbrev pub positive_or : Number → Number → Number
positive_or value fallback = if is_finite value && num_lt (whole 0) value then value else fallback

unfoldable pub normalize_resource_view_preset_order : Value → Number → Number
normalize_resource_view_preset_order (num n) fallback = positive_or n fallback
normalize_resource_view_preset_order _ fallback = fallback

unfoldable pub normalize_resource_view_preset_group : Text → Text
normalize_resource_view_preset_group group =
    or_text (slice_to max_resource_view_group_length (trim group)) default_resource_view_group

unfoldable pub normalize_resource_view_preset_name : Text → Text
normalize_resource_view_preset_name name = slice_to 80 (trim name)

-- `value || allValue`.
abbrev pub or_all : Text → Text
or_all s = or_text s all_value

abbrev pub as_text : Value → Option Text
as_text (str s) = some s
as_text _ = none

abbrev pub as_number : Value → Option Number
as_number (num n) = some n
as_number _ = none

abbrev pub text_or_empty : Value → Text
text_or_empty (str s) = s
text_or_empty _ = []

-- An array is an object too, without any of the names.
unfoldable pub valid_resource_view_preset : Value → Number → Option ResourceViewPreset
unfolding normalize_resource_view_preset_group normalize_resource_view_preset_order
valid_resource_view_preset (obj fs) fallback_order = do
  name ← as_text (at fs (lit "name"))
  guard (not (text_eq (trim name) []))
  query ← as_text (at fs (lit "query"))
  cluster ← as_text (at fs (lit "cluster"))
  namespace ← as_text (at fs (lit "namespace"))
  kind ← as_text (at fs (lit "kind"))
  status ← as_text (at fs (lit "status"))
  updated_at ← as_number (at fs (lit "updatedAt"))
  some (record {
    name = slice_to 80 (trim name);
    group = normalize_resource_view_preset_group (text_or_empty (at fs (lit "group")));
    query = slice_to 160 query;
    cluster = or_all cluster;
    namespace = or_all namespace;
    kind = or_all kind;
    status = or_all status;
    order = normalize_resource_view_preset_order (at fs (lit "order")) fallback_order;
    updated_at = updated_at;
  })
valid_resource_view_preset _ fallback_order = none

-- `[]` or `[preset]`, as `flatMap` takes it.
abbrev pub one_or_none {ℓ} : {A : Type ℓ} → Option A → List A
one_or_none none = []
one_or_none (some a) = a ∷ []

-- `left - right` as `sort` reads it: NaN counts as 0.
abbrev pub num_compare : Number → Number → Ordering
num_compare a b =
    if num_lt a b then Ordering.lt else if num_lt b a then Ordering.gt else Ordering.eq

abbrev pub entry_order : ResourceViewPreset × ℕ → ResourceViewPreset × ℕ → Ordering
entry_order a b = or_else (num_compare a.0.order b.0.order) (compare a.1 b.1)

-- An entry `{ preset: { ...preset, order }, index }` of `orderResourceViewPresets`.
abbrev pub ordered_entry : ResourceViewPreset × ℕ → ResourceViewPreset × ℕ
ordered_entry e = let p = e.0 in (record p { order = positive_or p.order (whole (e.1 + 1)) }, e.1)

unfoldable pub order_resource_view_presets : List ResourceViewPreset → List ResourceViewPreset
unfolding indexed
order_resource_view_presets presets =
    map (λ e. e.0) (sort_by entry_order (map ordered_entry (indexed 0 presets)))

abbrev pub with_order : ResourceViewPreset × ℕ → ResourceViewPreset
with_order e = let p = e.0 in record p { order = whole (e.1 + 1) }

unfoldable pub normalize_resource_view_preset_orders :
    List ResourceViewPreset → List ResourceViewPreset
unfolding order_resource_view_presets indexed
normalize_resource_view_preset_orders presets =
    map with_order (indexed 0 (order_resource_view_presets presets))

unfoldable pub upsert_resource_view_preset :
    List ResourceViewPreset → ResourceViewPreset → List ResourceViewPreset
unfolding normalize_resource_view_preset_orders
upsert_resource_view_preset presets preset = normalize_resource_view_preset_orders (
    take max_resource_view_presets
      (preset ∷ filter (λ (p : ResourceViewPreset). not (text_eq p.name preset.name)) presets))

-- The clock is the first argument.
unfoldable pub move_resource_view_presets_to_group :
    Number → List ResourceViewPreset → List Text → Text → List ResourceViewPreset
unfolding normalize_resource_view_preset_orders order_resource_view_presets
move_resource_view_presets_to_group now presets selected_names target_group =
    let group = normalize_resource_view_preset_group target_group in
    let selected =
      map (λ (p : ResourceViewPreset). record p { group = group; updated_at = now })
        (order_resource_view_presets
          (filter (λ (p : ResourceViewPreset). has p.name selected_names) presets)) in
    let remaining =
      order_resource_view_presets
        (filter (λ (p : ResourceViewPreset). not (has p.name selected_names)) presets) in
    normalize_resource_view_preset_orders (selected ++ remaining)

-- What `readResourceViewPresets` makes of the parsed value.
unfoldable pub read_resource_view_presets : Value → List ResourceViewPreset
unfolding valid_resource_view_preset normalize_resource_view_preset_orders indexed
read_resource_view_presets (arr vs) = normalize_resource_view_preset_orders (
    take max_resource_view_presets (
      flat_map (λ (e : Value × ℕ). one_or_none (valid_resource_view_preset e.0 (whole (e.1 + 1))))
        (indexed 0 (items vs))))
read_resource_view_presets _ = []

unfoldable pub resource_view_preset_filters_equal : ResourceViewPreset → ResourceViewPreset → Bool
resource_view_preset_filters_equal l r =
    text_eq l.group r.group
    && num_eq l.order r.order
    && text_eq l.query r.query
    && text_eq l.cluster r.cluster
    && text_eq l.namespace r.namespace
    && text_eq l.kind r.kind
    && text_eq l.status r.status

unfoldable pub resource_view_preset_matches_filters :
    ResourceViewPreset → ResourceViewFilters → Bool
resource_view_preset_matches_filters p f =
    text_eq p.query (slice_to 160 f.query)
    && text_eq p.cluster f.cluster
    && text_eq p.namespace f.namespace
    && text_eq p.kind f.kind
    && text_eq p.status f.status

unfoldable pub normalize_preset_filter_value : Text → List Text → Text
normalize_preset_filter_value value available =
    if text_eq value all_value || has value available then value else all_value
