-- ===== src/Resources/List/Preferences.antt =====
-- The stored preferences of the resource list and its requests, of resourceListModel.ts. What
-- storage gives is an optional value: nothing stored, or no JSON, is none.
use kuviewer.Base.{
  ℕ, ◌≡◌, refl, Bool, true, false, Option, none, some, if◌then◌else◌, Text, lit, text_eq, truthy,
}
use kuviewer.Json.{Value, bool, str, obj, Fields, field, end, at, is_text}
use kuviewer.Resources.List.{
  SortField, by_name, by_kind, by_namespace, by_status, by_cluster, SortDirection, asc, desc,
  SortPreference,
}
use kuviewer.Resources.Presets.{ResourceViewFilters}

pub record ColumnPreference : Type 0 where
  pub namespace : Bool
  pub cluster : Bool
  pub age : Bool
  pub summary : Bool

pub record ListRequest : Type 0 where
  pub query : Text
  pub cluster : Text
  pub namespace : Text
  pub kind : Text
  pub status : Text
  pub sort : SortField
  pub direction : SortDirection
  pub limit : ℕ
  pub cursor : Option Text

-- The texts of the fields, the values of `resourceListSortOptions`.
abbrev pub field_text : SortField → Text
field_text by_kind = lit "kind"
field_text by_name = lit "name"
field_text by_namespace = lit "namespace"
field_text by_status = lit "status"
field_text by_cluster = lit "cluster"

abbrev pub direction_text : SortDirection → Text
direction_text asc = lit "asc"
direction_text desc = lit "desc"

-- The option of the value, or the default field.
unfoldable pub sort_field_of : Value → SortField
sort_field_of (str s) =
    if text_eq s (lit "name")
    then by_name
    else if text_eq s (lit "namespace")
    then by_namespace
    else if text_eq s (lit "status")
    then by_status
    else if text_eq s (lit "cluster")
    then by_cluster
    else by_kind
sort_field_of _ = by_kind

unfoldable pub normalize_sort_preference : Fields → SortPreference
unfolding sort_field_of
normalize_sort_preference fs = record {
  field = sort_field_of (at fs (lit "field"));
  direction = if is_text (at fs (lit "direction")) (lit "desc") then desc else asc;
}

abbrev pub default_sort_preference : SortPreference
default_sort_preference = record { field = by_kind; direction = asc }

-- A value without fields has no preference; reading one of null fails, and so is the default too.
unfoldable pub read_sort_preference : Option Value → SortPreference
unfolding normalize_sort_preference
read_sort_preference (some (obj fs)) = normalize_sort_preference fs
read_sort_preference _ = default_sort_preference

-- The value that is stored: a preference of this type is normal.
unfoldable pub written_sort_preference : SortPreference → Value
written_sort_preference p = obj (
    field (lit "field") (str (field_text p.field))
      (field (lit "direction") (str (direction_text p.direction)) end))

abbrev pub default_columns : ColumnPreference
default_columns = record { namespace = true; cluster = false; age = true; summary = true }

-- `typeof value === 'boolean' ? value : fallback`.
abbrev pub bool_or : Value → Bool → Bool
bool_or (bool b) fallback = b
bool_or _ fallback = fallback

unfoldable pub normalize_column_preference : Fields → ColumnPreference
normalize_column_preference fs = record {
  namespace = bool_or (at fs (lit "namespace")) true;
  cluster = bool_or (at fs (lit "cluster")) false;
  age = bool_or (at fs (lit "age")) true;
  summary = bool_or (at fs (lit "summary")) true;
}

unfoldable pub read_column_preference : Option Value → ColumnPreference
unfolding normalize_column_preference
read_column_preference (some (obj fs)) = normalize_column_preference fs
read_column_preference _ = default_columns

unfoldable pub written_column_preference : ColumnPreference → Value
written_column_preference c = obj (
    field (lit "namespace") (bool c.namespace) (
      field (lit "cluster") (bool c.cluster)
        (field (lit "age") (bool c.age) (field (lit "summary") (bool c.summary) end))))

-- A cursor that is empty is left out.
unfoldable pub build_resource_list_request :
    ResourceViewFilters → SortPreference → Text → ListRequest
build_resource_list_request filters preference cursor = record {
  query = filters.query;
  cluster = filters.cluster;
  namespace = filters.namespace;
  kind = filters.kind;
  status = filters.status;
  sort = preference.field;
  direction = preference.direction;
  limit = 200;
  cursor = if truthy cursor then some cursor else none;
}

-- Preferences that are stored read back as they were: every sort field and direction, and every
-- choice of columns.
pub read_written_preferences :
    (p : SortPreference) (c : ColumnPreference)
    → (read_sort_preference (some (written_sort_preference p)) ≡ p)
      × (read_column_preference (some (written_column_preference c)) ≡ c)
unfolding read_sort_preference written_sort_preference read_column_preference
    written_column_preference text_eq lit at
read_written_preferences p c = (by_fields p.field p.direction, refl)
  where
    by_fields :
        (f : SortField) (d : SortDirection)
        → read_sort_preference
            (some (written_sort_preference (record { field = f; direction = d })))
          ≡ record { field = f; direction = d }
    by_fields by_name asc = refl
    by_fields by_name desc = refl
    by_fields by_kind asc = refl
    by_fields by_kind desc = refl
    by_fields by_namespace asc = refl
    by_fields by_namespace desc = refl
    by_fields by_status asc = refl
    by_fields by_status desc = refl
    by_fields by_cluster asc = refl
    by_fields by_cluster desc = refl
