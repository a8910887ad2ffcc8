-- ===== src/Tests/Lists.antt =====
-- The resource list: pages, selection, keys and exported cells; and the comparison's view.
use kuviewer.Base.{
  ℕ, ◌+◌, ◌-◌, ◌≤◌, ◌≡◌, refl, ◌⊎◌, inl, inr, Bool, true, false, not, ◌&&◌, ◌||◌, Option, none,
  some, List, [], ◌∷◌, ◌++◌, Text, lit, text_eq, has, filter, length, max, min, if◌then◌else◌, All,
}
use kuviewer.Base.Sets.{Distinct}
use kuviewer.Resources.List.{
  ResourceExplorerItem, resource_ids, SortPreference, by_kind, desc, merge_resource_pages,
  index_of_resource,
}
use kuviewer.Resources.List.Cells.{
  shown_value, read_cell, begins_formula, safe_csv_cell-no_formula, safe_csv_cell-read,
}
use kuviewer.Resources.List.Export.{safe_csv_cell}
use kuviewer.Resources.List.Keyboard.{KeyboardInput}
use kuviewer.Resources.List.Pages.{merge_resource_pages-Distinct}
use kuviewer.Resources.List.Preferences.{
  ColumnPreference, read_sort_preference, written_sort_preference, read_column_preference,
  written_column_preference, read_written_preferences,
}
use kuviewer.Tests.Data.{item}
use kuviewer.Base.Indexed.{find_index}

abbrev loaded : List ResourceExplorerItem
loaded = item (lit "a") ∷ item (lit "b") ∷ []

abbrev page : List ResourceExplorerItem
page = item (lit "b") ∷ item (lit "d") ∷ []

loaded-Distinct : Distinct (resource_ids loaded)
unfolding has text_eq lit
loaded-Distinct = (refl, (refl, tt))

page-Distinct : Distinct (resource_ids page)
unfolding has text_eq lit
page-Distinct = (refl, (refl, tt))

merge_resource_pages_example :
    Distinct (resource_ids (merge_resource_pages loaded page))
    × (has (lit "d") (resource_ids (merge_resource_pages loaded page))
        ≡ (has (lit "d") (resource_ids loaded) || has (lit "d") (resource_ids page)))
merge_resource_pages_example =
    merge_resource_pages-Distinct loaded page (lit "d") loaded-Distinct page-Distinct

abbrev by_kind_down : SortPreference
by_kind_down = record { field = by_kind; direction = desc }

a-first : index_of_resource loaded (lit "a") ≡ some 0
unfolding find_index text_eq lit
a-first = refl

b-second : index_of_resource loaded (lit "b") ≡ some 1
unfolding find_index text_eq lit
b-second = refl

no_formula_example :
    (begins_formula (safe_csv_cell (lit "=a,b")) ≡ false)
    × (begins_formula (read_cell (safe_csv_cell (lit "=a,b") ++ (44 ∷ lit "next"))).0 ≡ false)
no_formula_example = safe_csv_cell-no_formula (lit "=a,b") (lit "next") 44 refl

cell_example : safe_csv_cell (lit "=a,b") ≡ lit "\"'=a,b\""
unfolding safe_csv_cell lit kuviewer.Base.any filter
cell_example = refl

read_example :
    read_cell (safe_csv_cell (lit "a,b") ++ (44 ∷ lit "next"))
    ≡ (shown_value (lit "a,b"), 44 ∷ lit "next")
read_example = safe_csv_cell-read (lit "a,b") (lit "next") 44 refl

abbrev pressed : Text → Bool → KeyboardInput
pressed key alt = record {
  alt_key = alt;
  ctrl_key = false;
  has_selected_resource = true;
  has_selection_or_message = true;
  key = key;
  meta_key = false;
  resource_count = 2;
  selected_resource_index = some 1;
  shift_key = false;
  shortcut_target = false;
}

abbrev few_columns : ColumnPreference
few_columns = record { namespace = false; cluster = true; age = false; summary = true }

preferences_example :
    (read_sort_preference (some (written_sort_preference by_kind_down)) ≡ by_kind_down)
    × (read_column_preference (some (written_column_preference few_columns)) ≡ few_columns)
preferences_example = read_written_preferences by_kind_down few_columns
