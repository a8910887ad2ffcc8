-- ===== src/Resources/List/Export.antt =====
-- What a selection of resources is copied and exported as: the rows and the CSV text.
use kuviewer.Base.{
  ℕ, Bool, false, not, ◌||◌, List, [], ◌∷◌, ◌++◌, map, if◌then◌else◌, Text, lit, truthy, length,
  filter, any, join, ◌==◌,
}
use kuviewer.Base.Decimal.{decimal}
use kuviewer.Base.Dict.{keys}
use kuviewer.Base.Sort.{sort_by, text_compare}
use kuviewer.Resources.List.{ResourceExplorerItem, or_empty}

pub record BulkExportRow : Type 0 where
  pub cluster : Text
  pub namespace : Text
  pub kind : Text
  pub name : Text
  pub status : Text
  pub labels_count : ℕ
  pub annotations_count : ℕ
  pub summary_keys : List Text
  pub related_count : ℕ

unfoldable pub resource_bulk_copy_name : ResourceExplorerItem → Text
resource_bulk_copy_name r =
    r.kind
    ++ (b' ' ∷ (if truthy (or_empty r.namespace) then or_empty r.namespace ++ lit "/" else []))
    ++ r.name

unfoldable pub resource_bulk_export_row : ResourceExplorerItem → BulkExportRow
resource_bulk_export_row r = record {
  cluster = r.cluster_id;
  namespace = or_empty r.namespace;
  kind = r.kind;
  name = r.name;
  status = r.status;
  labels_count = length (keys r.labels);
  annotations_count = length (keys r.annotations);
  summary_keys = sort_by text_compare (keys r.summary);
  related_count = length r.related;
}

-- The class `[\t\r\n ]` and the class `[=+\-@]` of the formula test.
abbrev pub is_blank : ℕ → Bool
is_blank c = c == 9 || c == 13 || c == 10 || c == 32

abbrev pub is_formula : ℕ → Bool
is_formula c = c == b'=' || c == b'+' || c == b'-' || c == b'@'

-- `/^[\t\r\n ]*[=+\-@]/`: blanks are no formula characters, so the match needs no backtracking.
unfoldable pub starts_formula : Text → Bool
starts_formula [] = false
starts_formula (c ∷ s) = if is_blank c then starts_formula s else is_formula c

-- `/[",\n\r]/`.
abbrev pub needs_quotes : ℕ → Bool
needs_quotes c = c == 34 || c == 44 || c == 10 || c == 13

-- `replace(/"/g, '""')`
unfoldable pub double_quotes : Text → Text
double_quotes [] = []
double_quotes (c ∷ s) = if c == 34 then 34 ∷ 34 ∷ double_quotes s else c ∷ double_quotes s

unfoldable pub safe_csv_cell : Text → Text
unfolding starts_formula double_quotes
safe_csv_cell value =
    let bare = filter (λ c. not (c == 0)) value in
    let text = if starts_formula bare then 39 ∷ bare else bare in
    if any needs_quotes text then (34 ∷ double_quotes text) ++ (34 ∷ []) else text

unfoldable pub safe_csv_document : List Text → List (List Text) → Text
unfolding safe_csv_cell
safe_csv_document headers rows =
    join (lit ",") (map safe_csv_cell headers)
    ++ (10 ∷ join (10 ∷ []) (map (λ row. join (lit ",") (map safe_csv_cell row)) rows))
    ++ (10 ∷ [])

-- A row's cells, before they are made safe, in the order of the header.
abbrev pub bulk_row_cells : BulkExportRow → List Text
bulk_row_cells r =
    r.cluster
    ∷ r.namespace
    ∷ r.kind
    ∷ r.name
    ∷ r.status
    ∷ decimal r.labels_count
    ∷ decimal r.annotations_count
    ∷ join (lit ";") r.summary_keys
    ∷ decimal r.related_count
    ∷ []

abbrev pub bulk_header : Text
bulk_header =
    lit "cluster,namespace,kind,name,status,labelsCount,annotationsCount,summaryKeys,relatedCount"

unfoldable pub resource_bulk_export_csv : List ResourceExplorerItem → Text
unfolding resource_bulk_export_row safe_csv_cell
resource_bulk_export_csv resources =
    bulk_header
    ++ (10
        ∷ join (10 ∷ []) (
            map
              (λ r.
                join (lit ",") (map safe_csv_cell (bulk_row_cells (resource_bulk_export_row r))))
              resources))
    ++ (10 ∷ [])
