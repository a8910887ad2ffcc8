-- ===== src/Upload/Import/Summary.antt =====
-- `sanitizeImportedSummary`: the summary of an imported node, without what must stay hidden.
use kuviewer.Base.{
  Bool, true, false, not, ◌||◌, Option, none, some, List, [], ◌∷◌, ◌++◌, map, leb, if◌then◌else◌,
  Text, lit, text_eq, truthy, take, length, all, flat_map, traverse,
}
use kuviewer.Base.Dict.{Dict, from_entries}
use kuviewer.Base.Number.{Number, is_finite}
use kuviewer.Json.{Value, bool, num, str, arr, obj, items, entries, at}
use kuviewer.Platform.{Platform}
use kuviewer.SafeMetadata.{sensitive_field}
use kuviewer.Topology.Types.{SummaryValue, text, number, boolean, texts, numbers, booleans}
use kuviewer.Upload.Import.Values.{imported_string, imported_count}

abbrev pub is_string : Value → Bool
is_string (str s) = true
is_string _ = false

abbrev pub finite_numbers : List Value → Option (List Number)
finite_numbers vs =
    traverse (λ v. elim v [ num n ↦ if is_finite n then some n else none | _ ↦ none ]) vs

abbrev pub booleans_of : List Value → Option (List Bool)
booleans_of vs = traverse (λ v. elim v [ bool b ↦ some b | _ ↦ none ]) vs

-- An array: of strings, of finite numbers or of Booleans; the empty one is of strings.
unfoldable pub imported_array : List Value → Option SummaryValue
unfolding imported_string
imported_array vs =
    if all is_string vs
    then some (texts (map (λ v. imported_string v 500) vs))
    else elim (finite_numbers vs) [
      | some ns ↦ some (numbers ns)
      | none ↦ elim (booleans_of vs) [ some bs ↦ some (booleans bs) | none ↦ none ]
    ]

unfoldable pub imported_summary_value : Value → Option SummaryValue
unfolding imported_array
imported_summary_value (str s) = some (text (imported_string (str s) 2000))
imported_summary_value (num n) = if is_finite n then some (number n) else none
imported_summary_value (bool b) = some (boolean b)
imported_summary_value (arr vs) =
    if leb (length (items vs)) 100 then imported_array (items vs) else none
imported_summary_value _ = none

-- The summary of a Secret: that its values are hidden, its type, the count of its keys and whether
-- it is referenced.
unfoldable pub secret_summary : Value → Dict SummaryValue
unfolding imported_string imported_count
secret_summary (obj fs) =
    let hidden : Dict SummaryValue = (lit "values", text (lit "hidden")) ∷ [] in
    let type : Dict SummaryValue = elim (at fs (lit "type")) [
      | str s ↦ (lit "type", text (imported_string (str s) 160)) ∷ []
      | _ ↦ []
    ] in
    let keys : Dict SummaryValue = elim (at fs (lit "keys")) [
      | num n ↦ (lit "keys", number (imported_count (num n))) ∷ []
      | _ ↦ []
    ] in
    let referenced : Dict SummaryValue = elim (at fs (lit "referenced")) [
      | bool b ↦ (lit "referenced", boolean b) ∷ []
      | _ ↦ []
    ] in
    hidden ++ (type ++ (keys ++ referenced))
secret_summary _ = (lit "values", text (lit "hidden")) ∷ []

module _ (js : Platform) where
  open js use {lower}

  -- A key that must not be imported.
  unfoldable pub hidden_key : Text → Bool
  hidden_key key =
      not (truthy key)
      || sensitive_field js key
      || text_eq (lower key) (lit "data")
      || text_eq (lower key) (lit "stringdata")

  abbrev pub redact : SummaryValue → SummaryValue
  redact (text s) = if sensitive_field js s then text (lit "redacted") else text s
  redact v = v

  unfoldable pub summary_entry : Text × Value → Dict SummaryValue
  unfolding hidden_key
  summary_entry (raw_key, raw_value) =
      let key = imported_string (str raw_key) 160 in
      if hidden_key key
      then []
      else elim (imported_summary_value raw_value) [ none ↦ [] | some v ↦ (key, redact v) ∷ [] ]

  unfoldable pub sanitize_imported_summary : Value → Text → Dict SummaryValue
  unfolding summary_entry secret_summary
  sanitize_imported_summary value kind =
      if text_eq kind (lit "Secret") then secret_summary value else elim value [
        | obj fs ↦ from_entries (flat_map summary_entry (take 100 (entries fs)))
        | _ ↦ []
      ]
