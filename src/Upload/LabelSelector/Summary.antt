-- ===== src/Upload/LabelSelector/Summary.antt =====
-- The summaries of labelSelector.ts, which the resource lists show: keys and counts, no values.
use kuviewer.Base.{
  ℕ, ◌-◌, ◌&&◌, ◌||◌, none, some, List, [], ◌∷◌, map, leb, ltb, ◌==◌, if◌then◌else◌, Text, lit,
  truthy, join, length, take, filter, ◌++◌,
}
use kuviewer.Base.Dict.{keys}
use kuviewer.Base.Decimal.{decimal}
use kuviewer.Json.{Value, obj, entries}
use kuviewer.Upload.LabelSelector.{max_selector_key_length, max_summary_keys, parse_label_selector}

-- Control characters become question marks.
abbrev pub mask_control : ℕ → ℕ
mask_control c = if leb c 31 || c == 127 then b'?' else c

abbrev pub safe_summary_key : Text → Text
safe_summary_key s = take max_selector_key_length (map mask_control s)

unfoldable pub summarize_keys : List Text → Text
summarize_keys [] = lit "-"
summarize_keys (k ∷ ks) =
    let n = length (k ∷ ks) in
    let safe = map safe_summary_key (take max_summary_keys (k ∷ ks)) in
    join (lit ",") (
      if ltb max_summary_keys n
      then safe ++ ((lit "+" ++ decimal (n - max_summary_keys)) ∷ [])
      else safe)

unfoldable pub selector_key_summary : Value → Text
selector_key_summary (obj fs) = summarize_keys (keys (entries fs))
selector_key_summary _ = lit "-"

unfoldable pub label_selector_summary : Value → Text → Text
label_selector_summary value empty_label = elim (parse_label_selector value) [
  | none ↦ lit "invalid selector"
  | some p ↦
      let ks = keys p.match_labels in
      let n = length p.match_expressions in
      if length ks == 0 && n == 0
      then empty_label
      else join (lit ",") (
          filter truthy (
            (if ltb 0 (length ks) then summarize_keys ks else [])
            ∷ (if ltb 0 n then decimal n ++ lit " expressions" else [])
            ∷ []))
]
