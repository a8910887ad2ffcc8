-- ===== src/Tests/Selectors.antt =====
-- Label selectors, parsed and matched.
use kuviewer.Base.{
  ◌≡◌, refl, ◌↔◌, inl, inr, Bool, true, false, ◌&&◌, Option, none, some, List, [], ◌∷◌, Text, lit,
  text_eq, has, any, if◌then◌else◌,
}
use kuviewer.Base.Dict.{Dict, insert}
use kuviewer.Json.{
  Value, undefined, null, str, arr, obj, Fields, field, end, Items, nil, cons, is_nullish,
}
use kuviewer.Upload.LabelSelector.{
  LabelNamespaceRecord, Operator, not_in, LabelSelectorExpression, ParsedLabelSelector,
  parse_label_selector, label_selector_matches, selector_holds, matching_network_policy_namespaces,
}
use kuviewer.Upload.LabelSelector.Meaning.{Selects, label_selector_matches_iff}
use kuviewer.Upload.LabelSelector.Parsed.{IsSelector, parse_label_selector-IsSelector}

-- app = web, and tier not in (db).
abbrev selector : Value
selector = obj (
    field (lit "matchLabels") (obj (field (lit "app") (str (lit "web")) end)) (
      field (lit "matchExpressions")
        (arr (
          cons
            (obj (
              field (lit "key") (str (lit "tier")) (
                field (lit "operator") (str (lit "NotIn"))
                  (field (lit "values") (arr (cons (str (lit "db")) nil)) end))))
            nil))
        end))

abbrev parsed : ParsedLabelSelector
parsed = record {
  match_labels = (lit "app", lit "web") ∷ [];
  match_expressions = record { key = lit "tier"; operator = not_in; values = lit "db" ∷ [] } ∷ [];
}

abbrev labels : Dict Text
labels = (lit "app", lit "web") ∷ []

selector-parsed : parse_label_selector selector ≡ some parsed
unfolding parse_label_selector any has text_eq lit kuviewer.Upload.LabelSelector.parse_match_labels
    kuviewer.Json.at kuviewer.Base.traverse kuviewer.Upload.LabelSelector.valid_selector_key
    kuviewer.Base.split kuviewer.Upload.Names.bracketed kuviewer.Upload.Names.is_alnum
    kuviewer.Upload.Names.is_label_char kuviewer.Upload.LabelSelector.selector_value
    kuviewer.Upload.LabelSelector.valid_selector_value
    kuviewer.Upload.LabelSelector.parse_match_expressions
    kuviewer.Upload.LabelSelector.parse_expression kuviewer.Base.Dict.insert_all insert
    kuviewer.Base.all kuviewer.Base.split_onto kuviewer.Upload.LabelSelector.parse_expression_values
    kuviewer.Upload.LabelSelector.selector_key kuviewer.Upload.LabelSelector.selector_operator
    kuviewer.Upload.LabelSelector.valid_dns_prefix kuviewer.Upload.LabelSelector.valid_dns_segment
    kuviewer.Upload.LabelSelector.valid_key_segments kuviewer.Upload.LabelSelector.valid_label_name
    kuviewer.Upload.Names.ends_well kuviewer.Upload.Names.is_dns_char
    kuviewer.Upload.Names.is_lower_alnum
selector-parsed = refl

label_selector_matches_example :
    (label_selector_matches selector labels ≡ true)
    ↔ ((p : ParsedLabelSelector) × (parse_label_selector selector ≡ some p) × Selects p labels)
label_selector_matches_example = label_selector_matches_iff selector labels

-- The same selector does match, and not the labels of a database.
matches_web : label_selector_matches selector labels ≡ true
unfolding label_selector_matches selector_holds kuviewer.Base.Dict.lookup
    kuviewer.Upload.LabelSelector.expression_matches parse_label_selector any has text_eq lit
    kuviewer.Upload.LabelSelector.parse_match_labels kuviewer.Json.at kuviewer.Base.traverse
    kuviewer.Upload.LabelSelector.valid_selector_key kuviewer.Base.split
    kuviewer.Upload.Names.bracketed kuviewer.Upload.Names.is_alnum
    kuviewer.Upload.Names.is_label_char kuviewer.Upload.LabelSelector.selector_value
    kuviewer.Upload.LabelSelector.valid_selector_value
    kuviewer.Upload.LabelSelector.parse_match_expressions
    kuviewer.Upload.LabelSelector.parse_expression kuviewer.Base.Dict.insert_all insert
    kuviewer.Base.all kuviewer.Base.split_onto kuviewer.Upload.LabelSelector.parse_expression_values
    kuviewer.Upload.LabelSelector.selector_key kuviewer.Upload.LabelSelector.selector_operator
    kuviewer.Upload.LabelSelector.valid_dns_prefix kuviewer.Upload.LabelSelector.valid_dns_segment
    kuviewer.Upload.LabelSelector.valid_key_segments kuviewer.Upload.LabelSelector.valid_label_name
    kuviewer.Upload.Names.ends_well kuviewer.Upload.Names.is_dns_char
    kuviewer.Upload.Names.is_lower_alnum
matches_web = refl

no_match_db :
    label_selector_matches selector ((lit "app", lit "web") ∷ (lit "tier", lit "db") ∷ []) ≡ false
unfolding label_selector_matches selector_holds kuviewer.Base.Dict.lookup
    kuviewer.Upload.LabelSelector.expression_matches parse_label_selector any has text_eq lit
    kuviewer.Upload.LabelSelector.parse_match_labels kuviewer.Json.at kuviewer.Base.traverse
    kuviewer.Upload.LabelSelector.valid_selector_key kuviewer.Base.split
    kuviewer.Upload.Names.bracketed kuviewer.Upload.Names.is_alnum
    kuviewer.Upload.Names.is_label_char kuviewer.Upload.LabelSelector.selector_value
    kuviewer.Upload.LabelSelector.valid_selector_value
    kuviewer.Upload.LabelSelector.parse_match_expressions
    kuviewer.Upload.LabelSelector.parse_expression kuviewer.Base.Dict.insert_all insert
    kuviewer.Base.all kuviewer.Base.split_onto kuviewer.Upload.LabelSelector.parse_expression_values
    kuviewer.Upload.LabelSelector.selector_key kuviewer.Upload.LabelSelector.selector_operator
    kuviewer.Upload.LabelSelector.valid_dns_prefix kuviewer.Upload.LabelSelector.valid_dns_segment
    kuviewer.Upload.LabelSelector.valid_key_segments kuviewer.Upload.LabelSelector.valid_label_name
    kuviewer.Upload.Names.ends_well kuviewer.Upload.Names.is_dns_char
    kuviewer.Upload.Names.is_lower_alnum
no_match_db = refl

parse_label_selector_example : IsSelector parsed
parse_label_selector_example = parse_label_selector-IsSelector selector selector-parsed

abbrev namespaces : List LabelNamespaceRecord
namespaces = record { name = lit "front"; labels = labels } ∷ []
