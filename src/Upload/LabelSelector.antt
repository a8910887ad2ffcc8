-- ===== src/Upload/LabelSelector.antt =====
-- website/src/features/upload/labelSelector.ts: label selectors of Kubernetes objects, parsed from
-- untrusted values and matched against labels.
pub mod Parsed
pub mod Meaning
pub mod Summary
use kuviewer.Base.{
  ℕ, ◌+◌, ◌-◌, Bool, true, false, not, ◌&&◌, ◌||◌, Option, none, some, List, [], ◌∷◌, map, leb, ltb,
  ◌==◌, if◌then◌else◌, Text, lit, text_eq, truthy, or_text, has, split, join, length, take, all,
  any, filter, traverse, ◌>>=◌, ◌>>◌, guard, get_elem?, ◌++◌,
}
use kuviewer.Base.Dict.{Dict, lookup, insert_all, from_entries, keys}
use kuviewer.Base.Sets.{add_all, set_of}
use kuviewer.Base.Decimal.{decimal}
use kuviewer.Json.{
  Value, undefined, null, bool, num, str, arr, obj, Items, Fields, items, entries, at, is_nullish,
}
use kuviewer.Upload.Names.{
  bracketed, is_alnum, is_label_char, is_lower_alnum, is_dns_char, label_form, dns_form,
}

abbrev pub max_selector_labels : ℕ
max_selector_labels = 100

abbrev pub max_selector_expressions : ℕ
max_selector_expressions = 100

abbrev pub max_expression_values : ℕ
max_expression_values = 100

abbrev pub max_selector_key_length : ℕ
max_selector_key_length = 317

abbrev pub max_label_name_length : ℕ
max_label_name_length = 63

abbrev pub max_dns_prefix_length : ℕ
max_dns_prefix_length = 253

abbrev pub max_selector_value_length : ℕ
max_selector_value_length = 63

abbrev pub max_summary_keys : ℕ
max_summary_keys = 12

pub record LabelNamespaceRecord : Type 0 where
  pub name : Text
  pub labels : Dict Text

pub data Operator : Type 0 where
  in_values not_in exists does_not_exist : Operator

pub record LabelSelectorExpression : Type 0 where
  pub key : Text
  pub operator : Operator
  pub values : List Text

pub record ParsedLabelSelector : Type 0 where
  pub match_labels : Dict Text
  pub match_expressions : List LabelSelectorExpression

unfoldable pub valid_label_name : Text → Bool
valid_label_name s = truthy s && leb (length s) max_label_name_length && label_form s

unfoldable pub valid_dns_segment : Text → Bool
valid_dns_segment s = truthy s && leb (length s) 63 && dns_form s

unfoldable pub valid_dns_prefix : Text → Bool
unfolding valid_dns_segment
valid_dns_prefix s =
    truthy s && leb (length s) max_dns_prefix_length && all valid_dns_segment (split b'.' s)

-- `split` never gives no segment, and more than two are refused.
unfoldable pub valid_key_segments : List Text → Bool
unfolding valid_label_name valid_dns_prefix
valid_key_segments (name ∷ []) = valid_label_name name
valid_key_segments (prefix ∷ name ∷ []) = valid_label_name name && valid_dns_prefix prefix
valid_key_segments _ = false

-- `validSelectorKey` on a string.
unfoldable pub valid_selector_key : Text → Bool
unfolding valid_key_segments
valid_selector_key s =
    truthy s && leb (length s) max_selector_key_length && valid_key_segments (split b'/' s)

-- `validSelectorValue` on a string.
unfoldable pub valid_selector_value : Text → Bool
unfolding valid_label_name
valid_selector_value s =
    leb (length s) max_selector_value_length && (not (truthy s) || valid_label_name s)

-- `validSelectorKey` and `validSelectorValue` as guards on an unknown value.
unfoldable pub selector_key : Value → Option Text
selector_key (str s) = if valid_selector_key s then some s else none
selector_key _ = none

unfoldable pub selector_value : Value → Option Text
selector_value (str s) = if valid_selector_value s then some s else none
selector_value _ = none

unfoldable pub selector_operator : Value → Option Operator
selector_operator (str s) =
    if text_eq s (lit "In")
    then some in_values
    else if text_eq s (lit "NotIn")
    then some not_in
    else if text_eq s (lit "Exists")
    then some exists
    else if text_eq s (lit "DoesNotExist")
    then some does_not_exist
    else none
selector_operator _ = none

abbrev pub label_entry : Text × Value → Option (Text × Text)
label_entry (k, v) = if valid_selector_key k then (selector_value v >>= λ s. some (k, s)) else none

unfoldable pub parse_match_labels : Value → Option (Dict Text)
parse_match_labels (obj fs) = do
  guard (leb (length (entries fs)) max_selector_labels)
  es ← traverse label_entry (entries fs)
  some (from_entries es)
parse_match_labels v = if is_nullish v then some [] else none

unfoldable pub parse_expression_values : Value → Option (List Text)
parse_expression_values (arr vs) = do
  guard (leb (length (items vs)) max_expression_values)
  traverse selector_value (items vs)
parse_expression_values v = if is_nullish v then some [] else none

-- `In` and `NotIn` want values, `Exists` and `DoesNotExist` want none.
abbrev pub arity_fits : Operator → List Text → Bool
arity_fits in_values [] = false
arity_fits in_values (v ∷ vs) = true
arity_fits not_in [] = false
arity_fits not_in (v ∷ vs) = true
arity_fits exists [] = true
arity_fits exists (v ∷ vs) = false
arity_fits does_not_exist [] = true
arity_fits does_not_exist (v ∷ vs) = false

-- `Object.keys(value).some((key) => …)`: some key is not among the known ones.
abbrev pub has_unknown_key : List Text → Fields → Bool
has_unknown_key known fs = any (λ k. not (has k known)) (keys (entries fs))

unfoldable pub parse_expression : Value → Option LabelSelectorExpression
unfolding parse_expression_values selector_key selector_operator
parse_expression (obj fs) = do
  guard (not (has_unknown_key (lit "key" ∷ lit "operator" ∷ lit "values" ∷ []) fs))
  key ← selector_key (at fs (lit "key"))
  operator ← selector_operator (at fs (lit "operator"))
  values ← parse_expression_values (at fs (lit "values"))
  guard (arity_fits operator values)
  some (record { key = key; operator = operator; values = values })
parse_expression _ = none

unfoldable pub parse_match_expressions : Value → Option (List LabelSelectorExpression)
parse_match_expressions (arr vs) = do
  guard (leb (length (items vs)) max_selector_expressions)
  traverse parse_expression (items vs)
parse_match_expressions v = if is_nullish v then some [] else none

unfoldable pub parse_label_selector : Value → Option ParsedLabelSelector
parse_label_selector (obj fs) = do
  guard (not (has_unknown_key (lit "matchLabels" ∷ lit "matchExpressions" ∷ []) fs))
  labels ← parse_match_labels (at fs (lit "matchLabels"))
  expressions ← parse_match_expressions (at fs (lit "matchExpressions"))
  some (record { match_labels = labels; match_expressions = expressions })
parse_label_selector _ = none

-- `values.includes(labels[key])`: a missing label is no value.
abbrev pub value_among : List Text → Option Text → Bool
value_among values none = false
value_among values (some v) = has v values

abbrev pub is_some {ℓ} : {A : Type ℓ} → Option A → Bool
is_some none = false
is_some (some a) = true

abbrev pub operator_matches : Operator → List Text → Option Text → Bool
operator_matches in_values values label = value_among values label
operator_matches not_in values label = not (value_among values label)
operator_matches exists values label = is_some label
operator_matches does_not_exist values label = not (is_some label)

unfoldable pub expression_matches : LabelSelectorExpression → Dict Text → Bool
expression_matches e labels = operator_matches e.operator e.values (lookup e.key labels)

-- `labels[key] === value`.
abbrev pub label_is : Option Text → Text → Bool
label_is none v = false
label_is (some w) v = text_eq w v

unfoldable pub selector_holds : ParsedLabelSelector → Dict Text → Bool
selector_holds p labels =
    all (λ e. label_is (lookup e.0 labels) e.1) p.match_labels
    && all (λ e. expression_matches e labels) p.match_expressions

unfoldable pub label_selector_matches : Value → Dict Text → Bool
label_selector_matches selector labels = elim (parse_label_selector selector) [
  | none ↦ false
  | some p ↦ selector_holds p labels
]

-- The set of the namespaces that a NetworkPolicy peer selects.
unfoldable pub matching_network_policy_namespaces :
    List LabelNamespaceRecord → Text → Value → List Text
matching_network_policy_namespaces namespaces policy_namespace selector =
    if is_nullish selector then set_of (policy_namespace ∷ []) else elim selector [
      | obj fs ↦ set_of (
          map (λ (n : LabelNamespaceRecord). n.name)
            (filter (λ n. label_selector_matches (obj fs) n.labels) namespaces))
      | _ ↦ []
    ]
