-- ===== src/Upload/Schemas/Hpa.antt =====
-- website/src/features/upload/hpaSchema.ts: horizontal pod autoscalers. A summary's field of an
-- object that cannot be parsed is the text `invalid`.
pub mod Parse
pub mod Bounds
use kuviewer.Base.{
  ℕ, ◌+◌, Bool, true, false, not, ◌&&◌, ◌||◌, Option, none, some, List, [], ◌∷◌, ◌++◌, map, Text,
  lit, text_eq, truthy, or_text, has, all, any, length, leb, ltb, ◌==◌, split, join, if◌then◌else◌,
  ◌>>=◌, ◌>>◌, guard, traverse,
}
use kuviewer.Base.Decimal.{decimal}
use kuviewer.Base.Dict.{Dict, lookup, insert}
use kuviewer.Base.Number.{whole}
use kuviewer.Base.Sort.{text_compare, sort_by}
use kuviewer.Json.{
  Value, str, arr, obj, Fields, at, items, is_nullish, is_record, as_record, is_text,
}
use kuviewer.Platform.{Platform}
use kuviewer.Topology.Types.{SummaryValue, text, number}
use kuviewer.Upload.LabelSelector.{is_some}
use kuviewer.Upload.LabelSelector.Summary.{label_selector_summary}
use kuviewer.Upload.Names.{is_upper, is_lower, is_digit, is_alnum, is_lower_alnum, headed}
use kuviewer.Upload.Object.{KubeObject}
use kuviewer.Upload.Values.{
  bounded_count, max_count, valid_dns_label, valid_dns_subdomain, drop_sign, drop_digits,
  digit_first, exponent_form,
}

abbrev pub max_metrics : ℕ
max_metrics = 64

abbrev pub max_conditions : ℕ
max_conditions = 16

abbrev pub max_utilization : ℕ
max_utilization = 1000000

pub record ParsedMetric : Type 0 where
  pub source_type : Text
  pub value_type : Text

pub record ScaleTarget : Type 0 where
  pub api_version : Text
  pub kind : Text
  pub name : Text

pub record ParsedSpec : Type 0 where
  pub target : ScaleTarget
  pub minimum : ℕ
  pub maximum : ℕ
  pub metrics : List ParsedMetric

pub record StatusCondition : Type 0 where
  pub type : Text
  pub status : Text

pub record ParsedStatus : Type 0 where
  pub current : ℕ
  pub desired : ℕ
  pub metrics : List ParsedMetric
  pub conditions : List StatusCondition

unfoldable pub metric_types : List Text
metric_types =
    lit "ContainerResource" ∷ lit "External" ∷ lit "Object" ∷ lit "Pods" ∷ lit "Resource" ∷ []

-- `[.][0-9]*` or nothing after digits, then `[eE][+-]?[0-9]+`, `[numkKMGTPE]i?` or nothing.
abbrev pub unit_form : Text → Bool
unit_form [] = true
unit_form (c ∷ s) =
    ((c == b'e' || c == b'E') && exponent_form s)
    || (has (c ∷ []) (map (λ u. u ∷ []) (lit "numkKMGTPE"))
        && (not (truthy s) || text_eq s (lit "i")))

abbrev pub after_whole : Text → Bool
after_whole [] = true
after_whole (c ∷ s) = if c == b'.' then unit_form (drop_digits s) else unit_form (c ∷ s)

abbrev pub unsigned_quantity : Text → Bool
unsigned_quantity [] = false
unsigned_quantity (c ∷ s) =
    if c == b'.'
    then digit_first s && unit_form (drop_digits s)
    else is_digit c && after_whole (drop_digits s)

-- `/^[+-]?(?:\d+(?:\.\d*)?|\.\d+)(?:[eE][+-]?\d+|[numkKMGTPE](?:i)?)?$/`.
unfoldable pub quantity_form : Text → Bool
quantity_form s = unsigned_quantity (drop_sign s)

-- Whether a quantity is good; none where there is none.
unfoldable pub quantity_state : Value → Option Bool
quantity_state (str s) = some (truthy s && leb (length s) 64 && quantity_form s)
quantity_state v = if is_nullish v then none else some false

unfoldable pub safe_count : Value → Option ℕ
safe_count v = bounded_count max_count v

-- `positiveBounded`, with the number.
unfoldable pub positive_bounded : ℕ → Value → Option ℕ
positive_bounded maximum v = bounded_count maximum v >>= λ n. if ltb 0 n then some n else none

unfoldable pub positive_count : Value → Option ℕ
positive_count v = positive_bounded max_count v

unfoldable pub valid_metric_name : Value → Bool
valid_metric_name (str s) =
    leb (length s) 253
    && headed is_alnum (λ c. is_alnum c || c == b'.' || c == b'_' || c == b'/' || c == b'-') s
valid_metric_name _ = false

unfoldable pub valid_metric_identifier : Value → Bool
valid_metric_identifier (obj fs) =
    let selector = at fs (lit "selector") in
    valid_metric_name (at fs (lit "name"))
    && (is_nullish selector
        || not
            (text_eq (label_selector_summary selector (lit "all pods")) (lit "invalid selector")))
valid_metric_identifier _ = false

-- `/^v[a-z0-9]{1,62}$/`.
abbrev pub version_form : Text → Bool
version_form [] = false
version_form (c ∷ s) = c == b'v' && truthy s && leb (length s) 62 && all is_lower_alnum s

unfoldable pub valid_kind : Text → Bool
valid_kind s = leb (length s) 63 && headed (λ c. is_upper c || is_lower c) is_alnum s

unfoldable pub metric_field : Text → Text
metric_field [] = []
metric_field (c ∷ s) = (if is_upper c then c + 32 else c) ∷ s

module _ (js : Platform) where
  -- `validDNSSubdomain`, which here also compares with the small letters.
  abbrev pub valid_subdomain : Text → Bool
  valid_subdomain s = valid_dns_subdomain s && text_eq s (js.lower s)

  abbrev pub valid_group_version : List Text → Bool
  valid_group_version (group ∷ version ∷ []) = valid_subdomain group && version_form version
  valid_group_version _ = false

  unfoldable pub valid_api_version : Text → Bool
  valid_api_version s = text_eq s (lit "v1") || valid_group_version (split b'/' s)

  abbrev pub scale_target : Value → Value → Value → Option ScaleTarget
  scale_target (str version) (str kind) (str name) =
      if valid_api_version version && valid_kind kind && valid_subdomain name
      then some (record { api_version = version; kind = kind; name = name })
      else none
  scale_target _ _ _ = none

  unfoldable pub parse_scale_target : Fields → Option ScaleTarget
  parse_scale_target fs =
      scale_target (at fs (lit "apiVersion")) (at fs (lit "kind")) (at fs (lit "name"))

  unfoldable pub valid_metric_source_identity : Text → Fields → Bool
  valid_metric_source_identity type fs =
      let name = at fs (lit "name") in
      let container = at fs (lit "container") in
      let metric = at fs (lit "metric") in
      if text_eq type (lit "Resource")
      then valid_metric_name name && is_nullish container && is_nullish metric
      else if text_eq type (lit "ContainerResource")
      then valid_metric_name name
        && (elim container [ str s ↦ valid_dns_label s | _ ↦ false ])
        && is_nullish metric
      else if text_eq type (lit "Pods") || text_eq type (lit "External")
      then is_nullish name && is_nullish container && valid_metric_identifier metric
      else is_nullish name
        && is_nullish container
        && valid_metric_identifier metric
        && (elim (at fs (lit "describedObject")) [
          | obj gs ↦ is_some (parse_scale_target gs)
          | _ ↦ false
        ])

-- `averageUtilization`, by the check of its bounds: none where there is none.
unfoldable pub utilization_state : (Value → Option ℕ) → Value → Option Bool
utilization_state check v = if is_nullish v then none else some (is_some (check v))

abbrev pub is_good : Option Bool → Bool
is_good (some good) = good
is_good none = false

abbrev pub is_bad : Option Bool → Bool
is_bad (some good) = not good
is_bad none = false

abbrev pub is_absent : Option Bool → Bool
is_absent none = true
is_absent (some good) = false

abbrev pub is_resource_type : Text → Bool
is_resource_type type = text_eq type (lit "Resource") || text_eq type (lit "ContainerResource")

abbrev pub is_object_type : Text → Bool
is_object_type type = text_eq type (lit "Object") || text_eq type (lit "External")

-- The type of a target that is none of those known is refused.
abbrev pub target_type : Value → Text → Option Bool → Option Bool → Option Bool → Option Text
target_type type source_type raw average utilization =
    if is_text type (lit "Utilization")
    then (if is_good utilization
          && is_absent raw
          && is_absent average
          && is_resource_type source_type
        then some (lit "Utilization")
        else none)
    else if is_text type (lit "Value")
    then (if is_good raw && is_absent average && is_absent utilization && is_object_type source_type
        then some (lit "Value")
        else none)
    else if is_text type (lit "AverageValue")
    then (if is_good average && is_absent raw && is_absent utilization
        then some (lit "AverageValue")
        else none)
    else none

unfoldable pub parse_target : Value → Text → Option Text
parse_target (obj fs) source_type =
    let raw = quantity_state (at fs (lit "value")) in
    let average = quantity_state (at fs (lit "averageValue")) in
    let utilization =
      utilization_state (positive_bounded max_utilization) (at fs (lit "averageUtilization")) in
    if is_bad raw || is_bad average || is_bad utilization
    then none
    else target_type (at fs (lit "type")) source_type raw average utilization
parse_target _ source_type = none

abbrev pub marked : Option Bool → Text → List Text
marked state name = if is_good state then name ∷ [] else []

-- Exactly one value is set, of a kind that the source may have.
abbrev pub current_type : Text → List Text → Option Text
current_type source_type (kind ∷ []) =
    let is_value = text_eq kind (lit "value") in
    let is_average = text_eq kind (lit "averageValue") in
    if (is_resource_type source_type && not is_value)
      || (text_eq source_type (lit "Pods") && is_average)
      || (is_object_type source_type && (is_value || is_average))
    then some kind
    else none
current_type source_type _ = none

unfoldable pub parse_current : Value → Text → Option Text
parse_current (obj fs) source_type =
    let raw = quantity_state (at fs (lit "value")) in
    let average = quantity_state (at fs (lit "averageValue")) in
    let utilization =
      utilization_state (bounded_count max_utilization) (at fs (lit "averageUtilization")) in
    if is_bad raw || is_bad average || is_bad utilization
    then none
    else current_type source_type (
        marked raw (lit "value")
        ++ (marked average (lit "averageValue") ++ marked utilization (lit "utilization")))
parse_current _ source_type = none
