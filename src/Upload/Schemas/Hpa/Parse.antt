-- ===== src/Upload/Schemas/Hpa/Parse.antt =====
-- The parsers of hpaSchema.ts, its status and its summary.
use kuviewer.Base.{
  ℕ, ◌+◌, Bool, true, false, not, ◌&&◌, ◌||◌, Option, none, some, List, [], ◌∷◌, ◌++◌, map, Text,
  lit, text_eq, or_text, has, all, any, length, leb, ltb, ◌==◌, join, if◌then◌else◌, ◌>>=◌, ◌>>◌,
  guard, traverse,
}
use kuviewer.Base.Decimal.{decimal}
use kuviewer.Base.Dict.{Dict, lookup, insert}
use kuviewer.Base.Number.{whole}
use kuviewer.Base.Sort.{text_compare, sort_by}
use kuviewer.Json.{Value, str, arr, Fields, at, items, is_nullish, as_record}
use kuviewer.Platform.{Platform}
use kuviewer.Topology.Types.{SummaryValue, text, number}
use kuviewer.Upload.Object.{KubeObject}
use kuviewer.Upload.Schemas.Hpa.{
  ParsedMetric, ScaleTarget, ParsedSpec, StatusCondition, ParsedStatus, metric_types, max_metrics,
  max_conditions, metric_field, parse_target, parse_current, valid_metric_source_identity,
  parse_scale_target, safe_count, positive_count,
}

-- A string that is one of the given ones.
abbrev pub text_among : List Text → Value → Option Text
text_among known (str s) = if has s known then some s else none
text_among known _ = none

-- Of the sources that a metric may have, the one of its type is there and no other.
abbrev pub only_source : Text → Fields → Bool
only_source type fs =
    all
      (λ t.
        (if is_nullish (at fs (metric_field t))
          then not (text_eq (metric_field t) (metric_field type))
          else text_eq (metric_field t) (metric_field type)))
      metric_types

module _ (js : Platform) where
  unfoldable pub parse_metric : Bool → Value → Option ParsedMetric
  parse_metric current v = do
    fs ← as_record v
    type ← text_among metric_types (at fs (lit "type"))
    guard (only_source type fs)
    source ← as_record (at fs (metric_field type))
    guard (valid_metric_source_identity js type source)
    value_type ←
        (if current
          then parse_current (at source (lit "current")) type
          else parse_target (at source (lit "target")) type)
    some (record { source_type = type; value_type = value_type })

  unfoldable pub metric_array : Bool → Value → Option (List ParsedMetric)
  metric_array current (arr vs) = do
    guard (leb (length (items vs)) max_metrics)
    traverse (parse_metric current) (items vs)
  metric_array current v = if is_nullish v then some [] else none

abbrev pub condition_types : List Text
condition_types = lit "AbleToScale" ∷ lit "ScalingActive" ∷ lit "ScalingLimited" ∷ []

abbrev pub condition_statuses : List Text
condition_statuses = lit "True" ∷ lit "False" ∷ lit "Unknown" ∷ []

-- The loop of `conditionArray`, with the types that it has seen.
unfoldable pub conditions_from : List Text → List Value → Option (List StatusCondition)
conditions_from seen [] = some []
conditions_from seen (v ∷ vs) = do
  fs ← as_record v
  type ← text_among condition_types (at fs (lit "type"))
  status ← text_among condition_statuses (at fs (lit "status"))
  guard (not (has type seen))
  rest ← conditions_from (type ∷ seen) vs
  some (record { type = type; status = status } ∷ rest)

unfoldable pub condition_array : Value → Option (List StatusCondition)
condition_array (arr vs) = do
  guard (leb (length (items vs)) max_conditions)
  conditions_from [] (items vs)
condition_array v = if is_nullish v then some [] else none

-- `countSummary`: how often each text occurs.
abbrev pub count_text : Dict ℕ → Text → Dict ℕ
count_text counts t = insert t (elim (lookup t counts) [ none ↦ 1 | some n ↦ n + 1 ]) counts

unfoldable pub count_all : Dict ℕ → List Text → Dict ℕ
count_all counts [] = counts
count_all counts (t ∷ ts) = count_all (count_text counts t) ts

-- A count or the word for an object that cannot be parsed.
abbrev pub invalid : SummaryValue
invalid = text (lit "invalid")

abbrev pub from_parsed {ℓ} : {A : Type ℓ} → Option A → (A → SummaryValue) → SummaryValue
from_parsed none show = invalid
from_parsed (some a) show = show a

module _ (js : Platform) where
  unfoldable pub count_summary : List Text → Text
  count_summary values = join (lit ",") (
      map (λ (e : Text × ℕ). e.0 ++ (b':' ∷ decimal e.1))
        (sort_by (λ (a b : Text × ℕ). js.locale_compare a.0 b.0) (count_all [] values)))

  abbrev pub minimum_of : Value → Option ℕ
  minimum_of v = if is_nullish v then some 1 else safe_count v

  abbrev pub scales_from_zero : List ParsedMetric → Bool
  scales_from_zero metrics =
      any
        (λ (m : ParsedMetric).
          text_eq m.source_type (lit "Object") || text_eq m.source_type (lit "External"))
        metrics

  unfoldable pub parse_spec : KubeObject → Option ParsedSpec
  parse_spec o = do
    spec ← as_record (at o (lit "spec"))
    reference ← as_record (at spec (lit "scaleTargetRef"))
    target ← parse_scale_target js reference
    minimum ← minimum_of (at spec (lit "minReplicas"))
    maximum ← positive_count (at spec (lit "maxReplicas"))
    metrics ← metric_array js false (at spec (lit "metrics"))
    guard (leb minimum maximum && (ltb 0 minimum || scales_from_zero metrics))
    some (record { target = target; minimum = minimum; maximum = maximum; metrics = metrics })

  unfoldable pub parse_status : KubeObject → Option ParsedStatus
  parse_status o = do
    status ← as_record (at o (lit "status"))
    current ← safe_count (at status (lit "currentReplicas"))
    desired ← safe_count (at status (lit "desiredReplicas"))
    metrics ← metric_array js true (at status (lit "currentMetrics"))
    conditions ← condition_array (at status (lit "conditions"))
    some (record {
      current = current;
      desired = desired;
      metrics = metrics;
      conditions = conditions;
    })

  -- A condition that keeps the autoscaler from working.
  abbrev pub is_failing : StatusCondition → Bool
  is_failing d =
      (text_eq d.type (lit "AbleToScale") || text_eq d.type (lit "ScalingActive"))
      && not (text_eq d.status (lit "True"))

  abbrev pub status_of : Option ParsedSpec → Option ParsedStatus → Text
  status_of (some spec) (some status) =
      if any is_failing status.conditions
      then lit "warning"
      else if status.desired == 0 || leb status.desired status.current
      then lit "healthy"
      else lit "warning"
  status_of _ _ = lit "warning"

  unfoldable pub upload_hpa_status : KubeObject → Text
  upload_hpa_status o = status_of (parse_spec o) (parse_status o)

  abbrev pub count_of_metrics : List ParsedMetric → SummaryValue
  count_of_metrics metrics = number (whole (length metrics))

  abbrev pub source_types : List ParsedMetric → SummaryValue
  source_types metrics = text (count_summary (map (λ (m : ParsedMetric). m.source_type) metrics))

  abbrev pub value_types : List ParsedMetric → SummaryValue
  value_types metrics = text (count_summary (map (λ (m : ParsedMetric). m.value_type) metrics))

  abbrev pub condition_texts : List StatusCondition → Text
  condition_texts ds =
      or_text
        (join (lit ",")
          (sort_by text_compare (map (λ (d : StatusCondition). d.type ++ (b'=' ∷ d.status)) ds)))
        (lit "-")

  unfoldable pub upload_hpa_summary : KubeObject → Dict SummaryValue
  upload_hpa_summary o =
      let spec = parse_spec o in
      let status = parse_status o in
      (lit "target", from_parsed spec (λ s. text (s.target.kind ++ (b'/' ∷ s.target.name))))
      ∷ (
        lit "range",
        from_parsed spec (λ s. text (decimal s.minimum ++ (b'-' ∷ decimal s.maximum))),
      )
      ∷ (lit "metrics", from_parsed spec (λ s. count_of_metrics s.metrics))
      ∷ (lit "metricTypes", from_parsed spec (λ s. source_types s.metrics))
      ∷ (lit "metricTargets", from_parsed spec (λ s. value_types s.metrics))
      ∷ (
        lit "replicas",
        from_parsed status (λ s. text (decimal s.current ++ (b'/' ∷ decimal s.desired))),
      )
      ∷ (lit "currentMetrics", from_parsed status (λ s. count_of_metrics s.metrics))
      ∷ (lit "currentTypes", from_parsed status (λ s. source_types s.metrics))
      ∷ (lit "currentValues", from_parsed status (λ s. value_types s.metrics))
      ∷ (lit "conditions", from_parsed status (λ s. text (condition_texts s.conditions)))
      ∷ []

  unfoldable pub upload_hpa_spec_is_valid : KubeObject → Bool
  upload_hpa_spec_is_valid o = elim (parse_spec o) [ none ↦ false | some s ↦ true ]

  unfoldable pub upload_hpa_scale_target : KubeObject → Option ScaleTarget
  upload_hpa_scale_target o = elim (parse_spec o) [ none ↦ none | some s ↦ some s.target ]
