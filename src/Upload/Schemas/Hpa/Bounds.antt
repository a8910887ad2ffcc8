-- ===== src/Upload/Schemas/Hpa/Bounds.antt =====
-- The bounds of what is read of an autoscaler.
use kuviewer.Base.{
  ℕ, ◌≤◌, ◌<◌, ◌≡◌, Bool, true, false, not, ◌&&◌, ◌||◌, some, List, [], ◌∷◌, map, Text, lit, has,
  length, leb, ltb, arith, Bool-cases, inl, inr, ◌⊎◌, >>=-eq-some, guard-eq-some, along_some,
  length-traverse, leb→le, and-split,
}
use kuviewer.Json.{
  Value, undefined, null, bool, num, str, arr, obj, at, items, is_nullish, as_record,
}
use kuviewer.Platform.{Platform}
use kuviewer.Upload.Object.{KubeObject}
use kuviewer.Upload.Schemas.Hpa.{
  ParsedMetric, ParsedSpec, StatusCondition, safe_count, positive_count, positive_bounded,
  max_metrics, parse_scale_target,
}
use kuviewer.Upload.Schemas.Hpa.Parse.{
  parse_spec, metric_array, parse_metric, minimum_of, scales_from_zero, conditions_from, text_among,
  condition_types, condition_statuses,
}
use kuviewer.Upload.Values.{bounded_count, bounded_count-le, max_count}

metric_array-length :
    (js : Platform) (current : Bool) (v : Value) (ms : List ParsedMetric)
    → metric_array js current v ≡ some ms
    → length ms ≤ 64
unfolding metric_array
metric_array-length js current (arr vs) ms h =
    let (few, rest) = guard-eq-some (leb (length (items vs)) max_metrics) _ h in
    let same = length-traverse {0, 0} (parse_metric js current) (items vs) rest in
    ground (arith, same, leb→le (length (items vs)) max_metrics few)
metric_array-length js current undefined ms h = ground arith
metric_array-length js current null ms h = ground arith
metric_array-length js current (bool b) ms h = absurd (ground arith)
metric_array-length js current (num n) ms h = absurd (ground arith)
metric_array-length js current (str s) ms h = absurd (ground arith)
metric_array-length js current (obj fs) ms h = absurd (ground arith)

minimum_of-le : (js : Platform) (v : Value) (n : ℕ) → minimum_of js v ≡ some n → n ≤ max_count
unfolding safe_count
minimum_of-le js v n h = elim (Bool-cases (is_nullish v)) [
  | inl absent ↦ ground (arith, rw (absent, minimum_of) at h)
  | inr there ↦ bounded_count-le max_count v n (rw (there, minimum_of) at h)
]

positive_count-bounds : (v : Value) (n : ℕ) → positive_count v ≡ some n → (0 < n) × (n ≤ max_count)
unfolding positive_count positive_bounded
positive_count-bounds v n h =
    let (m, count, positive) = >>=-eq-some (bounded_count max_count v) _ h in
    elim (Bool-cases (ltb 0 m)) [
      | inl up ↦
          along_some (λ (k : ℕ). (0 < k) × (k ≤ max_count)) (rw up at positive)
            (ground arith, bounded_count-le max_count v m count)
      | inr zero ↦ absurd (ground (arith, rw zero at positive))
    ]

pub record IsSpec (js : Platform) (s : ParsedSpec) : Type 0 where
  pub ordered : s.minimum ≤ s.maximum
  pub positive : 0 < s.maximum
  pub bounded : s.maximum ≤ max_count
  pub from_zero : (0 < s.minimum) ⊎ (scales_from_zero js s.metrics ≡ true)
  pub few : length s.metrics ≤ 64

-- What is read of an autoscaler has a range: the minimum is at most the maximum, which is from 1 to
-- a billion, a minimum of zero wants a metric of an object or an external one, and there are at most
-- 64 metrics. Anything else is not read at all.
pub parse_spec-IsSpec :
    (js : Platform) (o : KubeObject) (s : ParsedSpec) → parse_spec js o ≡ some s → IsSpec js s
unfolding parse_spec
parse_spec-IsSpec js o s h =
    let (spec, _, h1) = >>=-eq-some (as_record (at o (lit "spec"))) _ h in
    let (reference, _, h2) = >>=-eq-some (as_record (at spec (lit "scaleTargetRef"))) _ h1 in
    let (target, _, h3) = >>=-eq-some (parse_scale_target js reference) _ h2 in
    let (minimum, _, h4) = >>=-eq-some (minimum_of js (at spec (lit "minReplicas"))) _ h3 in
    let (maximum, positive, h5) = >>=-eq-some (positive_count (at spec (lit "maxReplicas"))) _ h4 in
    let (metrics, some_metrics, h6) =
      >>=-eq-some (metric_array js false (at spec (lit "metrics"))) _ h5 in
    let (fits, h7) =
      guard-eq-some (leb minimum maximum && (ltb 0 minimum || scales_from_zero js metrics)) _ h6 in
    let (ordered, scales) = and-split (leb minimum maximum) _ fits in
    let (up, bounded) = positive_count-bounds _ maximum positive in
    along_some (IsSpec js) h7 (record {
      ordered = leb→le minimum maximum ordered;
      positive = up;
      bounded = bounded;
      from_zero = elim (Bool-cases (ltb 0 minimum)) [
        | inl some_minimum ↦ inl (ground arith)
        | inr zero ↦ inr (ground arith)
      ];
      few = metric_array-length js false _ metrics some_metrics;
    })

-- The texts of a list that are not among the seen ones, none twice.
abbrev pub types_of : List StatusCondition → List Text
types_of ds = map (λ (d : StatusCondition). d.type) ds

-- Each condition's type is new and its type and status are among the known ones.
abbrev pub AreConditions : List Text → List StatusCondition → Type 0
AreConditions seen [] = Unit
AreConditions seen (d ∷ ds) =
    (has d.type seen ≡ false)
    × ((has d.type condition_types ≡ true)
        × ((has d.status condition_statuses ≡ true) × AreConditions (d.type ∷ seen) ds))

text_among-has :
    (known : List Text) (v : Value) (t : Text) → text_among known v ≡ some t → has t known ≡ true
text_among-has known (str s) t h = elim (Bool-cases (has s known)) [
  | inl found ↦ along_some (λ (u : Text). has u known ≡ true) (rw (found, text_among) at h) found
  | inr other ↦ absurd (ground (arith, rw (other, text_among) at h))
]
text_among-has known undefined t h = absurd (ground arith)
text_among-has known null t h = absurd (ground arith)
text_among-has known (bool b) t h = absurd (ground arith)
text_among-has known (num n) t h = absurd (ground arith)
text_among-has known (arr vs) t h = absurd (ground arith)
text_among-has known (obj fs) t h = absurd (ground arith)

conditions_from-AreConditions :
    (seen : List Text) (vs : List Value) (ds : List StatusCondition)
    → conditions_from seen vs ≡ some ds
    → AreConditions seen ds
unfolding conditions_from
conditions_from-AreConditions seen [] ds h = along_some (AreConditions seen) h tt
conditions_from-AreConditions seen (v ∷ vs) ds h =
    let (fs, _, h1) = >>=-eq-some (as_record v) _ h in
    let (type, known, h2) = >>=-eq-some (text_among condition_types (at fs (lit "type"))) _ h1 in
    let (status, said, h3) =
      >>=-eq-some (text_among condition_statuses (at fs (lit "status"))) _ h2 in
    let (new, h4) = guard-eq-some (not (has type seen)) _ h3 in
    let (rest, others, h5) = >>=-eq-some (conditions_from (type ∷ seen) vs) _ h4 in
    along_some (AreConditions seen) h5 (
      ground arith,
      (
        text_among-has condition_types _ type known,
        (
          text_among-has condition_statuses _ status said,
          conditions_from-AreConditions (type ∷ seen) vs rest others,
        ),
      ),
    )
