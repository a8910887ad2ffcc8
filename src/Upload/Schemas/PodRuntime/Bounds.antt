-- ===== src/Upload/Schemas/PodRuntime/Bounds.antt =====
-- What a valid pod runtime is, and the count of its restarts.
use kuviewer.Base.{
  ℕ, ◌+◌, ◌≤◌, ◌≡◌, refl, true, false, not, some, List, [], ◌∷◌, ◌++◌, Text, lit, text_eq_iff, has,
  length, leb, min, arith, >>=-eq-some, guard-eq-some, along_some, ap,
}
use kuviewer.Base.Sets.{Distinct, has-append}
use kuviewer.Json.{Value, Fields}
use kuviewer.Upload.Object.{KubeObject, field_at}
use kuviewer.Upload.Schemas.Images.{record_array}
use kuviewer.Upload.Schemas.PodRuntime.{
  RuntimeStatus, PodRuntime, parse_runtime_status, runtime_statuses_from, parse_runtime_statuses,
  status_names, analyze_pod_runtime, bounded_restart_total, text_or_blank, valid_pod_phase,
  max_runtime_statuses,
}
use kuviewer.Upload.Values.{max_count}

-- The sum without a bound.
abbrev pub restart_sum : List RuntimeStatus → ℕ
restart_sum [] = 0
restart_sum (s ∷ ss) = s.restarts + restart_sum ss

restart_total-from :
    (total : ℕ) (ss : List RuntimeStatus)
    → total ≤ max_count
    → bounded_restart_total total ss ≡ min max_count (total + restart_sum ss)
unfolding bounded_restart_total
restart_total-from total [] h = omega arith
restart_total-from total (s ∷ ss) h =
    omega (arith, restart_total-from (min max_count (total + s.restarts)) ss (omega arith))

-- Stopping at the bound after each container gives the sum of the restarts, or a billion where the
-- sum is larger.
pub bounded_restart_total-sum :
    (ss : List RuntimeStatus) → bounded_restart_total 0 ss ≡ min max_count (restart_sum ss)
bounded_restart_total-sum ss = omega (arith, restart_total-from 0 ss (omega arith))

-- None of the names is taken.
abbrev pub AreFree : List Text → List Text → Type 0
AreFree seen ks = (k : Text) → has k ks ≡ true → has k seen ≡ false

statuses_from-Distinct :
    (seen : List Text) (rs : List Fields) (ss : List RuntimeStatus)
    → runtime_statuses_from seen rs ≡ some ss
    → Distinct (status_names ss) × AreFree seen (status_names ss)
unfolding runtime_statuses_from has
statuses_from-Distinct seen [] ss h =
    along_some
      (λ (ss : List RuntimeStatus). Distinct (status_names ss) × AreFree seen (status_names ss)) h
      (tt, λ k m. ground arith)
statuses_from-Distinct seen (fs ∷ rs) ss h =
    let (s, _, h1) = >>=-eq-some (parse_runtime_status fs) _ h in
    let (new, h2) = guard-eq-some (not (has s.name seen)) _ h1 in
    let (rest, others, h3) = >>=-eq-some (runtime_statuses_from (s.name ∷ seen) rs) _ h2 in
    let (distinct, free) = statuses_from-Distinct (s.name ∷ seen) rs rest others in
    along_some
      (λ (ss : List RuntimeStatus). Distinct (status_names ss) × AreFree seen (status_names ss)) h3
      (
        (ground (arith, free s.name, text_eq_iff s.name s.name), distinct),
        λ k m. ground (arith, free k, text_eq_iff s.name k),
      )

statuses-Distinct :
    (seen : List Text) (v : Value) (ss : List RuntimeStatus)
    → parse_runtime_statuses seen v ≡ some ss
    → Distinct (status_names ss) × AreFree seen (status_names ss)
unfolding parse_runtime_statuses
statuses-Distinct seen v ss h =
    let (rs, _, h1) = >>=-eq-some (record_array v max_runtime_statuses) _ h in
    statuses_from-Distinct seen rs ss h1

Distinct-append :
    (xs ys : List Text) → Distinct xs → Distinct ys → AreFree xs ys → Distinct (xs ++ ys)
unfolding has
Distinct-append [] ys d e f = e
Distinct-append (x ∷ xs) ys d e f = (
  ground (arith, has-append x xs ys, f x, text_eq_iff x x),
  Distinct-append xs ys d.1 e (λ k m. ground (arith, f k m, text_eq_iff x k)),
)

map-names-append :
    (ss ts : List RuntimeStatus) → status_names (ss ++ ts) ≡ status_names ss ++ status_names ts
map-names-append [] ts = refl
map-names-append (s ∷ ss) ts = ap (◌∷◌ s.name) (map-names-append ss ts)

-- No container of a valid pod is counted twice: the names of the containers, the init containers
-- and the ephemeral ones are distinct.
pub analyze_pod_runtime-Distinct :
    (o : KubeObject) (p : PodRuntime)
    → analyze_pod_runtime o ≡ some p
    → Distinct (status_names p.all_statuses)
unfolding analyze_pod_runtime
analyze_pod_runtime-Distinct o p h =
    let (phase, _, h1) =
      >>=-eq-some (text_or_blank (field_at o (lit "status" ∷ lit "phase" ∷ []))) _ h in
    let (ss, e1, h2) =
      >>=-eq-some
        (parse_runtime_statuses [] (field_at o (lit "status" ∷ lit "containerStatuses" ∷ []))) _
        h1 in
    let (is, e2, h3) =
      >>=-eq-some
        (parse_runtime_statuses (status_names ss)
          (field_at o (lit "status" ∷ lit "initContainerStatuses" ∷ [])))
        _ h2 in
    let (es, e3, h4) =
      >>=-eq-some
        (parse_runtime_statuses (status_names is ++ status_names ss)
          (field_at o (lit "status" ∷ lit "ephemeralContainerStatuses" ∷ [])))
        _ h3 in
    let (_, h5) = guard-eq-some (valid_pod_phase phase) _ h4 in
    let (_, h6) =
      guard-eq-some (leb (length ss + (length is + length es)) max_runtime_statuses) _ h5 in
    let (ds, _) = statuses-Distinct [] _ ss e1 in
    let (di, fi) = statuses-Distinct (status_names ss) _ is e2 in
    let (de, fe) = statuses-Distinct (status_names is ++ status_names ss) _ es e3 in
    along_some (λ (p : PodRuntime). Distinct (status_names p.all_statuses)) h6
      (rw (map-names-append ss (is ++ es), map-names-append is es)
        (Distinct-append (status_names ss) _ ds
          (Distinct-append (status_names is) (status_names es) di de
            (λ k m. ground (arith, fe k m, has-append k (status_names is) (status_names ss))))
          (λ k m. ground (
            arith,
            fi k,
            fe k,
            has-append k (status_names is) (status_names es),
            has-append k (status_names is) (status_names ss),
          ))))
