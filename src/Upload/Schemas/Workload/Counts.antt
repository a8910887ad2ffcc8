-- ===== src/Upload/Schemas/Workload/Counts.antt =====
-- The counts of workloads, their summary and their status.
use kuviewer.Base.{
  ℕ, Bool, true, false, not, ◌&&◌, ◌||◌, Option, none, some, List, [], ◌∷◌, ◌++◌, map, Text, lit,
  text_eq, truthy, has, all, any, length, leb, ltb, ◌==◌, take, trim, starts_with, drop, drop_space,
  if◌then◌else◌, ◌>>=◌, ◌>>◌, guard,
}
use kuviewer.Base.Decimal.{decimal}
use kuviewer.Base.Dict.{Dict}
use kuviewer.Base.Number.{whole}
use kuviewer.Json.{Value, bool, str, Fields, at, is_nullish}
use kuviewer.Topology.Types.{SummaryValue, text, number, boolean, texts}
use kuviewer.Upload.Collect.{fold_ascii}
use kuviewer.Upload.Graph.Schemas.{WorkloadReference}
use kuviewer.Upload.LabelSelector.{is_some}
use kuviewer.Upload.Names.{is_upper, is_lower, is_alnum, headed}
use kuviewer.Upload.Object.{KubeObject, field_at}
use kuviewer.Upload.Schemas.Images.{record_array}
use kuviewer.Upload.Schemas.Workload.{
  ParsedTemplate, parse_template, max_container_entries, valid_workload_name,
}
use kuviewer.Upload.Values.{bounded_count, max_count, valid_dns_label}

abbrev pub max_summary_images : ℕ
max_summary_images = 8

abbrev pub max_schedule_bytes : ℕ
max_schedule_bytes = 128

unfoldable pub count_at : KubeObject → List Text → ℕ → Option ℕ
count_at o path fallback =
    let v = field_at o path in if is_nullish v then some fallback else bounded_count max_count v

-- A count of the specification, or of the status.
abbrev pub spec_count : KubeObject → Text → ℕ → Option ℕ
spec_count o key fallback = count_at o (lit "spec" ∷ key ∷ []) fallback

abbrev pub status_count : KubeObject → Text → Option ℕ
status_count o key = count_at o (lit "status" ∷ key ∷ []) 0

-- The pods that are wanted and those that are ready, of which there are no more.
unfoldable pub parse_daemon_counts : KubeObject → Option (ℕ × ℕ)
parse_daemon_counts o = do
  desired ← status_count o (lit "desiredNumberScheduled")
  ready ← status_count o (lit "numberReady")
  guard (leb ready desired)
  some (desired, ready)

unfoldable pub optional_string_at : KubeObject → List Text → Option Text
optional_string_at o path = elim (field_at o path) [ str s ↦ some s | _ ↦ none ]

-- The inner none is undefined, the outer one null.
unfoldable pub optional_boolean_at : KubeObject → List Text → Option (Option Bool)
optional_boolean_at o path = elim (field_at o path) [
  | bool b ↦ some (some b)
  | v ↦ if is_nullish v then some none else none
]

abbrev pub fits_text : (Text → Bool) → Value → Bool
fits_text test (str s) = test s
fits_text test _ = false

-- `/^[A-Za-z][A-Za-z0-9]{0,62}$/` of the kind, where there is one.
unfoldable pub valid_object_reference : Fields → Bool
valid_object_reference fs =
    let kind = at fs (lit "kind") in
    let namespace = at fs (lit "namespace") in
    (is_nullish kind
      || fits_text (λ s. leb (length s) 63 && headed (λ c. is_upper c || is_lower c) is_alnum s)
          kind)
    && (is_nullish namespace || fits_text valid_dns_label namespace)
    && fits_text valid_workload_name (at fs (lit "name"))

-- The active jobs of a cron job.
unfoldable pub active_jobs : KubeObject → Option ℕ
active_jobs o =
    record_array (field_at o (lit "status" ∷ lit "active" ∷ [])) max_container_entries >>= λ rs.
    if all valid_object_reference rs then some (length rs) else none

-- The text begins with a colon or an equals sign after white space.
abbrev pub assigned : Text → Bool
assigned [] = false
assigned (c ∷ s) = c == b':' || c == b'='

-- The word stands somewhere before white space and a colon or an equals sign.
unfoldable pub assigns : Text → Text → Bool
assigns word [] = false
assigns word (c ∷ s) =
    (starts_with word (c ∷ s) && assigned (drop_space (drop (length word) (c ∷ s))))
    || assigns word s

-- `/(?:token|password|secret|credential)\s*[:=]/i`.
unfoldable pub has_credential : Text → Bool
has_credential s =
    any (λ word. assigns word (map fold_ascii s))
      (lit "token" ∷ lit "password" ∷ lit "secret" ∷ lit "credential" ∷ [])

unfoldable pub valid_schedule : Text → Bool
valid_schedule s =
    truthy s
    && leb (length s) max_schedule_bytes
    && text_eq (trim s) s
    && not (any (λ c. leb c 31 || c == 127) s)
    && not (has_credential s)

unfoldable pub valid_schedule_at : KubeObject → Option Text
valid_schedule_at o = optional_string_at o (lit "spec" ∷ lit "schedule" ∷ []) >>= λ s.
    if valid_schedule s then some s else none

-- `upload_workload_template_is_valid` and `upload_workload_references`.
unfoldable pub upload_workload_template_is_valid : Text → KubeObject → Bool
upload_workload_template_is_valid kind o = elim (parse_template kind o) [
  | none ↦ false
  | some t ↦ true
]

unfoldable pub upload_workload_references : Text → KubeObject → List WorkloadReference
upload_workload_references kind o = elim (parse_template kind o) [
  | none ↦ []
  | some t ↦ t.references
]

abbrev pub is_replicated : Text → Bool
is_replicated kind = has kind (lit "Deployment" ∷ lit "ReplicaSet" ∷ lit "StatefulSet" ∷ [])

-- A count, or the word for one that is not valid.
abbrev pub count_or_invalid : Option ℕ → SummaryValue
count_or_invalid none = text (lit "invalid")
count_or_invalid (some n) = number (whole n)

-- A pair of counts with a slash between them.
abbrev pub ratio : Option ℕ → Option ℕ → SummaryValue
ratio (some m) (some n) = text (decimal m ++ (b'/' ∷ decimal n))
ratio _ _ = text (lit "invalid")

abbrev pub template_summary : Option ParsedTemplate → Dict SummaryValue
template_summary (some t) =
    (lit "containers", number (whole t.containers))
    ∷ (lit "initContainers", number (whole t.init_containers))
    ∷ (lit "imageCount", number (whole (length t.images)))
    ∷ (lit "images", texts (take max_summary_images t.images))
    ∷ []
template_summary none =
    (lit "containers", text (lit "invalid"))
    ∷ (lit "initContainers", text (lit "invalid"))
    ∷ (lit "imageCount", text (lit "invalid"))
    ∷ (lit "images", texts [])
    ∷ []

abbrev pub replicated_summary : Text → KubeObject → Dict SummaryValue
replicated_summary kind o =
    (lit "replicas", ratio (status_count o (lit "readyReplicas")) (spec_count o (lit "replicas") 1))
    ∷ (if text_eq kind (lit "Deployment")
        then (lit "availableReplicas", count_or_invalid (status_count o (lit "availableReplicas")))
          ∷ []
        else [])

abbrev pub daemon_summary : Option (ℕ × ℕ) → SummaryValue
daemon_summary none = text (lit "invalid")
daemon_summary (some (desired, ready)) = ratio (some ready) (some desired)

abbrev pub job_summary : KubeObject → Dict SummaryValue
job_summary o =
    (lit "completions", count_or_invalid (spec_count o (lit "completions") 1))
    ∷ (lit "succeeded", count_or_invalid (status_count o (lit "succeeded")))
    ∷ (lit "failed", count_or_invalid (status_count o (lit "failed")))
    ∷ (lit "active", count_or_invalid (status_count o (lit "active")))
    ∷ []

abbrev pub suspend_value : Option (Option Bool) → SummaryValue
suspend_value none = text (lit "invalid")
suspend_value (some none) = boolean false
suspend_value (some (some b)) = boolean b

abbrev pub cron_summary : KubeObject → Dict SummaryValue
cron_summary o =
    (lit "schedule", text (elim (valid_schedule_at o) [ none ↦ lit "invalid" | some s ↦ s ]))
    ∷ (lit "suspend", suspend_value (optional_boolean_at o (lit "spec" ∷ lit "suspend" ∷ [])))
    ∷ (lit "active", count_or_invalid (active_jobs o))
    ∷ []

unfoldable pub upload_workload_summary : Text → KubeObject → Dict SummaryValue
upload_workload_summary kind o =
    (if is_replicated kind
      then replicated_summary kind o
      else if text_eq kind (lit "DaemonSet")
      then (lit "ready", daemon_summary (parse_daemon_counts o)) ∷ []
      else if text_eq kind (lit "Job")
      then job_summary o
      else cron_summary o)
    ++ template_summary (parse_template kind o)

abbrev pub healthy_if : Bool → Text
healthy_if test = if test then lit "healthy" else lit "warning"

-- All replicas that are wanted are ready; of a deployment, available.
abbrev pub replicated_state : Text → Option ℕ → Option ℕ → Option ℕ → Text
replicated_state kind (some desired) (some ready) (some available) =
    healthy_if (leb desired (if text_eq kind (lit "Deployment") then available else ready))
replicated_state kind _ _ _ = lit "warning"

abbrev pub daemon_state : Option (ℕ × ℕ) → Text
daemon_state none = lit "warning"
daemon_state (some (desired, ready)) = healthy_if (leb desired ready)

abbrev pub job_state : Option ℕ → Option ℕ → Option ℕ → Option ℕ → Text
job_state (some completions) (some succeeded) (some failed) (some active) =
    if ltb 0 failed then lit "error" else healthy_if (leb completions succeeded)
job_state _ _ _ _ = lit "warning"

unfoldable pub upload_workload_status : Text → KubeObject → Text
upload_workload_status kind o =
    if not (upload_workload_template_is_valid kind o)
    then lit "warning"
    else if is_replicated kind
    then replicated_state kind (spec_count o (lit "replicas") 1)
        (status_count o (lit "readyReplicas")) (status_count o (lit "availableReplicas"))
    else if text_eq kind (lit "DaemonSet")
    then daemon_state (parse_daemon_counts o)
    else if text_eq kind (lit "Job")
    then job_state (spec_count o (lit "completions") 1) (status_count o (lit "succeeded"))
        (status_count o (lit "failed")) (status_count o (lit "active"))
    else healthy_if (
        is_some (valid_schedule_at o)
        && is_some (optional_boolean_at o (lit "spec" ∷ lit "suspend" ∷ []))
        && is_some (active_jobs o))
