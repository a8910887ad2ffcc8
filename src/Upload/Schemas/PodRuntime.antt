-- ===== src/Upload/Schemas/PodRuntime.antt =====
-- website/src/features/upload/podRuntimeSchema.ts: the status of a pod's containers.
pub mod Bounds
use kuviewer.Base.{
  ℕ, ◌+◌, Bool, true, false, not, ◌&&◌, ◌||◌, Option, none, some, List, [], ◌∷◌, ◌++◌, map, Text,
  lit, text_eq, truthy, or_text, has, all, length, leb, ltb, ◌==◌, min, take, filter, flat_map,
  if◌then◌else◌, ◌>>=◌, ◌>>◌, guard,
}
use kuviewer.Base.Decimal.{decimal}
use kuviewer.Base.Dict.{Dict}
use kuviewer.Base.Number.{whole}
use kuviewer.Base.Sets.{set_of}
use kuviewer.Base.Sort.{text_compare, sort_by}
use kuviewer.Json.{Value, bool, str, obj, Fields, at, is_nullish, as_record}
use kuviewer.Topology.Types.{SummaryValue, text, number, texts}
use kuviewer.Upload.Names.{is_alnum, headed}
use kuviewer.Upload.Object.{KubeObject, field_at}
use kuviewer.Upload.Schemas.Images.{valid_upload_container_image, record_array}
use kuviewer.Upload.Values.{bounded_count, max_count, valid_dns_label}

abbrev pub max_runtime_statuses : ℕ
max_runtime_statuses = 64

abbrev pub max_runtime_summary_items : ℕ
max_runtime_summary_items = 8

pub record RuntimeStatus : Type 0 where
  pub name : Text
  pub ready : Bool
  pub restarts : ℕ
  pub state : Text
  pub reasons : List Text
  pub image : Text

pub record PodRuntime : Type 0 where
  pub phase : Text
  pub statuses : List RuntimeStatus
  pub all_statuses : List RuntimeStatus

unfoldable pub valid_pod_phase : Text → Bool
valid_pod_phase s =
    has s ([] ∷ lit "Pending" ∷ lit "Running" ∷ lit "Succeeded" ∷ lit "Failed" ∷ lit "Unknown" ∷ [])

unfoldable pub valid_runtime_reason : Text → Bool
valid_runtime_reason s =
    not (truthy s)
    || (leb (length s) 128
        && headed is_alnum (λ c. is_alnum c || c == b'.' || c == b'_' || c == b'/' || c == b'-') s)

-- A text that may be missing; what is no text is refused, by the word `__invalid__` in the source,
-- which neither a phase nor a reason may be.
abbrev pub text_or_blank : Value → Option Text
text_or_blank (str s) = some s
text_or_blank v = if is_nullish v then some [] else none

abbrev pub is_count : Value → Bool
is_count v = elim (bounded_count max_count v) [ none ↦ false | some n ↦ true ]

-- A terminated container has an exit code, and a signal where there is one.
abbrev pub fits_state : Text → Fields → Bool
fits_state state detail =
    not (text_eq state (lit "terminated"))
    || (is_count (at detail (lit "exitCode"))
        && (is_nullish (at detail (lit "signal")) || is_count (at detail (lit "signal"))))

-- The state whose detail is given, with its reason.
abbrev pub state_of : Text → Fields → Option (Text × Text)
state_of state detail =
    if text_eq state (lit "running")
    then some (state, [])
    else (text_or_blank (at detail (lit "reason")) >>= λ reason.
        if valid_runtime_reason reason && fits_state state detail
        then some (state, reason)
        else none)

-- Of the states that are set there may be one.
abbrev pub only_state : Fields → List Text → Option (Text × Text)
only_state fs [] = some (lit "unknown", [])
only_state fs (state ∷ []) = as_record (at fs state) >>= λ detail. state_of state detail
only_state fs _ = none

unfoldable pub parse_container_state : Value → Option (Text × Text)
parse_container_state (obj fs) = only_state fs (
    filter (λ key. not (is_nullish (at fs key)))
      (lit "waiting" ∷ lit "running" ∷ lit "terminated" ∷ []))
parse_container_state v = if is_nullish v then some (lit "unknown", []) else none

-- The image of a status: blank where there is none.
abbrev pub status_image : Value → Option Text
status_image (str s) = if valid_upload_container_image s then some s else none
status_image v = if is_nullish v then some [] else none

abbrev pub container_name : Value → Option Text
container_name (str s) = if valid_dns_label s then some s else none
container_name _ = none

abbrev pub as_bool : Value → Option Bool
as_bool (bool b) = some b
as_bool _ = none

abbrev pub reasons_of : Text × Text → Text × Text → List Text
reasons_of current last =
    (if truthy current.1 then (current.0 ++ (b':' ∷ current.1)) ∷ [] else [])
    ++ (if truthy last.1 then (lit "last:" ++ last.1) ∷ [] else [])

unfoldable pub parse_runtime_status : Fields → Option RuntimeStatus
parse_runtime_status fs = do
  name ← container_name (at fs (lit "name"))
  ready ← as_bool (at fs (lit "ready"))
  restarts ← bounded_count max_count (at fs (lit "restartCount"))
  image ← status_image (at fs (lit "image"))
  current ← parse_container_state (at fs (lit "state"))
  last ← parse_container_state (at fs (lit "lastState"))
  some (record {
    name = name;
    ready = ready;
    restarts = restarts;
    state = current.0;
    reasons = reasons_of current last;
    image = image;
  })

-- The loop of `parseRuntimeStatuses`, with the names that are taken, which the three lists share.
unfoldable pub runtime_statuses_from : List Text → List Fields → Option (List RuntimeStatus)
runtime_statuses_from seen [] = some []
runtime_statuses_from seen (fs ∷ rest) = do
  status ← parse_runtime_status fs
  guard (not (has status.name seen))
  others ← runtime_statuses_from (status.name ∷ seen) rest
  some (status ∷ others)

abbrev pub status_names : List RuntimeStatus → List Text
status_names ss = map (λ (s : RuntimeStatus). s.name) ss

unfoldable pub parse_runtime_statuses : List Text → Value → Option (List RuntimeStatus)
parse_runtime_statuses seen v =
    record_array v max_runtime_statuses >>= λ rs. runtime_statuses_from seen rs

unfoldable pub analyze_pod_runtime : KubeObject → Option PodRuntime
analyze_pod_runtime o = do
  phase ← text_or_blank (field_at o (lit "status" ∷ lit "phase" ∷ []))
  statuses ← parse_runtime_statuses [] (field_at o (lit "status" ∷ lit "containerStatuses" ∷ []))
  inits ←
      parse_runtime_statuses (status_names statuses)
        (field_at o (lit "status" ∷ lit "initContainerStatuses" ∷ []))
  ephemerals ←
      parse_runtime_statuses (status_names inits ++ status_names statuses)
        (field_at o (lit "status" ∷ lit "ephemeralContainerStatuses" ∷ []))
  guard (valid_pod_phase phase)
  guard (leb (length statuses + (length inits + length ephemerals)) max_runtime_statuses)
  some (record {
    phase = phase;
    statuses = statuses;
    all_statuses = statuses ++ (inits ++ ephemerals);
  })

-- The restarts of all containers, which stop counting at the bound.
unfoldable pub bounded_restart_total : ℕ → List RuntimeStatus → ℕ
bounded_restart_total total [] = total
bounded_restart_total total (s ∷ ss) = bounded_restart_total (min max_count (total + s.restarts)) ss

abbrev pub runs : RuntimeStatus → Bool
runs s = s.ready && text_eq s.state (lit "running")

abbrev pub runtime_status : Option PodRuntime → Text
runtime_status none = lit "warning"
runtime_status (some p) =
    if not (truthy p.phase)
    then lit "unknown"
    else if text_eq p.phase (lit "Failed")
    then lit "error"
    else if text_eq p.phase (lit "Succeeded")
    then lit "healthy"
    else if text_eq p.phase (lit "Running") && ltb 0 (length p.statuses) && all runs p.statuses
    then lit "healthy"
    else lit "warning"

unfoldable pub upload_pod_runtime_status : KubeObject → Text
upload_pod_runtime_status o = runtime_status (analyze_pod_runtime o)

-- The states that occur, with their counts.
abbrev pub state_count : List RuntimeStatus → Text → List Text
state_count ss state =
    let n = length (filter (λ (s : RuntimeStatus). text_eq s.state state) ss) in
    if n == 0 then [] else (state ++ (b':' ∷ decimal n)) ∷ []

abbrev pub runtime_reasons : List RuntimeStatus → List Text
runtime_reasons ss = sort_by text_compare (set_of (flat_map (λ (s : RuntimeStatus). s.reasons) ss))

abbrev pub runtime_images : List RuntimeStatus → List Text
runtime_images ss =
    sort_by text_compare (set_of (filter truthy (map (λ (s : RuntimeStatus). s.image) ss)))

abbrev pub runtime_summary : Option PodRuntime → Dict SummaryValue
runtime_summary none =
    let invalid = text (lit "invalid") in
    (lit "phase", invalid)
    ∷ (lit "ready", invalid)
    ∷ (lit "restarts", invalid)
    ∷ (lit "runtimeStates", texts [])
    ∷ (lit "runtimeReasonCount", invalid)
    ∷ (lit "runtimeReasons", texts [])
    ∷ (lit "runtimeImageCount", invalid)
    ∷ (lit "runtimeImages", texts [])
    ∷ []
runtime_summary (some p) =
    let ready = length (filter (λ (s : RuntimeStatus). s.ready) p.statuses) in
    let reasons = runtime_reasons p.all_statuses in
    let images = runtime_images p.all_statuses in
    let states =
      flat_map (state_count p.all_statuses)
        (lit "running" ∷ lit "waiting" ∷ lit "terminated" ∷ lit "unknown" ∷ []) in
    (lit "phase", text (or_text p.phase (lit "unknown")))
    ∷ (lit "ready", text (decimal ready ++ (b'/' ∷ decimal (length p.statuses))))
    ∷ (lit "restarts", number (whole (bounded_restart_total 0 p.statuses)))
    ∷ (lit "runtimeStates", texts states)
    ∷ (lit "runtimeReasonCount", number (whole (length reasons)))
    ∷ (lit "runtimeReasons", texts (take max_runtime_summary_items reasons))
    ∷ (lit "runtimeImageCount", number (whole (length images)))
    ∷ (lit "runtimeImages", texts (take max_runtime_summary_items images))
    ∷ []

unfoldable pub upload_pod_runtime_summary : KubeObject → Dict SummaryValue
upload_pod_runtime_summary o = runtime_summary (analyze_pod_runtime o)

unfoldable pub upload_pod_runtime_is_valid : KubeObject → Bool
upload_pod_runtime_is_valid o = elim (analyze_pod_runtime o) [ none ↦ false | some p ↦ true ]
