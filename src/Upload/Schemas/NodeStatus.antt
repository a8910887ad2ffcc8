-- ===== src/Upload/Schemas/NodeStatus.antt =====
-- website/src/features/upload/nodeStatusSchema.ts: the parsers of the parts of a node's status.
pub mod Analysis
pub mod Ready
use kuviewer.Base.{
  ℕ, ◌+◌, Bool, true, false, not, ◌&&◌, ◌||◌, Option, none, some, List, [], ◌∷◌, ◌++◌, map, Text,
  lit, text_eq, truthy, or_text, has, all, any, length, leb, ◌==◌, join, split, trim, filter,
  if◌then◌else◌, ◌>>=◌, ◌>>◌, guard, traverse,
}
use kuviewer.Base.Decimal.{read_decimal}
use kuviewer.Base.Dict.{Dict, lookup, from_entries}
use kuviewer.Base.Number.{whole}
use kuviewer.Base.Sort.{text_compare, sort_by}
use kuviewer.Json.{Value, str, obj, Fields, at, entries, is_nullish}
use kuviewer.Topology.Types.{SummaryValue, text, number}
use kuviewer.Upload.Names.{is_alnum, is_lower_alnum, is_digit, headed}
use kuviewer.Upload.Object.{KubeObject, field_at}
use kuviewer.Upload.Schemas.Images.{record_array}
use kuviewer.Upload.Schemas.Storage.{normalize_quantity, optional_string, quantity_pattern}
use kuviewer.Upload.Values.{max_count, digit_first, drop_digits}

abbrev pub max_node_resource_entries : ℕ
max_node_resource_entries = 128

abbrev pub max_node_condition_entries : ℕ
max_node_condition_entries = 64

abbrev pub max_node_version_bytes : ℕ
max_node_version_bytes = 64

pub record NodeCondition : Type 0 where
  pub type : Text
  pub status : Text

pub record NodeSystemInfo : Type 0 where
  pub kubelet_version : Text
  pub container_runtime : Text
  pub operating_system : Text
  pub architecture : Text

-- `\.[0-9]+` and what must follow it.
abbrev pub dotted : (Text → Bool) → Text → Bool
dotted next [] = false
dotted next (c ∷ s) = c == b'.' && digit_first s && next (drop_digits s)

-- `(?:[-+][0-9A-Za-z.-]+)?$`.
abbrev pub version_suffix : Text → Bool
version_suffix [] = true
version_suffix (c ∷ s) =
    (c == b'-' || c == b'+') && truthy s && all (λ d. is_alnum d || d == b'.' || d == b'-') s

-- `kubeletVersionPattern`, `/^v[0-9]+\.[0-9]+\.[0-9]+(?:[-+][0-9A-Za-z.-]+)?$/`.
unfoldable pub kubelet_version_pattern : Text → Bool
kubelet_version_pattern [] = false
kubelet_version_pattern (c ∷ s) =
    c == b'v' && digit_first s && dotted (dotted version_suffix) (drop_digits s)

-- What follows the colon of a runtime's version.
abbrev pub runtime_number : Text → Bool
runtime_number (c ∷ d ∷ s) =
    c == b'/'
    && d == b'/'
    && leb (length s) 64
    && headed is_alnum (λ e. is_alnum e || e == b'.' || e == b'+' || e == b'_' || e == b'-') s
runtime_number _ = false

-- No colon stands in the name or in the number.
abbrev pub runtime_parts : List Text → Bool
runtime_parts (name ∷ version ∷ []) =
    leb (length name) 32
    && headed is_lower_alnum (λ c. is_lower_alnum c || c == b'.' || c == b'_' || c == b'-') name
    && runtime_number version
runtime_parts _ = false

-- `/^[a-z0-9][a-z0-9._-]{0,31}:\/\/[0-9A-Za-z][0-9A-Za-z.+_-]{0,63}$/`.
unfoldable pub runtime_version_pattern : Text → Bool
runtime_version_pattern s = runtime_parts (split b':' s)

-- `/^[a-z0-9][a-z0-9_-]{0,31}$/`.
unfoldable pub architecture_pattern : Text → Bool
architecture_pattern s =
    leb (length s) 32 && headed is_lower_alnum (λ c. is_lower_alnum c || c == b'_' || c == b'-') s

-- `/^[A-Za-z0-9][A-Za-z0-9._/-]{0,127}$/`.
unfoldable pub condition_type_pattern : Text → Bool
condition_type_pattern s =
    leb (length s) 128
    && headed is_alnum (λ c. is_alnum c || c == b'.' || c == b'_' || c == b'/' || c == b'-') s

unfoldable pub valid_node_quantity : Text → Bool
valid_node_quantity s =
    truthy s && leb (length s) max_node_version_bytes && text_eq (trim s) s && quantity_pattern s

unfoldable pub parse_pod_capacity : Text → Option ℕ
parse_pod_capacity s =
    if truthy s && leb (length s) 10 && all is_digit s && leb (read_decimal s) max_count
    then some (read_decimal s)
    else none

-- A quantity with its key, or none where it is blank; `normalizeQuantityValue` is that of storage.
abbrev pub node_quantity : Text × Value → Option (Text × Text)
node_quantity (k, v) =
    let quantity = normalize_quantity v in if truthy quantity then some (k, quantity) else none

-- A test of the value of a key, which may be missing.
abbrev pub fits_at : (Text → Bool) → Dict Text → Text → Bool
fits_at test m key = elim (lookup key m) [ none ↦ true | some s ↦ test s ]

abbrev pub is_pod_capacity : Text → Bool
is_pod_capacity s = elim (parse_pod_capacity s) [ none ↦ false | some n ↦ true ]

-- Assigning a text to the key `__proto__` of an object does nothing.
unfoldable pub parse_node_resource_list : Value → Option (Dict Text)
parse_node_resource_list (obj fs) = do
  guard (leb (length (entries fs)) max_node_resource_entries)
  es ← traverse node_quantity (entries fs)
  let m = from_entries (filter (λ e. not (text_eq e.0 (lit "__proto__"))) es)
  guard (
      all (fits_at valid_node_quantity m) (lit "cpu" ∷ lit "memory" ∷ lit "ephemeral-storage" ∷ []))
  guard (fits_at is_pod_capacity m (lit "pods"))
  some m
parse_node_resource_list v = if is_nullish v then some [] else none

-- A condition of a type that is not among those seen.
abbrev pub node_condition : List Text → Value → Value → Option NodeCondition
node_condition seen (str type) (str status) =
    if condition_type_pattern type
      && not (has type seen)
      && has status (lit "True" ∷ lit "False" ∷ lit "Unknown" ∷ [])
    then some (record { type = type; status = status })
    else none
node_condition seen _ _ = none

unfoldable pub node_conditions_from : List Text → List Fields → Option (List NodeCondition)
node_conditions_from seen [] = some []
node_conditions_from seen (fs ∷ rest) =
    node_condition seen (at fs (lit "type")) (at fs (lit "status")) >>= λ c.
    node_conditions_from (c.type ∷ seen) rest >>= λ cs. some (c ∷ cs)

unfoldable pub parse_node_conditions : Value → Option (List NodeCondition)
parse_node_conditions v = record_array v max_node_condition_entries >>= node_conditions_from []

abbrev pub empty_node_system_info : NodeSystemInfo
empty_node_system_info = record {
  kubelet_version = [];
  container_runtime = [];
  operating_system = [];
  architecture = [];
}

unfoldable pub valid_optional_node_value : Text → (Text → Bool) → Bool
valid_optional_node_value s pattern =
    not (truthy s) || (leb (length s) max_node_version_bytes && text_eq (trim s) s && pattern s)

unfoldable pub parse_node_system_info : Value → Option NodeSystemInfo
parse_node_system_info (obj fs) = do
  kubelet ← optional_string (at fs (lit "kubeletVersion"))
  runtime ← optional_string (at fs (lit "containerRuntimeVersion"))
  system ← optional_string (at fs (lit "operatingSystem"))
  architecture ← optional_string (at fs (lit "architecture"))
  guard (
      valid_optional_node_value kubelet kubelet_version_pattern
      && valid_optional_node_value runtime runtime_version_pattern
      && has system ([] ∷ lit "linux" ∷ lit "windows" ∷ [])
      && (not (truthy architecture) || architecture_pattern architecture))
  some (record {
    kubelet_version = kubelet;
    container_runtime = runtime;
    operating_system = system;
    architecture = architecture;
  })
parse_node_system_info v = if is_nullish v then some empty_node_system_info else none

-- The number of pods, where the key is there and its value is a number.
unfoldable pub pod_count : Dict Text → Option ℕ
pod_count m = lookup (lit "pods") m >>= parse_pod_capacity

unfoldable pub valid_pod_allocation : Dict Text → Dict Text → Bool
valid_pod_allocation capacity allocatable = elim (pod_count capacity) [
  | none ↦ true
  | some m ↦ elim (pod_count allocatable) [ none ↦ true | some n ↦ leb n m ]
]
