-- ===== src/Upload/Schemas/Storage/Read.antt =====
-- The analyses of storageSchema.ts: what is read of a claim, a volume and a storage class.
use kuviewer.Base.{
  Bool, true, false, not, ◌&&◌, ◌||◌, Option, none, some, List, [], ◌∷◌, ◌++◌, map, Text, lit,
  text_eq, truthy, or_text, length, join, if◌then◌else◌, ◌>>=◌, ◌>>◌, guard,
}
use kuviewer.Base.Dict.{Dict, lookup}
use kuviewer.Base.Number.{whole}
use kuviewer.Json.{Value}
use kuviewer.Topology.Types.{SummaryValue, text, number, boolean}
use kuviewer.Upload.Graph.Schemas.{KindReference}
use kuviewer.Upload.LabelSelector.{is_some}
use kuviewer.Upload.Object.{KubeObject, field_at}
use kuviewer.Upload.Schemas.Storage.{
  valid_label_key, valid_storage_name, parse_resource_list, parse_access_modes, optional_string,
  optional_reference, optional_enum, required_string, optional_boolean,
}

pub record ClaimSpec : Type 0 where
  pub requests : Dict Text
  pub access_modes : List Text
  pub volume : Text
  pub storage_class : Text
  pub volume_mode : Text

pub record ClaimStatus : Type 0 where
  pub capacity : Dict Text
  pub access_modes : List Text
  pub phase : Text

pub record VolumeSpec : Type 0 where
  pub capacity : Dict Text
  pub access_modes : List Text
  pub storage_class : Text
  pub volume_mode : Text
  pub reclaim_policy : Text

pub record ClassSpec : Type 0 where
  pub provisioner : Text
  pub reclaim_policy : Text
  pub volume_binding_mode : Text
  pub allow_volume_expansion : Option Bool

-- The field of the specification, or of the status.
abbrev pub spec_at : KubeObject → Text → Value
spec_at o key = field_at o (lit "spec" ∷ key ∷ [])

abbrev pub status_at : KubeObject → Text → Value
status_at o key = field_at o (lit "status" ∷ key ∷ [])

abbrev pub volume_modes : List Text
volume_modes = [] ∷ lit "Filesystem" ∷ lit "Block" ∷ []

unfoldable pub claim_spec : KubeObject → Option ClaimSpec
claim_spec o = do
  requests ←
      parse_resource_list (field_at o (lit "spec" ∷ lit "resources" ∷ lit "requests" ∷ [])) false
  modes ← parse_access_modes (spec_at o (lit "accessModes")) false
  volume ← optional_reference (spec_at o (lit "volumeName"))
  storage_class ← optional_reference (spec_at o (lit "storageClassName"))
  mode ← optional_enum (spec_at o (lit "volumeMode")) volume_modes
  some (record {
    requests = requests;
    access_modes = modes;
    volume = volume;
    storage_class = storage_class;
    volume_mode = mode;
  })

unfoldable pub claim_status : KubeObject → Option ClaimStatus
claim_status o = do
  capacity ← parse_resource_list (status_at o (lit "capacity")) false
  modes ← parse_access_modes (status_at o (lit "accessModes")) false
  phase ←
      optional_enum (status_at o (lit "phase")) ([] ∷ lit "Pending" ∷ lit "Bound" ∷ lit "Lost" ∷ [])
  some (record { capacity = capacity; access_modes = modes; phase = phase })

unfoldable pub volume_spec : KubeObject → Option VolumeSpec
volume_spec o = do
  capacity ← parse_resource_list (spec_at o (lit "capacity")) true
  modes ← parse_access_modes (spec_at o (lit "accessModes")) true
  storage_class ← optional_reference (spec_at o (lit "storageClassName"))
  mode ← optional_enum (spec_at o (lit "volumeMode")) volume_modes
  policy ←
      optional_enum (spec_at o (lit "persistentVolumeReclaimPolicy"))
        ([] ∷ lit "Retain" ∷ lit "Recycle" ∷ lit "Delete" ∷ [])
  some (record {
    capacity = capacity;
    access_modes = modes;
    storage_class = storage_class;
    volume_mode = mode;
    reclaim_policy = policy;
  })

unfoldable pub volume_phase : KubeObject → Option Text
volume_phase o =
    optional_enum (status_at o (lit "phase"))
      ([] ∷ lit "Pending" ∷ lit "Available" ∷ lit "Bound" ∷ lit "Released" ∷ lit "Failed" ∷ [])

unfoldable pub class_spec : KubeObject → Option ClassSpec
class_spec o = do
  provisioner ← required_string (field_at o (lit "provisioner" ∷ []))
  guard (valid_label_key provisioner)
  policy ←
      optional_enum (field_at o (lit "reclaimPolicy" ∷ [])) ([] ∷ lit "Retain" ∷ lit "Delete" ∷ [])
  mode ←
      optional_enum (field_at o (lit "volumeBindingMode" ∷ []))
        ([] ∷ lit "Immediate" ∷ lit "WaitForFirstConsumer" ∷ [])
  expansion ← optional_boolean (field_at o (lit "allowVolumeExpansion" ∷ []))
  some (record {
    provisioner = provisioner;
    reclaim_policy = policy;
    volume_binding_mode = mode;
    allow_volume_expansion = expansion;
  })

-- `pvcStatusValue` and `pvStatusValue` of a valid phase.
abbrev pub claim_phase_status : Text → Text
claim_phase_status phase =
    if not (truthy phase)
    then lit "unknown"
    else if text_eq phase (lit "Bound")
    then lit "healthy"
    else if text_eq phase (lit "Lost")
    then lit "error"
    else lit "warning"

abbrev pub volume_phase_status : Text → Text
volume_phase_status phase =
    if not (truthy phase)
    then lit "unknown"
    else if text_eq phase (lit "Bound") || text_eq phase (lit "Available")
    then lit "healthy"
    else if text_eq phase (lit "Failed")
    then lit "error"
    else lit "warning"

abbrev pub invalid_summary : List Text → Dict SummaryValue
invalid_summary keys = map (λ k. (k, text (lit "invalid"))) keys

abbrev pub storage_quantity : Dict Text → SummaryValue
storage_quantity resources =
    text (elim (lookup (lit "storage") resources) [ none ↦ lit "unknown" | some q ↦ q ])

abbrev pub access_mode_summary : List Text → SummaryValue
access_mode_summary modes = text (or_text (join (lit ",") modes) (lit "unknown"))

abbrev pub claim_summary : Option ClaimSpec → Option ClaimStatus → Dict SummaryValue
claim_summary (some spec) (some status) =
    (lit "phase", text (or_text status.phase (lit "unknown")))
    ∷ (lit "requestedStorage", storage_quantity spec.requests)
    ∷ (lit "capacityStorage", storage_quantity status.capacity)
    ∷ (lit "accessModes", access_mode_summary spec.access_modes)
    ∷ (lit "statusAccessModes", access_mode_summary status.access_modes)
    ∷ (lit "volumeMode", text (or_text spec.volume_mode (lit "Filesystem")))
    ∷ (lit "volume", text (or_text spec.volume (lit "unbound")))
    ∷ (lit "storageClass", text (or_text spec.storage_class (lit "default")))
    ∷ (lit "requestResourceCount", number (whole (length spec.requests)))
    ∷ (lit "capacityResourceCount", number (whole (length status.capacity)))
    ∷ []
claim_summary _ _ = invalid_summary (
    lit "phase"
    ∷ lit "requestedStorage"
    ∷ lit "capacityStorage"
    ∷ lit "accessModes"
    ∷ lit "statusAccessModes"
    ∷ lit "volumeMode"
    ∷ lit "volume"
    ∷ lit "storageClass"
    ∷ lit "requestResourceCount"
    ∷ lit "capacityResourceCount"
    ∷ [])

abbrev pub volume_summary : Option VolumeSpec → Option Text → Dict SummaryValue
volume_summary (some spec) (some phase) =
    (lit "phase", text (or_text phase (lit "unknown")))
    ∷ (lit "storage", storage_quantity spec.capacity)
    ∷ (lit "accessModes", access_mode_summary spec.access_modes)
    ∷ (lit "volumeMode", text (or_text spec.volume_mode (lit "Filesystem")))
    ∷ (lit "reclaimPolicy", text (or_text spec.reclaim_policy (lit "Retain")))
    ∷ (lit "storageClass", text (or_text spec.storage_class (lit "none")))
    ∷ (lit "capacityResourceCount", number (whole (length spec.capacity)))
    ∷ []
volume_summary _ _ = invalid_summary (
    lit "phase"
    ∷ lit "storage"
    ∷ lit "accessModes"
    ∷ lit "volumeMode"
    ∷ lit "reclaimPolicy"
    ∷ lit "storageClass"
    ∷ lit "capacityResourceCount"
    ∷ [])

abbrev pub class_summary : Option ClassSpec → Dict SummaryValue
class_summary (some spec) =
    (lit "provisioner", text spec.provisioner)
    ∷ (lit "reclaimPolicy", text (or_text spec.reclaim_policy (lit "Delete")))
    ∷ (lit "volumeBindingMode", text (or_text spec.volume_binding_mode (lit "Immediate")))
    ∷ (
      lit "allowVolumeExpansion",
      elim spec.allow_volume_expansion [ none ↦ text (lit "unknown") | some b ↦ boolean b ],
    )
    ∷ []
class_summary none = invalid_summary (
    lit "provisioner"
    ∷ lit "reclaimPolicy"
    ∷ lit "volumeBindingMode"
    ∷ lit "allowVolumeExpansion"
    ∷ [])

abbrev pub claim_state : Option ClaimSpec → Option ClaimStatus → Text
claim_state (some spec) (some status) = claim_phase_status status.phase
claim_state _ _ = lit "warning"

abbrev pub volume_state : Option VolumeSpec → Option Text → Text
volume_state (some spec) (some phase) = volume_phase_status phase
volume_state _ _ = lit "warning"

-- The kind is one of the three that `isUploadStorageKind` knows.
unfoldable pub upload_storage_status : Text → KubeObject → Text
upload_storage_status kind o =
    if text_eq kind (lit "PersistentVolumeClaim")
    then claim_state (claim_spec o) (claim_status o)
    else if text_eq kind (lit "PersistentVolume")
    then volume_state (volume_spec o) (volume_phase o)
    else if is_some (class_spec o)
    then lit "healthy"
    else lit "warning"

unfoldable pub upload_storage_summary : Text → KubeObject → Dict SummaryValue
upload_storage_summary kind o =
    if text_eq kind (lit "PersistentVolumeClaim")
    then claim_summary (claim_spec o) (claim_status o)
    else if text_eq kind (lit "PersistentVolume")
    then volume_summary (volume_spec o) (volume_phase o)
    else class_summary (class_spec o)

unfoldable pub upload_storage_spec_is_valid : Text → KubeObject → Bool
upload_storage_spec_is_valid kind o =
    if text_eq kind (lit "PersistentVolumeClaim")
    then is_some (claim_spec o)
    else if text_eq kind (lit "PersistentVolume")
    then is_some (volume_spec o)
    else is_some (class_spec o)

abbrev pub reference_to : Text → Value → List KindReference
reference_to kind v = elim (optional_string v) [
  | none ↦ []
  | some s ↦ if truthy s && valid_storage_name s then record { kind = kind; name = s } ∷ [] else []
]

unfoldable pub upload_storage_references : Text → KubeObject → List KindReference
upload_storage_references kind o =
    if not (upload_storage_spec_is_valid kind o) || text_eq kind (lit "StorageClass")
    then []
    else (if text_eq kind (lit "PersistentVolumeClaim")
        then reference_to (lit "PersistentVolume") (spec_at o (lit "volumeName"))
        else [])
      ++ reference_to (lit "StorageClass") (spec_at o (lit "storageClassName"))
