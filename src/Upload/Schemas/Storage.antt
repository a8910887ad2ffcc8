-- ===== src/Upload/Schemas/Storage.antt =====
-- website/src/features/upload/storageSchema.ts: claims, volumes and storage classes. An analysis is
-- none where it is not valid; a claim's specification can be valid without its status.
pub mod Read
pub mod Resources
use kuviewer.Base.{
  ℕ, ◌+◌, Bool, true, false, not, ◌&&◌, ◌||◌, Option, none, some, List, [], ◌∷◌, ◌++◌, map, Text,
  lit, text_eq, truthy, or_text, has, all, length, leb, ◌==◌, join, trim, if◌then◌else◌, ◌>>=◌,
  ◌>>◌, guard, traverse,
}
use kuviewer.Base.Decimal.{decimal}
use kuviewer.Base.Dict.{Dict, lookup, from_entries}
use kuviewer.Base.Number.{whole}
use kuviewer.Base.Sets.{set_of}
use kuviewer.Base.Sort.{text_compare, sort_by}
use kuviewer.Json.{
  Value, undefined, null, bool, num, str, arr, obj, Fields, items, entries, is_nullish,
}
use kuviewer.Topology.Types.{SummaryValue, text, number, boolean}
use kuviewer.Upload.LabelSelector.{valid_selector_key, is_some}
use kuviewer.Upload.Names.{is_digit}
use kuviewer.Upload.Object.{KubeObject, field_at}
use kuviewer.Upload.Values.{
  bounded_count, max_count, valid_dns_subdomain, drop_digits, digit_first, exponent_form,
}

abbrev pub max_storage_resource_entries : ℕ
max_storage_resource_entries = 32

abbrev pub max_storage_access_modes : ℕ
max_storage_access_modes = 4

abbrev pub max_quantity_bytes : ℕ
max_quantity_bytes = 64

unfoldable pub known_access_modes : List Text
known_access_modes =
    lit "ReadWriteOnce" ∷ lit "ReadOnlyMany" ∷ lit "ReadWriteMany" ∷ lit "ReadWriteOncePod" ∷ []

-- The units of the pattern, or `[eE][+-]?[0-9]+`, or nothing.
abbrev pub storage_unit : Text → Bool
storage_unit [] = true
storage_unit (c ∷ s) =
    has (c ∷ s) (
      lit "n"
      ∷ lit "u"
      ∷ lit "m"
      ∷ lit "k"
      ∷ lit "K"
      ∷ lit "M"
      ∷ lit "G"
      ∷ lit "T"
      ∷ lit "P"
      ∷ lit "E"
      ∷ lit "Ki"
      ∷ lit "Mi"
      ∷ lit "Gi"
      ∷ lit "Ti"
      ∷ lit "Pi"
      ∷ lit "Ei"
      ∷ [])
    || ((c == b'e' || c == b'E') && exponent_form s)

abbrev pub after_digits : Text → Bool
after_digits [] = true
after_digits (c ∷ s) =
    if c == b'.' then digit_first s && storage_unit (drop_digits s) else storage_unit (c ∷ s)

-- `quantityPattern`.
unfoldable pub quantity_pattern : Text → Bool
quantity_pattern s = digit_first s && after_digits (drop_digits s)

unfoldable pub valid_quantity : Text → Bool
valid_quantity s = leb (length s) max_quantity_bytes && text_eq (trim s) s && quantity_pattern s

-- `String` of a whole number below 2 ^ 53 is its decimal.
unfoldable pub normalize_quantity : Value → Text
normalize_quantity (str s) = s
normalize_quantity (num n) = elim (bounded_count max_count (num n)) [
  | none ↦ []
  | some k ↦ decimal k
]
normalize_quantity _ = []

-- `validLabelKey` asks for the same as the key of a selector, `validReferenceName` for a subdomain.
unfoldable pub valid_label_key : Text → Bool
valid_label_key s = valid_selector_key s

unfoldable pub valid_storage_name : Text → Bool
valid_storage_name s = leb (length s) 253 && valid_dns_subdomain s

abbrev pub resource_entry : Text × Value → Option (Text × Text)
resource_entry (k, v) =
    let quantity = normalize_quantity v in
    if valid_label_key k && truthy quantity && valid_quantity quantity
    then some (k, quantity)
    else none

unfoldable pub parse_resource_list : Value → Bool → Option (Dict Text)
parse_resource_list (obj fs) required = do
  guard (leb (length (entries fs)) max_storage_resource_entries)
  es ← traverse resource_entry (entries fs)
  guard (not required || is_some (lookup (lit "storage") (from_entries es)))
  some (from_entries es)
parse_resource_list v required = if is_nullish v && not required then some [] else none

abbrev pub access_mode : Value → Option Text
access_mode (str s) = if has s known_access_modes then some s else none
access_mode _ = none

unfoldable pub parse_access_modes : Value → Bool → Option (List Text)
parse_access_modes (arr vs) required = do
  guard (leb (length (items vs)) max_storage_access_modes)
  guard (not (required && length (items vs) == 0))
  modes ← traverse access_mode (items vs)
  guard (length (set_of modes) == length modes)
  some (sort_by text_compare modes)
parse_access_modes v required = if is_nullish v && not required then some [] else none

unfoldable pub optional_string : Value → Option Text
optional_string (str s) = some s
optional_string v = if is_nullish v then some [] else none

unfoldable pub optional_reference : Value → Option Text
optional_reference v =
    optional_string v >>= λ s. if not (truthy s) || valid_storage_name s then some s else none

unfoldable pub optional_enum : Value → List Text → Option Text
optional_enum v values = optional_string v >>= λ s. if has s values then some s else none

-- `requiredString`.
unfoldable pub required_string : Value → Option Text
required_string (str s) = if truthy s then some s else none
required_string _ = none

-- `optionalBoolean`: the inner none is undefined, the outer one null.
unfoldable pub optional_boolean : Value → Option (Option Bool)
optional_boolean (bool b) = some (some b)
optional_boolean v = if is_nullish v then some none else none
