-- ===== src/Upload/Import/Values.antt =====
-- The fields of an imported topology, each read from a value of any form.
use kuviewer.Base.{
  ℕ, Option, none, some, List, [], ◌∷◌, if◌then◌else◌, Text, truthy, trim, has, take, flat_map,
}
use kuviewer.Base.Dict.{Dict, from_entries}
use kuviewer.Base.Number.{Number, dyadic, pos, negsuc, whole, is_finite, count_of, num_le}
use kuviewer.Json.{Value, num, str, arr, obj, items, entries}

unfoldable pub imported_string : Value → ℕ → Text
imported_string (str s) max_length = take max_length (trim s)
imported_string _ max_length = []

unfoldable pub required_imported_string : Value → ℕ → Option Text
unfolding imported_string
required_imported_string v max_length =
    let result = imported_string v max_length in if truthy result then some result else none

unfoldable pub optional_imported_string : Value → ℕ → Option Text
unfolding imported_string
optional_imported_string v max_length =
    let result = imported_string v max_length in if truthy result then some result else none

unfoldable pub imported_count : Value → Number
imported_count (num n) = if is_finite n then whole (count_of n) else whole 0
imported_count _ = whole 0

abbrev pub max_coordinate : Number
max_coordinate = dyadic (pos 100000) 0

abbrev pub min_coordinate : Number
min_coordinate = dyadic (negsuc 99999) 0

-- `Math.max(low, Math.min(high, n))` of a number that is not NaN.
abbrev pub clamp : Number → Number
clamp n =
    let m = if num_le n max_coordinate then n else max_coordinate in
    if num_le min_coordinate m then m else min_coordinate

unfoldable pub imported_coordinate : Value → Number
imported_coordinate (num n) = if is_finite n then clamp n else whole 0
imported_coordinate _ = whole 0

abbrev pub string_entry : ℕ → ℕ → Text × Value → List (Text × Text)
string_entry max_key max_value (k, str s) =
    let key = imported_string (str k) max_key in
    if truthy key then (key, imported_string (str s) max_value) ∷ [] else []
string_entry max_key max_value (k, v) = []

unfoldable pub imported_string_record : Value → ℕ → ℕ → ℕ → Dict Text
unfolding imported_string
imported_string_record (obj fs) max_entries max_key max_value =
    from_entries (flat_map (string_entry max_key max_value) (take max_entries (entries fs)))
imported_string_record _ max_entries max_key max_value = []

abbrev pub string_item : ℕ → Value → List Text
string_item max_length (str s) = imported_string (str s) max_length ∷ []
string_item max_length _ = []

unfoldable pub imported_string_array : Value → ℕ → ℕ → Option (List Text)
unfolding imported_string
imported_string_array (arr vs) max_entries max_length =
    some (flat_map (string_item max_length) (take max_entries (items vs)))
imported_string_array _ max_entries max_length = none

-- `isResourceKind`, `isResourceStatus` and `isEdgeType`: a string among the known ones.
unfoldable pub member_of : List Text → Value → Option Text
member_of known (str s) = if has s known then some s else none
member_of known _ = none
