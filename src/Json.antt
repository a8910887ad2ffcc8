-- ===== src/Json.antt =====
-- The values of type `unknown` that the parsers read: what `JSON.parse` and the YAML loader return.
-- An object is its own enumerable entries, in the order of `Object.entries`; its keys are distinct.
-- `readAt` and its kin are of website/src/features/upload/kubernetesObject.ts.
use kuviewer.Base.{
  Bool, true, false, Option, none, some, List, [], ◌∷◌, Text, text_eq, if◌then◌else◌,
}
use kuviewer.Base.Dict.{Dict}
use kuviewer.Base.Number.{Number}

mutual
  pub data Value : Type 0 where
    undefined : Value
    null : Value
    bool : Bool → Value
    num : Number → Value
    str : Text → Value
    arr : Items → Value
    obj : Fields → Value

  pub data Items : Type 0 where
    nil : Items
    cons : Value → Items → Items

  pub data Fields : Type 0 where
    end : Fields
    field : Text → Value → Fields → Fields

abbrev pub items : Items → List Value
items nil = []
items (cons v vs) = v ∷ items vs

abbrev pub entries : Fields → Dict Value
entries end = []
entries (field k v fs) = (k, v) ∷ entries fs

abbrev pub of_items : List Value → Items
of_items [] = nil
of_items (v ∷ vs) = cons v (of_items vs)

-- `value[key]` on an object: `undefined` where the key is missing.
unfoldable pub at : Fields → Text → Value
at end k = undefined
at (field j v fs) k = if text_eq j k then v else at fs k

-- `value == null`.
abbrev pub is_nullish : Value → Bool
is_nullish undefined = true
is_nullish null = true
is_nullish _ = false

abbrev pub is_record : Value → Bool
is_record (obj fs) = true
is_record _ = false

-- `value === text` for a string constant.
abbrev pub is_text : Value → Text → Bool
is_text (str s) t = text_eq s t
is_text _ t = false

-- `isRecord(value) ? value : null`, the guard of most parsers.
abbrev pub as_record : Value → Option Fields
as_record (obj fs) = some fs
as_record _ = none

abbrev pub as_items : Value → Option (List Value)
as_items (arr vs) = some (items vs)
as_items _ = none

-- `readAt`: `path.reduce`, with `undefined` from where no object stands.
unfoldable pub read_at : Value → List Text → Value
read_at v [] = v
read_at v (k ∷ path) = read_at (elim v [ obj fs ↦ at fs k | _ ↦ undefined ]) path

-- `stringAt`.
unfoldable pub string_at : Value → List Text → Text
unfolding read_at
string_at v path = elim (read_at v path) [ str s ↦ s | _ ↦ [] ]

-- `asArray`: the objects of an array.
abbrev records : List Value → List Fields
records [] = []
records (obj fs ∷ vs) = fs ∷ records vs
records (v ∷ vs) = records vs

unfoldable pub as_array : Value → List Fields
as_array (arr vs) = records (items vs)
as_array _ = []

-- `asStringArray`: the strings of an array.
abbrev strings : List Value → List Text
strings [] = []
strings (str s ∷ vs) = s ∷ strings vs
strings (v ∷ vs) = strings vs

unfoldable pub as_string_array : Value → List Text
as_string_array (arr vs) = strings (items vs)
as_string_array _ = []
