-- ===== src/Upload/Schemas/ConfigMap.antt =====
-- website/src/features/upload/configMapSchema.ts: config maps. The analysis that the source keeps
-- for the object that `sanitizeUploadConfigMap` returns is that of the object that it was given.
use kuviewer.Base.{
  ℕ, ◌+◌, ◌≤◌, ◌≡◌, Bool, true, false, not, ◌&&◌, ◌||◌, Option, none, some, List, [], ◌∷◌, ◌++◌,
  map, Text, lit, text_eq, truthy, has, all, any, length, leb, starts_with, if◌then◌else◌, ◌>>=◌,
  ◌>>◌, guard, arith, >>=-eq-some, guard-eq-some, along_some, leb→le,
}
use kuviewer.Base.Dict.{Dict}
use kuviewer.Base.Number.{whole}
use kuviewer.Base.Sets.{Distinct, AreNew, AreNew-Distinct, has-append}
use kuviewer.Json.{Value, undefined, null, bool, num, str, arr, obj, entries, is_nullish}
use kuviewer.Topology.Types.{SummaryValue, text, number, boolean}
use kuviewer.Upload.Names.{is_alnum}
use kuviewer.Upload.Object.{KubeObject, field_at}

abbrev pub max_config_map_entries : ℕ
max_config_map_entries = 4096

-- `/^[-._A-Za-z0-9]+$/` with the tests before it.
unfoldable pub valid_config_map_key : Text → Bool
valid_config_map_key s =
    truthy s
    && not (text_eq s (lit "."))
    && leb (length s) 253
    && not (starts_with (lit "..") s)
    && all (λ c. is_alnum c || has (c ∷ []) (lit "-" ∷ lit "." ∷ lit "_" ∷ [])) s

abbrev pub is_string_value : Value → Bool
is_string_value (str s) = true
is_string_value _ = false

-- The loop of `parseKeyField`: the keys in their order, none where it returns early.
unfoldable pub keys_from : List Text → Dict Value → Option (List Text)
keys_from seen [] = some []
keys_from seen ((k, v) ∷ es) = do
  guard (valid_config_map_key k && is_string_value v && not (has k seen))
  ks ← keys_from (k ∷ seen) es
  some (k ∷ ks)

unfoldable pub parse_key_field : Value → Option (List Text)
parse_key_field (obj fs) = do
  guard (leb (length (entries fs)) max_config_map_entries)
  keys_from [] (entries fs)
parse_key_field v = if is_nullish v then some [] else none

-- `immutableValueIsValid`, with the value: the inner none is a missing one.
unfoldable pub immutable_value : Value → Option (Option Bool)
immutable_value (bool b) = some (some b)
immutable_value v = if is_nullish v then some none else none

unfoldable pub sets_overlap : List Text → List Text → Bool
sets_overlap left right = any (λ k. has k right) left

pub record ConfigMapAnalysis : Type 0 where
  pub data_keys : List Text
  pub binary_keys : List Text
  pub immutable : Option Bool

-- None where the config map is not valid.
unfoldable pub analyze_config_map : KubeObject → Option ConfigMapAnalysis
analyze_config_map o = do
  data_keys ← parse_key_field (field_at o (lit "data" ∷ []))
  binary_keys ← parse_key_field (field_at o (lit "binaryData" ∷ []))
  immutable ← immutable_value (field_at o (lit "immutable" ∷ []))
  guard (leb (length data_keys + length binary_keys) max_config_map_entries)
  guard (not (sets_overlap data_keys binary_keys))
  some (record { data_keys = data_keys; binary_keys = binary_keys; immutable = immutable })

unfoldable pub upload_config_map_status : KubeObject → Text
upload_config_map_status o = elim (analyze_config_map o) [
  | none ↦ lit "warning"
  | some a ↦ lit "healthy"
]

abbrev pub config_map_entries : Option ConfigMapAnalysis → Dict SummaryValue
config_map_entries none =
    map (λ k. (k, text (lit "invalid")))
      (lit "keys" ∷ lit "dataKeys" ∷ lit "binaryKeys" ∷ lit "immutable" ∷ [])
config_map_entries (some a) =
    (lit "keys", number (whole (length a.data_keys + length a.binary_keys)))
    ∷ (lit "dataKeys", number (whole (length a.data_keys)))
    ∷ (lit "binaryKeys", number (whole (length a.binary_keys)))
    ∷ (lit "immutable", elim a.immutable [ none ↦ text (lit "unset") | some b ↦ boolean b ])
    ∷ []

unfoldable pub upload_config_map_summary : KubeObject → Dict SummaryValue
upload_config_map_summary o = config_map_entries (analyze_config_map o)

keys_from-AreNew :
    (seen : List Text) (es : Dict Value) (ks : List Text)
    → keys_from seen es ≡ some ks
    → AreNew seen ks
unfolding keys_from
keys_from-AreNew seen [] ks h = along_some (AreNew seen) h tt
keys_from-AreNew seen ((k, v) ∷ es) ks h =
    let (fits, h1) =
      guard-eq-some (valid_config_map_key k && is_string_value v && not (has k seen)) _ h in
    let (rest, others, h2) = >>=-eq-some (keys_from (k ∷ seen) es) _ h1 in
    along_some (AreNew seen) h2 (ground arith, keys_from-AreNew (k ∷ seen) es rest others)

parse_key_field-Distinct : (v : Value) (ks : List Text) → parse_key_field v ≡ some ks → Distinct ks
unfolding parse_key_field
parse_key_field-Distinct (obj fs) ks h =
    let (few, rest) = guard-eq-some (leb (length (entries fs)) max_config_map_entries) _ h in
    AreNew-Distinct [] ks (keys_from-AreNew [] (entries fs) ks rest)
parse_key_field-Distinct undefined ks h = along_some Distinct h tt
parse_key_field-Distinct null ks h = along_some Distinct h tt
parse_key_field-Distinct (bool b) ks h = absurd (ground arith)
parse_key_field-Distinct (num n) ks h = absurd (ground arith)
parse_key_field-Distinct (str s) ks h = absurd (ground arith)
parse_key_field-Distinct (arr vs) ks h = absurd (ground arith)

any-has-false :
    (xs ys : List Text)
    → any (λ k. has k ys) xs ≡ false
    → Distinct xs
    → Distinct ys
    → Distinct (xs ++ ys)
unfolding any
any-has-false [] ys h d e = e
any-has-false (x ∷ xs) ys h d e =
    (ground (arith, has-append x xs ys), any-has-false xs ys (ground arith) d.1 e)

-- The keys of a valid config map, of texts and of binary data together, are distinct and at most
-- 4096: so the count that its node shows is that of different keys.
pub analyze_config_map-Distinct :
    (o : KubeObject) (a : ConfigMapAnalysis)
    → analyze_config_map o ≡ some a
    → Distinct (a.data_keys ++ a.binary_keys)
      × (length a.data_keys + length a.binary_keys ≤ max_config_map_entries)
unfolding analyze_config_map sets_overlap
analyze_config_map-Distinct o a h =
    let (ks, some_keys, h1) = >>=-eq-some (parse_key_field (field_at o (lit "data" ∷ []))) _ h in
    let (bs, some_binary, h2) =
      >>=-eq-some (parse_key_field (field_at o (lit "binaryData" ∷ []))) _ h1 in
    let (i, _, h3) = >>=-eq-some (immutable_value (field_at o (lit "immutable" ∷ []))) _ h2 in
    let (few, h4) = guard-eq-some (leb (length ks + length bs) max_config_map_entries) _ h3 in
    let (apart, h5) = guard-eq-some (not (sets_overlap ks bs)) _ h4 in
    along_some
      (λ (a : ConfigMapAnalysis).
        Distinct (a.data_keys ++ a.binary_keys)
        × (length a.data_keys + length a.binary_keys ≤ max_config_map_entries))
      h5
      (
        any-has-false ks bs (ground arith) (parse_key_field-Distinct _ ks some_keys)
            (parse_key_field-Distinct _ bs some_binary),
        leb→le (length ks + length bs) max_config_map_entries few,
      )
