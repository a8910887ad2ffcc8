-- ===== src/Upload/Schemas/Storage/Resources.antt =====
-- The resources that are read of a claim or a volume.
use kuviewer.Base.{
  ◌≤◌, ◌≡◌, refl, Bool, true, false, not, ◌&&◌, ◌||◌, some, [], Text, lit, truthy, length, leb,
  traverse, All, All-traverse, length-traverse, arith, Bool-cases, inl, inr, >>=-eq-some,
  guard-eq-some, along_some, leb→le,
}
use kuviewer.Base.Dict.{Dict, lookup, from_entries, All-insert_all, length-insert_all-le}
use kuviewer.Json.{Value, undefined, null, bool, num, str, arr, obj, entries}
use kuviewer.Upload.LabelSelector.{is_some}
use kuviewer.Upload.Schemas.Storage.{
  valid_label_key, valid_quantity, normalize_quantity, resource_entry, parse_resource_list,
  max_storage_resource_entries,
}

-- A resource has a valid key and a valid quantity.
abbrev pub IsResource : Text × Text → Type 0
IsResource e = (valid_label_key e.0 ≡ true) × (valid_quantity e.1 ≡ true)

pub record IsResourceList (required : Bool) (m : Dict Text) : Type 0 where
  pub resources : All IsResource m
  pub few : length m ≤ 32
  pub storage : (not required || is_some (lookup (lit "storage") m)) ≡ true

resource_entry-IsResource :
    (e : Text × Value) (d : Text × Text) → resource_entry e ≡ some d → IsResource d
resource_entry-IsResource (k, v) d h =
    elim (Bool-cases (
      valid_label_key k
      && truthy (normalize_quantity v)
      && valid_quantity (normalize_quantity v))) [
        | inl good ↦
            along_some IsResource (rw (good, resource_entry) at h) (ground arith, ground arith)
        | inr bad ↦ absurd (ground (arith, rw (bad, resource_entry) at h))
      ]

-- The resources that are read are at most 32, each with the key of a label and a quantity, and
-- storage is among them where it must be.
pub parse_resource_list-IsResourceList :
    (v : Value) (required : Bool) (m : Dict Text)
    → parse_resource_list v required ≡ some m
    → IsResourceList required m
unfolding parse_resource_list
parse_resource_list-IsResourceList (obj fs) required m h =
    let (few, h1) = guard-eq-some (leb (length (entries fs)) max_storage_resource_entries) _ h in
    let (es, all, h2) = >>=-eq-some (traverse resource_entry (entries fs)) _ h1 in
    let (there, h3) =
      guard-eq-some (not required || is_some (lookup (lit "storage") (from_entries es))) _ h2 in
    let same = length-traverse {0, 0} resource_entry (entries fs) all in
    let bound = length-insert_all-le {0} [] es in
    along_some (IsResourceList required) h3 (record {
      resources =
          All-insert_all IsResource [] es tt
            (All-traverse IsResource resource_entry (entries fs) resource_entry-IsResource all);
      few =
          ground
            (arith, same, bound, leb→le (length (entries fs)) max_storage_resource_entries few);
      storage = there;
    })
parse_resource_list-IsResourceList undefined true m h = absurd (ground arith)
parse_resource_list-IsResourceList undefined false m h =
    along_some (IsResourceList false) h
      (record { resources = tt; few = omega arith; storage = refl })
parse_resource_list-IsResourceList null true m h = absurd (ground arith)
parse_resource_list-IsResourceList null false m h =
    along_some (IsResourceList false) h
      (record { resources = tt; few = omega arith; storage = refl })
parse_resource_list-IsResourceList (bool b) required m h = absurd (ground arith)
parse_resource_list-IsResourceList (num n) required m h = absurd (ground arith)
parse_resource_list-IsResourceList (str s) required m h = absurd (ground arith)
parse_resource_list-IsResourceList (arr vs) required m h = absurd (ground arith)
