-- ===== src/Upload/Schemas/Images.antt =====
-- `validUploadContainerImage` and `recordArray` of website/src/features/upload/workloadSchema.ts.
use kuviewer.Base.{
  ℕ, Bool, true, false, not, ◌&&◌, ◌||◌, Option, none, some, List, [], ◌∷◌, Text, lit, text_eq,
  truthy, all, any, length, leb, ◌==◌, split, trim, includes, if◌then◌else◌, ◌>>◌, guard, traverse,
}
use kuviewer.Json.{Value, arr, Fields, items, is_nullish, as_record}
use kuviewer.Upload.Names.{is_alnum, is_lower_alnum, is_digit, bracketed}

-- `[a-z0-9]+(?:[+._-][a-z0-9]+)*`; the flag says that a run of letters or digits must begin.
unfoldable pub runs_form : Bool → Text → Bool
runs_form begin [] = not begin
runs_form begin (c ∷ s) =
    let within = runs_form false s in
    let after = runs_form true s in
    if is_lower_alnum c
    then within
    else not begin && (c == b'+' || c == b'.' || c == b'_' || c == b'-') && after

abbrev pub is_hex : ℕ → Bool
is_hex c = is_digit c || (leb b'a' c && leb c b'f') || (leb b'A' c && leb c b'F')

-- The algorithm and the digest: no colon stands in either.
abbrev pub digest_parts : List Text → Bool
digest_parts (algorithm ∷ digest ∷ []) =
    runs_form true algorithm
    && leb 32 (length digest)
    && leb (length digest) 128
    && all is_hex digest
digest_parts _ = false

-- `/^[a-z0-9]+(?:[+._-][a-z0-9]+)*:[A-Fa-f0-9]{32,128}$/`.
unfoldable pub digest_form : Text → Bool
digest_form s = digest_parts (split b':' s)

-- The length of the name is bounded by that of the image.
unfoldable pub image_name : Text → Bool
image_name s =
    bracketed is_alnum
      (λ c. is_alnum c || c == b'.' || c == b'_' || c == b':' || c == b'/' || c == b'-') s
    && not (includes s (lit "//"))
    && not (includes s (lit ".."))

abbrev pub image_parts : List Text → Bool
image_parts (name ∷ []) = image_name name
image_parts (name ∷ digest ∷ []) = digest_form digest && image_name name
image_parts _ = false

unfoldable pub valid_upload_container_image : Text → Bool
valid_upload_container_image s =
    truthy s
    && leb (length s) 512
    && text_eq (trim s) s
    && not (includes s (lit "://"))
    && not (any (λ c. c == b'=' || c == b'?' || c == b'#' || c == b'\\') s)
    && image_parts (split b'@' s)

-- An array of objects of at most so many, or none where the field is missing.
unfoldable pub record_array : Value → ℕ → Option (List Fields)
record_array (arr vs) limit = do
  guard (leb (length (items vs)) limit)
  traverse as_record (items vs)
record_array v limit = if is_nullish v then some [] else none
