-- ===== src/Upload/Collect.antt =====
-- The files of an upload: `collectObject`, `isManifestName`, `parseManifestText` and the options, of
-- parseKubernetesFiles.ts.
pub mod Named
pub mod Files
pub mod ClusterId
use kuviewer.Base.{
  ℕ, Bool, true, false, ◌&&◌, ◌||◌, not, Option, none, some, List, [], ◌∷◌, ◌++◌, reverse, ◌==◌,
  if◌then◌else◌, Text, lit, truthy, or_text, text_eq, trim, starts_with, ◌⊎◌, inl, inr, map,
  flat_map, ◌>>=◌, ◌+◌,
}
use kuviewer.Json.{Value, arr, obj, Items, nil, cons, Fields, end, field, at, entries}
use kuviewer.Base.Dict.{Dict}
use kuviewer.Base.Number.{Number}
use kuviewer.Platform.{Platform}
use kuviewer.Topology.Types.{TopologySnapshot}
use kuviewer.Upload.Graph.{for_each}
use kuviewer.Upload.Graph.Build.{UploadOptions, build_snapshot_from_kubernetes_objects}
use kuviewer.Upload.Graph.Schemas.{Schemas}
use kuviewer.Upload.Names.{is_upper, is_lower_alnum}
use kuviewer.Upload.Object.{KubeObject, object_kind, is_named}
use kuviewer.Upload.Values.{ends_with}

abbrev pub is_array : Value → Bool
is_array (arr vs) = true
is_array _ = false

-- `object.kind === 'List' && Array.isArray(object.items)`.
unfoldable pub is_object_list : Fields → Bool
is_object_list fs = text_eq (object_kind fs) (lit "List") && is_array (at fs (lit "items"))

-- An object alone: kept where it has a kind and a name.
abbrev pub collect_one : Fields → List KubeObject
collect_one fs = if is_named fs then fs ∷ [] else []

-- The source leaves the values of a ConfigMap out of the object that it keeps, and remembers with it
-- the analysis of the whole, which is all that it reads of them; here the object stays whole.
-- `collectObject` returns what the source pushes. `items` is found by walking over the fields, so
-- that the recursion is on the value itself; the first field of the name is the one that `at` gives.
unfoldable mutual
  pub collect_object : Value → List KubeObject
  collect_object (obj fs) = elim (is_object_list fs) [
    | true ↦ collect_items_of fs
    | false ↦ collect_one fs
  ]
  collect_object _ = []

  pub collect_items_of : Fields → List KubeObject
  collect_items_of end = []
  collect_items_of (field k (arr vs) fs) =
      if text_eq k (lit "items") then collect_all vs else collect_items_of fs
  collect_items_of (field k v fs) = if text_eq k (lit "items") then [] else collect_items_of fs

  pub collect_all : Items → List KubeObject
  collect_all nil = []
  collect_all (cons v vs) = collect_object v ++ collect_all vs

-- The case folding of a regular expression with the flag i, which maps no other unit to a letter
-- of ASCII.
abbrev pub fold_ascii : ℕ → ℕ
fold_ascii c = if is_upper c then c + 32 else c

-- `/\.(ya?ml|json)$/i`.
unfoldable pub is_manifest_name : Text → Bool
is_manifest_name name =
    let s = map fold_ascii name in
    ends_with (lit ".yml") s || ends_with (lit ".yaml") s || ends_with (lit ".json") s

-- The packages that read files: an archive's entries as texts, none where it throws; a document or
-- the message of the error.
pub record Packages : Type 0 where
  pub unzip : List ℕ → Option (Dict Text)
  pub parse_json : Text → Text ⊎ Value
  pub load_all : Text → Text ⊎ List Value

pub record UploadFile : Type 0 where
  pub name : Text
  pub bytes : List ℕ
  pub content : Text

-- What `parseKubernetesFiles` gathers before it builds the snapshot.
pub record Parsing : Type 0 where
  pub objects : List KubeObject
  pub files : List Text
  pub warnings : List Text

module _ (js : Platform) (packages : Packages) where
  -- The documents of a manifest, or the message.
  abbrev pub documents : Text → Text → Text ⊎ List Value
  documents content filename =
      if ends_with (lit ".json") (js.lower filename)
      then elim (packages.parse_json content) [ inl e ↦ inl e | inr v ↦ inr (v ∷ []) ]
      else packages.load_all content

  -- The objects of a manifest, and the warning where it cannot be parsed.
  unfoldable pub parse_manifest_text : Text → Text → List KubeObject × List Text
  parse_manifest_text content filename = elim (documents content filename) [
    | inl message ↦ ([], (filename ++ (lit ": " ++ message)) ∷ [])
    | inr values ↦ (flat_map collect_object values, [])
  ]

  unfoldable pub add_manifest : Text → Text → Parsing → Parsing
  add_manifest filename content p =
      let (objects, warnings) = parse_manifest_text content filename in
      record {
        objects = p.objects ++ objects;
        files = p.files ++ (filename ∷ []);
        warnings = p.warnings ++ warnings;
      }

  abbrev pub add_archived : Text → Parsing → Text × Text → Parsing
  add_archived archive p (name, content) =
      if is_manifest_name name then add_manifest (archive ++ (b'/' ∷ name)) content p else p

  unfoldable pub add_file : Parsing → UploadFile → Option Parsing
  add_file p file =
      if ends_with (lit ".zip") (js.lower file.name)
      then (packages.unzip file.bytes >>= λ entries.
          some (for_each (add_archived file.name) p entries))
      else if is_manifest_name file.name
      then some (add_manifest file.name file.content p)
      else some (record p {
        warnings = p.warnings ++ ((lit "Skipped unsupported file: " ++ file.name) ∷ []);
      })

  unfoldable pub add_files : Parsing → List UploadFile → Option Parsing
  add_files p [] = some p
  add_files p (file ∷ files) = add_file p file >>= λ q. add_files q files

abbrev pub default_uploaded_cluster : Text
default_uploaded_cluster = lit "uploaded-bundle"

-- `[a-z0-9._-]`.
abbrev pub is_id_char : ℕ → Bool
is_id_char c = is_lower_alnum c || c == b'.' || c == b'_' || c == b'-'

-- `.replace(/[^a-z0-9._-]+/g, '-')`: a dash for each run of other characters; the flag says whether
-- a run is on.
unfoldable pub dash_runs : Bool → Text → Text
dash_runs on [] = []
dash_runs on (c ∷ s) =
    let kept = c ∷ dash_runs false s in
    let run = dash_runs true s in if is_id_char c then kept else if on then run else b'-' ∷ run

unfoldable pub drop_dashes : Text → Text
drop_dashes [] = []
drop_dashes (c ∷ s) = if c == b'-' then drop_dashes s else c ∷ s

-- `.replace(/^-+|-+$/g, '')`.
unfoldable pub strip_dashes : Text → Text
strip_dashes s = reverse (drop_dashes (reverse (drop_dashes s)))

unfoldable pub normalize_cluster_id : Platform → Text → Text
normalize_cluster_id js value =
    or_text (strip_dashes (dash_runs false (js.lower (trim value)))) default_uploaded_cluster

abbrev pub text_of_option : Option Text → Text
text_of_option none = []
text_of_option (some s) = s

unfoldable pub normalize_upload_options : Platform → Option Text → Option Text → UploadOptions
normalize_upload_options js cluster_id cluster_name =
    let name = or_text (trim (text_of_option cluster_name)) default_uploaded_cluster in
    record {
      cluster_name = name;
      cluster_id = normalize_cluster_id js (or_text (text_of_option cluster_id) name);
    }

pub record UploadedTopologyState : Type 0 where
  pub snapshot : TopologySnapshot
  pub files : List Text
  pub warnings : List Text
  pub loaded_at : Number

-- The whole upload; none where an archive cannot be opened. The source also rejects an upload where
-- building throws on an object with a field of another type than `KubeObject` gives it, as
-- `ownerReferences` that is no array; such a field counts as missing here.
unfoldable pub parse_kubernetes_files :
    Platform
    → Packages
    → Schemas
    → List UploadFile
    → Option Text
    → Option Text
    → Number
    → Option UploadedTopologyState
parse_kubernetes_files js packages s files cluster_id cluster_name now = do
  p ← add_files js packages (record { objects = []; files = []; warnings = [] }) files
  let built =
      build_snapshot_from_kubernetes_objects js s p.objects p.warnings
        (normalize_upload_options js cluster_id cluster_name)
  some (record { snapshot = built.0; files = p.files; warnings = built.1; loaded_at = now })
