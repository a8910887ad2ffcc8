-- ===== src/Upload/Collect/Files.antt =====
-- When the files of an upload can be read, and which manifests are in them.
use kuviewer.Base.{
  ◌≡◌, refl, sym, ap, ◌∙◌, Bool, not, ◌||◌, Option, none, some, List, [], ◌∷◌, ◌++◌, map, filter,
  flat_map, Text, lit, all, arith, Bool-cases, Option-cases, inl, inr, append-nil, append_assoc,
  if◌then◌else◌, along_some, ◌>>=◌,
}
use kuviewer.Base.Dict.{Dict}
use kuviewer.Platform.{Platform}
use kuviewer.Upload.Collect.{
  Packages, UploadFile, Parsing, is_manifest_name, add_manifest, add_archived, add_file, add_files,
}
use kuviewer.Upload.Graph.{for_each}
use kuviewer.Upload.LabelSelector.{is_some}
use kuviewer.Upload.Values.{ends_with}

-- The file is no archive, or the package opens it.
unfoldable pub opens : Platform → Packages → UploadFile → Bool
opens js packages file =
    not (ends_with (lit ".zip") (js.lower file.name)) || is_some (packages.unzip file.bytes)

abbrev pub entries_or_none : Option (Dict Text) → Dict Text
entries_or_none none = []
entries_or_none (some es) = es

module _ (js : Platform) (packages : Packages) where
  add_file-is_some :
      (p : Parsing) (file : UploadFile)
      → is_some (add_file js packages p file) ≡ opens js packages file
  unfolding add_file opens
  add_file-is_some p file = elim (Bool-cases (ends_with (lit ".zip") (js.lower file.name))) [
    | inl archive ↦ elim (Option-cases (packages.unzip file.bytes)) [
      | inl e ↦ rw (archive, e, add_file, opens) refl
      | inr (es, e) ↦ rw (archive, e, add_file, opens) refl
    ]
    | inr plain ↦ elim (Bool-cases (is_manifest_name file.name)) [
      | inl manifest ↦ rw (plain, manifest, add_file, opens) refl
      | inr other ↦ rw (plain, other, add_file, opens) refl
    ]
  ]

  -- The names of the manifests in a file: the file itself, or those of an archive.
  abbrev pub manifest_names : UploadFile → List Text
  manifest_names file =
      if ends_with (lit ".zip") (js.lower file.name)
      then map (λ e. file.name ++ (b'/' ∷ e.0))
          (filter (λ e. is_manifest_name e.0) (entries_or_none (packages.unzip file.bytes)))
      else if is_manifest_name file.name
      then file.name ∷ []
      else []

  add_manifest-files :
      (filename content : Text) (p : Parsing)
      → (add_manifest js packages filename content p).files ≡ p.files ++ (filename ∷ [])
  unfolding add_manifest
  add_manifest-files filename content p = refl

  add_archived-files :
      (archive : Text) (es : Dict Text) (p : Parsing)
      → (for_each (add_archived js packages archive) p es).files
        ≡ p.files ++ map (λ e. archive ++ (b'/' ∷ e.0)) (filter (λ e. is_manifest_name e.0) es)
  unfolding for_each filter
  add_archived-files archive [] p = sym (append-nil p.files)
  add_archived-files archive ((name, content) ∷ es) p =
      let q = add_archived js packages archive p (name, content) in
      add_archived-files archive es q ∙ elim (Bool-cases (is_manifest_name name)) [
        | inl manifest ↦
            rw (manifest, add_manifest-files (archive ++ (b'/' ∷ name)) content p)
              (append_assoc p.files ((archive ++ (b'/' ∷ name)) ∷ []) _)
        | inr other ↦ rw other refl
      ]

  add_file-files :
      (p q : Parsing) (file : UploadFile)
      → add_file js packages p file ≡ some q
      → q.files ≡ p.files ++ manifest_names file
  unfolding add_file
  add_file-files p q file h = elim (Bool-cases (ends_with (lit ".zip") (js.lower file.name))) [
    | inl archive ↦ elim (Option-cases (packages.unzip file.bytes)) [
      | inl e ↦ absurd (ground (arith, rw (archive, e, add_file) at h))
      | inr (es, e) ↦
          rw (archive, e)
            (along_some
              (λ (r : Parsing).
                r.files
                ≡ p.files
                  ++ map (λ e. file.name ++ (b'/' ∷ e.0)) (filter (λ e. is_manifest_name e.0) es))
              (rw (archive, e, add_file) at h) (add_archived-files file.name es p))
    ]
    | inr plain ↦ elim (Bool-cases (is_manifest_name file.name)) [
      | inl manifest ↦
          rw (plain, manifest)
            (along_some (λ (r : Parsing). r.files ≡ p.files ++ (file.name ∷ []))
              (rw (plain, manifest, add_file) at h) (add_manifest-files file.name file.content p))
      | inr other ↦
          rw (plain, other)
            (along_some (λ (r : Parsing). r.files ≡ p.files ++ [])
              (rw (plain, other, add_file) at h) (sym (append-nil p.files)))
    ]
  ]

  -- The reading of the files of an upload, before anything is built of their objects. It succeeds
  -- exactly where every archive opens; then the manifests that it names are those of the files, in
  -- their order and those of an archive under its name, whether or not they can be parsed.
  pub add_files-manifests :
      (files : List UploadFile) (p : Parsing)
      → (add_files js packages p files >>= λ (q : Parsing). some q.files) ≡ (
          if all (opens js packages) files
          then some (p.files ++ flat_map manifest_names files)
          else none)
  unfolding add_files all flat_map
  add_files-manifests [] p = ap some (sym (append-nil p.files))
  add_files-manifests (file ∷ files) p = elim (Option-cases (add_file js packages p file)) [
    | inl e ↦ rw (← (add_file-is_some p file), e) refl
    | inr (q, e) ↦
        rw (← (add_file-is_some p file), e)
          (add_files-manifests files q
            ∙ rw
                (
                  add_file-files p q file e,
                  append_assoc p.files (manifest_names file) (flat_map manifest_names files),
                )
                refl)
  ]
