-- ===== src/SafeMetadata.antt =====
-- website/src/utils/safeMetadata.ts: what must not be shown, and its redaction.
use kuviewer.Base.{
  ◌≡◌, Bool, false, ◌||◌, List, [], ◌∷◌, map, any, if◌then◌else◌, Text, lit, includes, All, arith,
  ◌⊎◌, inl, inr, Bool-cases,
}
use kuviewer.Base.Dict.{Dict, from_entries, All-insert_all}
use kuviewer.Platform.{Platform}

unfoldable pub sensitive_words : List Text
sensitive_words =
    lit "token"
    ∷ lit "password"
    ∷ lit "secret"
    ∷ lit "credential"
    ∷ lit "apikey"
    ∷ lit "api-key"
    ∷ lit "accesskey"
    ∷ lit "access-key"
    ∷ lit "private-key"
    ∷ lit "client-key"
    ∷ []

module _ (js : Platform) where
  open js use {lower}

  unfoldable pub sensitive_field : Text → Bool
  sensitive_field value = any (λ word. includes (lower value) word) sensitive_words

  abbrev pub safe_annotation : Text × Text → Text × Text
  safe_annotation e =
      (e.0, if sensitive_field e.0 || sensitive_field e.1 then lit "redacted" else e.1)

  unfoldable pub safe_annotations : Dict Text → Dict Text
  safe_annotations values = from_entries (map safe_annotation values)

  -- Redacted, or neither the key nor the value is sensitive.
  abbrev pub IsRedacted : Text × Text → Type 0
  IsRedacted e =
      (e.1 ≡ lit "redacted") ⊎ ((sensitive_field e.0 ≡ false) × (sensitive_field e.1 ≡ false))

  safe_annotation-IsRedacted : (e : Text × Text) → IsRedacted (safe_annotation e)
  safe_annotation-IsRedacted (k, v) = elim (Bool-cases (sensitive_field k || sensitive_field v)) [
    | inl found ↦ inl (rw found)
    | inr clean ↦ inr (ground arith, rw clean (ground arith))
  ]

  map-safe_annotation-IsRedacted : (m : Dict Text) → All IsRedacted (map safe_annotation m)
  map-safe_annotation-IsRedacted [] = tt
  map-safe_annotation-IsRedacted (e ∷ m) =
      (safe_annotation-IsRedacted e, map-safe_annotation-IsRedacted m)

  pub safe_annotations-IsRedacted : (m : Dict Text) → All IsRedacted (safe_annotations m)
  unfolding safe_annotations
  safe_annotations-IsRedacted m =
      All-insert_all IsRedacted [] (map safe_annotation m) tt (map-safe_annotation-IsRedacted m)
