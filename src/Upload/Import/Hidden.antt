-- ===== src/Upload/Import/Hidden.antt =====
-- What the summaries of imported nodes may show.
use kuviewer.Base.{
  ℕ, ◌≡◌, ◌≢◌, refl, ◌⊎◌, inl, inr, true, false, Option, none, some, List, [], ◌∷◌, arith, Text,
  lit, text_eq, text_eq_iff, has, take, flat_map, All, All-append, All-flat_map, get_elem?,
  Bool-cases, along_some, >>=-eq-some,
}
use kuviewer.Base.Dict.{Dict, lookup, from_entries, All-insert_all}
use kuviewer.Json.{Value, bool, num, str, obj, entries, at}
use kuviewer.Platform.{Platform}
use kuviewer.SafeMetadata.{sensitive_field}
use kuviewer.Topology.Types.{
  SummaryValue, text, number, boolean, texts, numbers, booleans, TopologyNode, TopologySnapshot,
  resource_kinds, resource_statuses,
}
use kuviewer.Upload.Import.Integrity.{import_topology_snapshot-node}
use kuviewer.Upload.Import.Snapshot.{sanitize_imported_node, import_topology_snapshot}
use kuviewer.Upload.Import.Summary.{
  secret_summary, hidden_key, redact, summary_entry, imported_summary_value,
  sanitize_imported_summary,
}
use kuviewer.Upload.Import.Values.{
  imported_string, imported_count, required_imported_string, member_of,
}

-- The only keys that the summary of a Secret has.
abbrev pub secret_keys : List Text
secret_keys = lit "values" ∷ lit "type" ∷ lit "keys" ∷ lit "referenced" ∷ []

abbrev pub IsSecretEntry : Text × SummaryValue → Type 0
IsSecretEntry e = has e.0 secret_keys ≡ true

-- A summary says that the values are hidden, and has no key but those of a Secret's summary.
abbrev pub IsSecretSummary : Dict SummaryValue → Type 0
IsSecretSummary m = (lookup (lit "values") m ≡ some (text (lit "hidden"))) × All IsSecretEntry m

secret_summary-IsSecretSummary : (v : Value) → IsSecretSummary (secret_summary v)
unfolding secret_summary lookup has lit text_eq
secret_summary-IsSecretSummary (obj fs) = (
  refl,
  (
    refl,
    All-append IsSecretEntry _ _ (type (at fs (lit "type"))) (
        All-append IsSecretEntry _ _ (keys (at fs (lit "keys")))
          (referenced (at fs (lit "referenced")))),
  ),
)
  where
    type :
        (v : Value)
        → All IsSecretEntry
            (elim v [ str s ↦ (lit "type", text (imported_string (str s) 160)) ∷ [] | _ ↦ [] ])
    type (str s) = (refl, tt)
    type _ = tt

    keys :
        (v : Value)
        → All IsSecretEntry
            (elim v [ num n ↦ (lit "keys", number (imported_count (num n))) ∷ [] | _ ↦ [] ])
    keys (num n) = (refl, tt)
    keys _ = tt

    referenced :
        (v : Value)
        → All IsSecretEntry (elim v [ bool b ↦ (lit "referenced", boolean b) ∷ [] | _ ↦ [] ])
    referenced (bool b) = (refl, tt)
    referenced _ = tt
secret_summary-IsSecretSummary _ = (refl, (refl, tt))

module _ (js : Platform) where
  -- A key that may be shown. A value that is one text holds no sensitive word or is the redaction
  -- mark; the texts of a list are not looked at.
  abbrev pub IsShown : Text × SummaryValue → Type 0
  IsShown (key, text s) =
      (hidden_key js key ≡ false) × ((s ≡ lit "redacted") ⊎ (sensitive_field js s ≡ false))
  IsShown (key, v) = hidden_key js key ≡ false

  redact-IsShown :
      (key : Text) (v : SummaryValue) → hidden_key js key ≡ false → IsShown (key, redact js v)
  redact-IsShown key (text s) h = elim (Bool-cases (sensitive_field js s)) [
    | inl found ↦ rw found (h, inl refl)
    | inr clean ↦ rw clean (h, inr clean)
  ]
  redact-IsShown key (number n) h = h
  redact-IsShown key (boolean b) h = h
  redact-IsShown key (texts ts) h = h
  redact-IsShown key (numbers ns) h = h
  redact-IsShown key (booleans bs) h = h

  summary_entry-IsShown : (e : Text × Value) → All IsShown (summary_entry js e)
  unfolding summary_entry
  summary_entry-IsShown (k, v) =
      let key = imported_string (str k) 160 in
      elim (Bool-cases (hidden_key js key)) [
        | inl hidden ↦ rw hidden tt
        | inr shown ↦ rw shown (value key shown (imported_summary_value v))
      ]
    where
      value :
          (key : Text)
          → hidden_key js key ≡ false
          → (o : Option SummaryValue)
          → All IsShown (elim o [ none ↦ [] | some w ↦ (key, redact js w) ∷ [] ])
      value key shown none = tt
      value key shown (some w) = (redact-IsShown key w shown, tt)

  sanitize_imported_summary-secret :
      (v : Value) (kind : Text)
      → kind ≡ lit "Secret"
      → IsSecretSummary (sanitize_imported_summary js v kind)
  unfolding sanitize_imported_summary
  sanitize_imported_summary-secret v kind e =
      rw ((text_eq_iff kind (lit "Secret")).1 e) (secret_summary-IsSecretSummary v)

  sanitize_imported_summary-IsShown :
      (v : Value) (kind : Text)
      → kind ≢ lit "Secret"
      → All IsShown (sanitize_imported_summary js v kind)
  unfolding sanitize_imported_summary
  sanitize_imported_summary-IsShown v kind differ =
      elim (Bool-cases (text_eq kind (lit "Secret"))) [
        | inl same ↦ absurd (differ ((text_eq_iff kind (lit "Secret")).0 same))
        | inr other ↦ rw other (shown v)
      ]
    where
      shown :
          (v : Value)
          → All IsShown (elim v [
            | obj fs ↦ from_entries (flat_map (summary_entry js) (take 100 (entries fs)))
            | _ ↦ []
          ])
      shown (obj fs) =
          All-insert_all IsShown [] _ tt
            (All-flat_map IsShown (summary_entry js) (take 100 (entries fs)) summary_entry-IsShown)
      shown _ = tt

  sanitize_imported_node-summary :
      (v : Value) (n : TopologyNode)
      → sanitize_imported_node js v ≡ some n
      → (w : Value) × (n.summary ≡ sanitize_imported_summary js w n.kind)
  unfolding sanitize_imported_node
  sanitize_imported_node-summary (obj fs) n h =
      let (kind, _, h1) = >>=-eq-some (member_of resource_kinds (at fs (lit "kind"))) _ h in
      let (status, _, h2) = >>=-eq-some (member_of resource_statuses (at fs (lit "status"))) _ h1 in
      let (id, _, h3) = >>=-eq-some (required_imported_string (at fs (lit "id")) 500) _ h2 in
      let (c, _, h4) = >>=-eq-some (required_imported_string (at fs (lit "clusterId")) 160) _ h3 in
      let (name, _, h5) = >>=-eq-some (required_imported_string (at fs (lit "name")) 253) _ h4 in
      along_some
        (λ (m : TopologyNode). (w : Value) × (m.summary ≡ sanitize_imported_summary js w m.kind)) h5
        (at fs (lit "summary"), refl)
  sanitize_imported_node-summary _ n h = absurd (ground arith)

module _ (js : Platform) (v : Value) {s : TopologySnapshot}
    (imported : import_topology_snapshot js v ≡ some s) (i : ℕ) {n : TopologyNode}
    (there : get_elem? s.nodes i ≡ some n) where
  -- The summary of every imported Secret says that its values are hidden, and has no key but
  -- values, type, keys and referenced.
  pub import_topology_snapshot-secret : n.kind ≡ lit "Secret" → IsSecretSummary n.summary
  import_topology_snapshot-secret e =
      let (w, from) =
        import_topology_snapshot-node _ js v imported (sanitize_imported_node-summary js) i there in
      rw from (sanitize_imported_summary-secret js w n.kind e)

  -- The summary of every other imported node has no key that is empty, sensitive or named data or
  -- stringData; and a value that is a single text, not a list of texts, holds no sensitive word
  -- unless it is the mark of a redacted one.
  pub import_topology_snapshot-IsShown : n.kind ≢ lit "Secret" → All (IsShown js) n.summary
  import_topology_snapshot-IsShown e =
      let (w, from) =
        import_topology_snapshot-node _ js v imported (sanitize_imported_node-summary js) i there in
      rw from (sanitize_imported_summary-IsShown js w n.kind e)
