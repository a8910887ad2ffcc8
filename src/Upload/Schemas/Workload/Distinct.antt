-- ===== src/Upload/Schemas/Workload/Distinct.antt =====
-- What is read of a pod template.
use kuviewer.Base.{
  ◌+◌, ◌≤◌, ◌<◌, ◌≡◌, refl, ap, sym, ◌∙◌, Bool, true, false, ◌&&◌, Option, none, some, List, [],
  ◌∷◌, ◌++◌, map, Text, lit, truthy, has, length, leb, ltb, if◌then◌else◌, arith, Bool-cases, inl,
  inr, >>=-eq-some, guard-eq-some, along_some, length-append,
}
use kuviewer.Base.Sets.{Distinct, add-new, add-Distinct, has-append}
use kuviewer.Json.{Value, undefined, null, bool, num, str, arr, obj, Fields, at, as_record}
use kuviewer.Upload.Graph.Schemas.{WorkloadReference}
use kuviewer.Upload.Object.{KubeObject, field_at}
use kuviewer.Upload.Schemas.Images.{record_array}
use kuviewer.Upload.Schemas.Workload.{
  References, reference_key, include, add_reference, valid_workload_name, Candidate, add_candidates,
  each_object, service_account, pull_secret, template_volume, template_env_from, template_env,
  collect_container_references, Gathered, add_container, add_containers, new_name, template_image,
  ParsedTemplate, parse_template, parse_pod_spec, template_references, template_of,
  workload_pod_spec_path, max_containers, max_container_entries,
}

abbrev pub reference_keys : List WorkloadReference → List Text
reference_keys rs = map reference_key rs

-- The seen keys are those of the references, none twice, and the references are at most 128.
pub record IsCollected (s : References) : Type 0 where
  pub few : length s.references ≤ 128
  pub distinct : Distinct (reference_keys s.references)
  pub seen_keys : (k : Text) → has k s.seen ≡ has k (reference_keys s.references)

keys-snoc :
    (rs : List WorkloadReference) (r : WorkloadReference)
    → reference_keys (rs ++ (r ∷ [])) ≡ reference_keys rs ++ (reference_key r ∷ [])
keys-snoc [] r = refl
keys-snoc (x ∷ rs) r = ap (◌∷◌ (reference_key x)) (keys-snoc rs r)

include-IsCollected :
    (r : WorkloadReference) (s t : References)
    → IsCollected s
    → include r s ≡ some t
    → IsCollected t
unfolding has
include-IsCollected r s t c h = elim (Bool-cases (has (reference_key r) s.seen)) [
  | inl old ↦ elim (Bool-cases (leb (length s.references) max_container_entries)) [
    | inl fits ↦ along_some IsCollected (rw (old, fits, include) at h) c
    | inr more ↦ absurd (ground (arith, rw (old, more, include) at h))
  ]
  | inr new ↦ elim (Bool-cases (leb (length s.references + 1) max_container_entries)) [
    | inr more ↦ absurd (ground (arith, rw (new, more, include) at h))
    | inl fits ↦
        let fresh = sym (c.seen_keys (reference_key r)) ∙ new in
        along_some IsCollected (rw (new, fits, include) at h) (record {
          few = ground (arith, length-append {0} s.references (r ∷ []));
          distinct =
              rw (keys-snoc s.references r, ← (add-new (reference_key r) _ fresh))
                (add-Distinct (reference_key r) _ c.distinct);
          seen_keys = λ k. rw (keys-snoc s.references r) (
              ground (
                arith,
                c.seen_keys k,
                has-append k (reference_keys s.references) (reference_key r ∷ []),
              ));
        })
  ]
]

add_reference-IsCollected :
    (kind : Text) (v : Value) (edge_type source_field : Text) (s t : References)
    → IsCollected s
    → add_reference kind v edge_type source_field s ≡ some t
    → IsCollected t
unfolding add_reference
add_reference-IsCollected kind (str name) edge_type source_field s t c h =
    elim (Bool-cases (valid_workload_name name)) [
      | inl valid ↦ include-IsCollected _ s t c (rw (valid, add_reference) at h)
      | inr other ↦ absurd (ground (arith, rw (other, add_reference) at h))
    ]
add_reference-IsCollected kind undefined edge_type source_field s t c h = absurd (ground arith)
add_reference-IsCollected kind null edge_type source_field s t c h = absurd (ground arith)
add_reference-IsCollected kind (bool b) edge_type source_field s t c h = absurd (ground arith)
add_reference-IsCollected kind (num n) edge_type source_field s t c h = absurd (ground arith)
add_reference-IsCollected kind (arr vs) edge_type source_field s t c h = absurd (ground arith)
add_reference-IsCollected kind (obj fs) edge_type source_field s t c h = absurd (ground arith)

add_candidates-IsCollected :
    (edge_type : Text) (cs : List Candidate) (s t : References)
    → IsCollected s
    → add_candidates edge_type cs s ≡ some t
    → IsCollected t
unfolding add_candidates
add_candidates-IsCollected edge_type [] s t c h = along_some IsCollected h c
add_candidates-IsCollected edge_type (d ∷ ds) s t c h =
    let (u, first, rest) =
      >>=-eq-some (add_reference d.kind d.name edge_type d.source_field s) _ h in
    add_candidates-IsCollected edge_type ds u t
      (add_reference-IsCollected d.kind d.name edge_type d.source_field s u c first) rest

each_object-IsCollected :
    (step : Fields → References → Option References)
    → ((fs : Fields) (s t : References) → IsCollected s → step fs s ≡ some t → IsCollected t)
    → (rest : List Fields) (s t : References) → IsCollected s
    → each_object step rest s ≡ some t
    → IsCollected t
unfolding each_object
each_object-IsCollected step keeps [] s t c h = along_some IsCollected h c
each_object-IsCollected step keeps (fs ∷ rest) s t c h =
    let (u, first, others) = >>=-eq-some (step fs s) _ h in
    each_object-IsCollected step keeps rest u t (keeps fs s u c first) others

-- A step that is refused unless a test holds.
guarded-IsCollected :
    (test : Bool) (m : Option References) (t : References)
    → (m ≡ some t → IsCollected t)
    → (if test then m else none) ≡ some t
    → IsCollected t
guarded-IsCollected true m t keeps h = keeps h
guarded-IsCollected false m t keeps h = absurd (ground arith)

refused-IsCollected :
    (test : Bool) (m : Option References) (t : References)
    → (m ≡ some t → IsCollected t)
    → (if test then none else m) ≡ some t
    → IsCollected t
refused-IsCollected true m t keeps h = absurd (ground arith)
refused-IsCollected false m t keeps h = keeps h

module _ (prefix : Text) where
  service_account-IsCollected :
      (v : Value) (s t : References)
      → IsCollected s
      → service_account prefix v s ≡ some t
      → IsCollected t
  service_account-IsCollected (str name) s t c h = elim (Bool-cases (truthy name)) [
    | inl named ↦
        add_reference-IsCollected _ (str name) _ _ s t c (rw (named, service_account) at h)
    | inr blank ↦ along_some IsCollected (rw (blank, service_account) at h) c
  ]
  service_account-IsCollected undefined s t c h = along_some IsCollected h c
  service_account-IsCollected null s t c h = along_some IsCollected h c
  service_account-IsCollected (bool b) s t c h = absurd (ground arith)
  service_account-IsCollected (num n) s t c h = absurd (ground arith)
  service_account-IsCollected (arr vs) s t c h = absurd (ground arith)
  service_account-IsCollected (obj fs) s t c h = absurd (ground arith)

  template_env-IsCollected :
      (fs : Fields) (v : Value) (s t : References)
      → at fs (lit "valueFrom") ≡ v
      → IsCollected s
      → template_env prefix fs s ≡ some t
      → IsCollected t
  template_env-IsCollected fs (obj gs) s t e c h =
      guarded-IsCollected _ _ t (add_candidates-IsCollected _ _ s t c) (rw (e, template_env) at h)
  template_env-IsCollected fs undefined s t e c h =
      along_some IsCollected (rw (e, template_env) at h) c
  template_env-IsCollected fs null s t e c h = along_some IsCollected (rw (e, template_env) at h) c
  template_env-IsCollected fs (bool b) s t e c h =
      absurd (ground (arith, rw (e, template_env) at h))
  template_env-IsCollected fs (num n) s t e c h = absurd (ground (arith, rw (e, template_env) at h))
  template_env-IsCollected fs (str u) s t e c h = absurd (ground (arith, rw (e, template_env) at h))
  template_env-IsCollected fs (arr vs) s t e c h =
      absurd (ground (arith, rw (e, template_env) at h))

  collect_container_references-IsCollected :
      (fs : Fields) (s t : References)
      → IsCollected s
      → collect_container_references prefix fs s ≡ some t
      → IsCollected t
  unfolding collect_container_references
  collect_container_references-IsCollected fs s t c h =
      let (from, _, h1) =
        >>=-eq-some (record_array (at fs (lit "envFrom")) max_container_entries) _ h in
      let (env, _, h2) =
        >>=-eq-some (record_array (at fs (lit "env")) max_container_entries) _ h1 in
      let (u, first, h3) = >>=-eq-some (each_object (template_env_from prefix) from s) _ h2 in
      each_object-IsCollected (template_env prefix)
        (λ fs s t c h. template_env-IsCollected fs (at fs (lit "valueFrom")) s t refl c h) env u t
        (each_object-IsCollected (template_env_from prefix)
          (λ fs s t c h. guarded-IsCollected _ _ t (add_candidates-IsCollected _ _ s t c) h) from s
          u c first)
        h3

  add_containers-IsCollected :
      (rest : List Fields) (g k : Gathered)
      → IsCollected g.found
      → add_containers prefix g rest ≡ some k
      → IsCollected k.found
  unfolding add_containers add_container
  add_containers-IsCollected [] g k c h = along_some (λ (k : Gathered). IsCollected k.found) h c
  add_containers-IsCollected (fs ∷ rest) g k c h =
      let (m, first, others) = >>=-eq-some (add_container prefix g fs) _ h in
      let (name, _, h1) = >>=-eq-some (new_name g.names (at fs (lit "name"))) _ first in
      let (image, _, h2) = >>=-eq-some (template_image (at fs (lit "image"))) _ h1 in
      let (found, e, h3) = >>=-eq-some (collect_container_references prefix fs g.found) _ h2 in
      add_containers-IsCollected rest m k
        (along_some (λ (k : Gathered). IsCollected k.found) h3
          (collect_container_references-IsCollected fs g.found found c e))
        others

template_references-IsCollected :
    (prefix : Text) (spec : Fields) (t : References)
    → template_references prefix spec ≡ some t
    → IsCollected t
unfolding template_references
template_references-IsCollected prefix spec t h =
    let (secrets, _, h1) =
      >>=-eq-some (record_array (at spec (lit "imagePullSecrets")) max_container_entries) _ h in
    let (volumes, _, h2) =
      >>=-eq-some (record_array (at spec (lit "volumes")) max_container_entries) _ h1 in
    let start : References = record { seen = []; references = [] } in
    let (r, e, h3) =
      >>=-eq-some (service_account prefix (at spec (lit "serviceAccountName")) start) _ h2 in
    let (r1, e1, h4) = >>=-eq-some (each_object (pull_secret prefix) secrets r) _ h3 in
    let c : IsCollected r =
      service_account-IsCollected prefix (at spec (lit "serviceAccountName")) start r
        (record { few = omega arith; distinct = tt; seen_keys = λ k. refl }) e in
    let c1 : IsCollected r1 =
      each_object-IsCollected (pull_secret prefix)
        (λ fs s t c h. add_reference-IsCollected _ (at fs (lit "name")) _ _ s t c h) secrets r r1 c
        e1 in
    each_object-IsCollected (template_volume prefix)
      (λ fs s t c h. refused-IsCollected _ _ t (add_candidates-IsCollected _ _ s t c) h) volumes r1
      t c1 h4

pub record IsTemplate (t : ParsedTemplate) : Type 0 where
  pub has_container : 0 < t.containers
  pub few_containers : t.containers + t.init_containers ≤ 64
  pub few_references : length t.references ≤ 128
  pub distinct_references : Distinct (reference_keys t.references)

parse_pod_spec-IsTemplate :
    (prefix : Text) (spec : Fields) (t : ParsedTemplate)
    → parse_pod_spec prefix spec ≡ some t
    → IsTemplate t
unfolding parse_pod_spec
parse_pod_spec-IsTemplate prefix spec t h =
    let (cs, _, h1) = >>=-eq-some (record_array (at spec (lit "containers")) max_containers) _ h in
    let (is, _, h2) =
      >>=-eq-some (record_array (at spec (lit "initContainers")) max_containers) _ h1 in
    let (fits, h3) =
      guard-eq-some (ltb 0 (length cs) && leb (length cs + length is) max_containers) _ h2 in
    let (r, e, h4) = >>=-eq-some (template_references prefix spec) _ h3 in
    let (g, e1, h5) =
      >>=-eq-some (add_containers prefix (record { names = []; images = []; found = r }) (is ++ cs))
        _ h4 in
    let c : IsCollected g.found =
      add_containers-IsCollected prefix (is ++ cs) (record { names = []; images = []; found = r }) g
        (template_references-IsCollected prefix spec r e) e1 in
    along_some IsTemplate {a = template_of cs is g} h5 (record {
      has_container = ground arith;
      few_containers = ground arith;
      few_references = c.few;
      distinct_references = c.distinct;
    })

-- A template that is read has one to 64 containers, with the init containers, and refers to at most
-- 128 things, each of them once for the same kind, name, edge and field.
pub parse_template-IsTemplate :
    (kind : Text) (o : KubeObject) (t : ParsedTemplate)
    → parse_template kind o ≡ some t
    → IsTemplate t
unfolding parse_template
parse_template-IsTemplate kind o t h =
    let (spec, _, h1) = >>=-eq-some (as_record (field_at o (workload_pod_spec_path kind))) _ h in
    parse_pod_spec-IsTemplate _ spec t h1
