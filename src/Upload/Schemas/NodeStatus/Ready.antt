-- ===== src/Upload/Schemas/NodeStatus/Ready.antt =====
-- When an uploaded node counts as healthy.
use kuviewer.Base.{
  ◌≡◌, refl, Bool, true, false, not, ◌&&◌, ◌||◌, Option, none, some, List, [], ◌∷◌, map, Text, lit,
  text_eq, text_eq_iff, has, all, any, arith, Bool-cases, inl, inr, >>=-eq-some, guard-eq-some,
  along_some, if◌then◌else◌,
}
use kuviewer.Base.Sets.{Distinct, AreNew, AreNew-Distinct}
use kuviewer.Json.{Value, undefined, null, bool, num, str, arr, obj, Fields, at, read_at}
use kuviewer.Upload.Object.{KubeObject, field_at}
use kuviewer.Upload.Schemas.Images.{record_array}
use kuviewer.Upload.Schemas.NodeStatus.{
  NodeCondition, node_condition, node_conditions_from, parse_node_conditions,
  max_node_condition_entries, parse_node_resource_list, parse_node_system_info,
  condition_type_pattern, valid_pod_allocation,
}
use kuviewer.Upload.Schemas.NodeStatus.Analysis.{
  NodeStatusAnalysis, is_ready_condition, observed_node_status, analyze_node_status,
  analyzed_node_status, upload_node_status, invalid_node_status_analysis, analyze_status,
  node_status_observed,
}

abbrev pub condition_types_of : List NodeCondition → List Text
condition_types_of cs = map (λ (c : NodeCondition). c.type) cs

-- A condition that does not deny that the node is ready.
abbrev pub agrees_ready : NodeCondition → Bool
agrees_ready c = not (text_eq c.type (lit "Ready")) || text_eq c.status (lit "True")

node_condition-new :
    (seen : List Text) (t s : Value) (c : NodeCondition)
    → node_condition seen t s ≡ some c
    → has c.type seen ≡ false
node_condition-new seen (str t) (str s) c h =
    elim (Bool-cases (
      condition_type_pattern t
      && not (has t seen)
      && has s (lit "True" ∷ lit "False" ∷ lit "Unknown" ∷ []))) [
        | inl good ↦
            along_some (λ (c : NodeCondition). has c.type seen ≡ false) (rw good at h)
              (ground arith)
        | inr bad ↦ absurd (ground (arith, rw bad at h))
      ]
node_condition-new seen _ _ c h = absurd (ground arith)

node_conditions_from-AreNew :
    (seen : List Text) (fss : List Fields) (cs : List NodeCondition)
    → node_conditions_from seen fss ≡ some cs
    → AreNew seen (condition_types_of cs)
unfolding node_conditions_from
node_conditions_from-AreNew seen [] cs h =
    along_some (λ (cs : List NodeCondition). AreNew seen (condition_types_of cs)) h tt
node_conditions_from-AreNew seen (fs ∷ rest) cs h =
    let (c, first, h1) =
      >>=-eq-some (node_condition seen (at fs (lit "type")) (at fs (lit "status"))) _ h in
    let (ds, others, h2) = >>=-eq-some (node_conditions_from (c.type ∷ seen) rest) _ h1 in
    along_some (λ (cs : List NodeCondition). AreNew seen (condition_types_of cs)) h2
      (
        node_condition-new seen (at fs (lit "type")) (at fs (lit "status")) c first,
        node_conditions_from-AreNew (c.type ∷ seen) rest ds others,
      )

-- The types of the conditions are distinct.
parse_node_conditions-Distinct :
    (v : Value) (cs : List NodeCondition)
    → parse_node_conditions v ≡ some cs
    → Distinct (condition_types_of cs)
unfolding parse_node_conditions
parse_node_conditions-Distinct v cs h =
    let (fss, _, from) = >>=-eq-some (record_array v max_node_condition_entries) _ h in
    AreNew-Distinct [] (condition_types_of cs) (node_conditions_from-AreNew [] fss cs from)

any-ready-has :
    (cs : List NodeCondition)
    → any is_ready_condition cs ≡ true
    → has (lit "Ready") (condition_types_of cs) ≡ true
unfolding any has
any-ready-has [] h = absurd (ground arith)
any-ready-has (c ∷ cs) h = ground (arith, any-ready-has cs)

all-agrees_ready :
    (cs : List NodeCondition)
    → has (lit "Ready") (condition_types_of cs) ≡ false
    → all agrees_ready cs ≡ true
unfolding all has
all-agrees_ready [] h = refl
all-agrees_ready (c ∷ cs) h = ground (arith, all-agrees_ready cs)

-- If one condition says that the node is ready and no type occurs twice, none denies it.
any-ready-all :
    (cs : List NodeCondition)
    → Distinct (condition_types_of cs)
    → any is_ready_condition cs ≡ true
    → all agrees_ready cs ≡ true
unfolding any all has
any-ready-all [] d h = refl
any-ready-all (c ∷ cs) d h = elim (Bool-cases (text_eq c.type (lit "Ready"))) [
  | inl ready ↦
      let same : c.type ≡ lit "Ready" = ground (arith, text_eq_iff c.type (lit "Ready")) in
      let others : has (lit "Ready") (condition_types_of cs) ≡ false = rw (← same) d.0 in
      ground (arith, all-agrees_ready cs others, any-ready-has cs)
  | inr other ↦ ground (arith, any-ready-all cs d.1)
]

state_of-healthy :
    (observed good : Bool)
    → (if not observed then lit "unknown" else if good then lit "healthy" else lit "warning")
      ≡ lit "healthy"
    → (observed ≡ true) × (good ≡ true)
unfolding lit
state_of-healthy true true h = (refl, refl)
state_of-healthy true false h = absurd (ground arith)
state_of-healthy false good h = absurd (ground arith)

observed_node_status-ready :
    (status : Fields) (a : NodeStatusAnalysis)
    → observed_node_status status ≡ some a
    → (cs : List NodeCondition) × (parse_node_conditions (at status (lit "conditions")) ≡ some cs)
      × (a.ready ≡ any is_ready_condition cs)
unfolding observed_node_status
observed_node_status-ready status a h =
    let (m, _, h1) = >>=-eq-some (parse_node_resource_list (at status (lit "capacity"))) _ h in
    let (n, _, h2) = >>=-eq-some (parse_node_resource_list (at status (lit "allocatable"))) _ h1 in
    let (cs, parsed, h3) =
      >>=-eq-some (parse_node_conditions (at status (lit "conditions"))) _ h2 in
    let (info, _, h4) = >>=-eq-some (parse_node_system_info (at status (lit "nodeInfo"))) _ h3 in
    let (fits, h5) = guard-eq-some (valid_pod_allocation m n) _ h4 in
    (
      cs,
      parsed,
      along_some (λ (a : NodeStatusAnalysis). a.ready ≡ any is_ready_condition cs) h5 refl,
    )

abbrev HasReady : Value → Type 0
HasReady v =
    (cs : List NodeCondition) × (parse_node_conditions v ≡ some cs)
    × (any is_ready_condition cs ≡ true)
    × (all agrees_ready cs ≡ true)

observed_status-healthy :
    (status : Fields) (r : Option NodeStatusAnalysis)
    → observed_node_status status ≡ r
    → analyzed_node_status (elim r [ none ↦ invalid_node_status_analysis | some a ↦ a ])
      ≡ lit "healthy"
    → HasReady (at status (lit "conditions"))
unfolding invalid_node_status_analysis
observed_status-healthy status none e h = absurd (ground (arith, state_of-healthy true false h))
observed_status-healthy status (some a) e h =
    let (cs, parsed, same) = observed_node_status-ready status a e in
    let good = (state_of-healthy a.observed (a.valid && a.ready) h).1 in
    let some_ready : any is_ready_condition cs ≡ true = ground (arith, same, good) in
    (
      cs,
      parsed,
      some_ready,
      any-ready-all cs (parse_node_conditions-Distinct (at status (lit "conditions")) cs parsed)
          some_ready,
    )

analyze_status-healthy :
    (v : Value)
    → analyzed_node_status (analyze_status v) ≡ lit "healthy"
    → HasReady (read_at v (lit "conditions" ∷ []))
unfolding analyze_status read_at invalid_node_status_analysis
analyze_status-healthy (obj status) h = elim (Bool-cases (node_status_observed status)) [
  | inl seen ↦ observed_status-healthy status (observed_node_status status) refl (rw seen at h)
  | inr unseen ↦ absurd (ground (arith, state_of-healthy false false (rw unseen at h)))
]
analyze_status-healthy undefined h = absurd (ground (arith, state_of-healthy false false h))
analyze_status-healthy null h = absurd (ground (arith, state_of-healthy false false h))
analyze_status-healthy (bool b) h = absurd (ground (arith, state_of-healthy true false h))
analyze_status-healthy (num n) h = absurd (ground (arith, state_of-healthy true false h))
analyze_status-healthy (str s) h = absurd (ground (arith, state_of-healthy true false h))
analyze_status-healthy (arr vs) h = absurd (ground (arith, state_of-healthy true false h))

-- A node of an upload is shown as healthy only if the conditions in its status can be read, one of
-- them says that the node is ready, and none of type Ready says otherwise.
pub upload_node_status-healthy :
    (o : KubeObject)
    → upload_node_status o ≡ lit "healthy"
    → (cs : List NodeCondition) × (parse_node_conditions
          (field_at o (lit "status" ∷ lit "conditions" ∷ []))
        ≡ some cs)
      × (any is_ready_condition cs ≡ true)
      × (all agrees_ready cs ≡ true)
unfolding upload_node_status analyze_node_status field_at read_at
upload_node_status-healthy o h = analyze_status-healthy (at o (lit "status")) h
