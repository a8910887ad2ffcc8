-- ===== src/Snapshot/Compare/Same.antt =====
-- What a comparison does not report: a snapshot against itself, and the values of Secrets.
use kuviewer.Base.{
  ◌≡◌, refl, ap, true, false, List, [], ◌∷◌, arith, lit, text_eq_iff, text_eq_refl, All,
}
use kuviewer.Base.Dict.{Dict, keys}
use kuviewer.Base.Number.{Number, num_eq, dyadic, infinite, nan}
use kuviewer.Base.Sort.{sort_by}
use kuviewer.Platform.{Platform}
use kuviewer.Snapshot.Compare.{
  changed_cluster_fields, changed_edge_fields, cluster_change, node_change, changed_node_fields,
  compare_topology_snapshots, node_order, edge_order, cluster_order,
}
use kuviewer.Snapshot.Compare.Laws.{HasDistinctIds, edge_maker}
use kuviewer.Snapshot.Diff.Laws.{changes_self}
use kuviewer.Topology.Types.{
  SummaryValue, TopologyNode, TopologyEdge, ClusterSummary, TopologySnapshot,
}

-- A number that is not NaN, and so equal to itself.
abbrev pub IsNumber : Number → Type 0
IsNumber nan = ⊥
IsNumber _ = Unit

num_eq_refl : (a : Number) → IsNumber a → num_eq a a ≡ true
num_eq_refl nan h = absurd h
num_eq_refl (dyadic n k) h = ground arith
num_eq_refl (infinite true) h = refl
num_eq_refl (infinite false) h = refl

-- The counts of a cluster are numbers proper.
pub record HasCounts (c : ClusterSummary) : Type 0 where
  pub node_ready : IsNumber c.node_ready
  pub node_total : IsNumber c.node_total
  pub pod_running : IsNumber c.pod_running
  pub pod_warning : IsNumber c.pod_warning
  pub namespaces : IsNumber c.namespaces

changed_cluster_fields_self : (c : ClusterSummary) → HasCounts c → changed_cluster_fields c c ≡ []
unfolding changed_cluster_fields
changed_cluster_fields_self c h = simp (
  text_eq_refl,
  num_eq_refl c.node_ready h.node_ready,
  num_eq_refl c.node_total h.node_total,
  num_eq_refl c.pod_running h.pod_running,
  num_eq_refl c.pod_warning h.pod_warning,
  num_eq_refl c.namespaces h.namespaces,
)

changed_edge_fields_self : (e : TopologyEdge) → changed_edge_fields e e ≡ []
unfolding changed_edge_fields
changed_edge_fields_self e = simp text_eq_refl

changed_node_fields_self : (js : Platform) (n : TopologyNode) → changed_node_fields js n n ≡ []
unfolding changed_node_fields
changed_node_fields_self js n = simp text_eq_refl

All-of {ℓ} : {A : Type ℓ} (P : A → Type 0) (xs : List A) → ((x : A) → P x) → All P xs
All-of P [] h = tt
All-of P (x ∷ xs) h = (h x, All-of P xs h)

All-map {ℓ} :
    {A : Type ℓ} (P Q : A → Type 0) (xs : List A) → ((x : A) → P x → Q x) → All P xs → All Q xs
All-map P Q [] h a = tt
All-map P Q (x ∷ xs) h a = (h x a.0, All-map P Q xs h a.1)

-- A snapshot compared with itself shows no change, if its ids are distinct and no count is NaN.
pub compare_topology_snapshots_self :
    (js : Platform) (s : TopologySnapshot)
    → HasDistinctIds s
    → All HasCounts s.clusters
    → let r = compare_topology_snapshots js s s in
      (r.nodes ≡ []) × (r.edges ≡ []) × (r.clusters ≡ [])
unfolding compare_topology_snapshots sort_by
compare_topology_snapshots_self js s d h = (
  ap (sort_by (node_order js)) (
      changes_self (λ (n : TopologyNode). n.id) (changed_node_fields js) node_change s.nodes
        (All-of _ s.nodes (changed_node_fields_self js)) d.nodes),
  ap (sort_by (edge_order js)) (
      changes_self (λ (e : TopologyEdge). e.id) changed_edge_fields (edge_maker s s) s.edges
        (All-of _ s.edges changed_edge_fields_self) d.edges),
  ap (sort_by (cluster_order js)) (
      changes_self (λ (c : ClusterSummary). c.id) changed_cluster_fields cluster_change s.clusters
        (All-map HasCounts _ s.clusters changed_cluster_fields_self h) d.clusters),
)

-- The values in the summary of a Secret do not enter the comparison: with the same keys, other
-- values in either snapshot give the same changed fields.
pub changed_node_fields-secret :
    (js : Platform) (p c : TopologyNode) (m n : Dict SummaryValue)
    → p.kind ≡ lit "Secret"
    → c.kind ≡ lit "Secret"
    → keys m ≡ keys p.summary
    → keys n ≡ keys c.summary
    → changed_node_fields js (record p { summary = m }) (record c { summary = n })
      ≡ changed_node_fields js p c
unfolding changed_node_fields
changed_node_fields-secret js p c m n hp hc hm hn =
    ground (arith, text_eq_iff p.kind (lit "Secret"), text_eq_iff c.kind (lit "Secret"))
