-- ===== src/Snapshot/Compare/Counts.antt =====
-- The counts and the order of a comparison.
use kuviewer.Base.{
  ℕ, ◌+◌, ◌<◌, ◌≤◌, ◌≡◌, ◌≢◌, refl, ap, Ordering, compare, Bool, true, List, [], ◌∷◌, ◌++◌, arith,
  filter, length, All, Bool-cases, inl, inr, ◌⊎◌,
}
use kuviewer.Base.Sort.{or_else, sort_by, sort_by-count, sort_by-Ascending, Ascending}
use kuviewer.Platform.{Platform}
use kuviewer.Snapshot.Compare.{
  NodeChange, ClusterChange, EdgeChange, ChangeCounts, changed_cluster_fields, changed_edge_fields,
  cluster_change, node_change, change_type_order, count_changes, changed_node_fields, cluster_order,
  node_order, edge_order, compare_topology_snapshots,
}
use kuviewer.Snapshot.Compare.Laws.{HasDistinctIds, edge_maker}
use kuviewer.Snapshot.Diff.{ChangeType, added, removed, changed, same_type}
use kuviewer.Snapshot.Diff.Reports.{count-changes}
use kuviewer.Topology.Types.{TopologyNode, TopologyEdge, ClusterSummary, TopologySnapshot}

abbrev pub total : ChangeCounts → ℕ
total n = n.added_count + n.removed_count + n.changed_count

count_changes-total :
    {C : Type 0} (type : C → ChangeType) (cs : List C) → total (count_changes type cs) ≡ length cs
unfolding count_changes filter
count_changes-total type [] = omega arith
count_changes-total type (c ∷ cs) = ground (arith, count_changes-total type cs)

balance-sort :
    {C : Type 0} (cmp : C → C → Ordering) (p q : C → Bool) (cs : List C) (m n : ℕ)
    → length (filter p cs) + m ≡ length (filter q cs) + n
    → length (filter p (sort_by cmp cs)) + m ≡ length (filter q (sort_by cmp cs)) + n
balance-sort cmp p q cs m n h =
    omega (arith, sort_by-count {0} cmp p cs, sort_by-count {0} cmp q cs)

module _ (js : Platform) (b c : TopologySnapshot) where
  -- The three counts of the resources add up to the list of the resource changes, and so for the
  -- clusters and the relations: every change is counted under one type.
  pub compare_topology_snapshots-total :
      let r = compare_topology_snapshots js b c in
      (total r.counts ≡ length r.nodes)
      × (total r.cluster_counts ≡ length r.clusters)
      × (total r.edge_counts ≡ length r.edges)
  unfolding compare_topology_snapshots
  compare_topology_snapshots-total = (
    count_changes-total (λ (x : NodeChange). x.type) _,
    count_changes-total (λ (x : ClusterChange). x.type) _,
    count_changes-total (λ (x : EdgeChange). x.type) _,
  )

  -- Between snapshots with distinct ids the counts balance: baseline and added are together as many
  -- as current and removed, for resources, relations and clusters.
  pub compare_topology_snapshots-balance :
      HasDistinctIds b
      → HasDistinctIds c
      → let r = compare_topology_snapshots js b c in
        (r.counts.added_count + length b.nodes ≡ r.counts.removed_count + length c.nodes)
        × (r.edge_counts.added_count + length b.edges
            ≡ r.edge_counts.removed_count + length c.edges)
        × (r.cluster_counts.added_count + length b.clusters
            ≡ r.cluster_counts.removed_count + length c.clusters)
  unfolding compare_topology_snapshots
  compare_topology_snapshots-balance d e = (
    balance-sort (node_order js) _ _ _ _ _ (
        count-changes (λ (n : TopologyNode). n.id) (changed_node_fields js) node_change (λ x. x.id)
          (λ x. x.type) (λ t x p fs. refl) (λ t x p fs. refl) b.nodes c.nodes d.nodes e.nodes),
    balance-sort (edge_order js) _ _ _ _ _ (
        count-changes (λ (n : TopologyEdge). n.id) changed_edge_fields (edge_maker b c) (λ x. x.id)
          (λ x. x.type) (λ t x p fs. refl) (λ t x p fs. refl) b.edges c.edges d.edges e.edges),
    balance-sort (cluster_order js) _ _ _ _ _ (
        count-changes (λ (n : ClusterSummary). n.id) changed_cluster_fields cluster_change
          (λ x. x.id) (λ x. x.type) (λ t x p fs. refl) (λ t x p fs. refl) b.clusters c.clusters
          d.clusters e.clusters),
  )

order-above : (m n : ℕ) (o : Ordering) → n < m → or_else (compare m n) o ≡ Ordering.gt
order-above m n o h = ground arith

order-below : (m n : ℕ) (o : Ordering) → m < n → or_else (compare m n) o ≢ Ordering.gt
order-below m n o h = ground arith

-- The changes of one type, in their order.
abbrev pub of_type {ℓ} : {C : Type ℓ} → (C → ChangeType) → ChangeType → List C → List C
of_type type t cs = filter (λ c. same_type (type c) t) cs

-- First all that changed, then all that was added, then all that was removed.
abbrev pub grouped {ℓ} : {C : Type ℓ} → (C → ChangeType) → List C → List C
grouped type cs = of_type type changed cs ++ (of_type type added cs ++ of_type type removed cs)

same_type-order :
    (u t : ChangeType) → same_type u t ≡ true → change_type_order u ≡ change_type_order t
same_type-order added added h = refl
same_type-order removed removed h = refl
same_type-order changed changed h = refl
same_type-order added removed h = absurd (ground arith)
same_type-order added changed h = absurd (ground arith)
same_type-order removed added h = absurd (ground arith)
same_type-order removed changed h = absurd (ground arith)
same_type-order changed added h = absurd (ground arith)
same_type-order changed removed h = absurd (ground arith)

ChangeType-cases : (t : ChangeType) → (t ≡ changed) ⊎ ((t ≡ added) ⊎ (t ≡ removed))
ChangeType-cases changed = inl refl
ChangeType-cases added = inr (inl refl)
ChangeType-cases removed = inr (inr refl)

module _ {C : Type 0} (type : C → ChangeType) where
  none-below :
      (n : ℕ) (t : ChangeType) (cs : List C)
      → change_type_order t < n
      → All (λ c. n ≤ change_type_order (type c)) cs
      → of_type type t cs ≡ []
  unfolding filter
  none-below n t [] h a = refl
  none-below n t (c ∷ cs) h a = elim (Bool-cases (same_type (type c) t)) [
    | inl same ↦ absurd (omega (arith, a.0, same_type-order (type c) t same))
    | inr other ↦ rw other (none-below n t cs h a.1)
  ]

  Ascending-grouped :
      (cs : List C) → Ascending (λ c. change_type_order (type c)) cs → cs ≡ grouped type cs
  unfolding filter
  Ascending-grouped [] a = refl
  Ascending-grouped (c ∷ cs) a = elim (ChangeType-cases (type c)) [
    | inl e ↦ rw e (ap (◌∷◌ c) (Ascending-grouped cs a.1))
    | inr (inl e) ↦
        let above : All (λ d. 1 ≤ change_type_order (type d)) cs =
          rw (← (ap change_type_order e)) a.0 in
        rw (e, none-below 1 changed cs (omega arith) above)
          (ap (◌∷◌ c)
            (rw (none-below 1 changed cs (omega arith) above) at (Ascending-grouped cs a.1)))
    | inr (inr e) ↦
        let above : All (λ d. 2 ≤ change_type_order (type d)) cs =
          rw (← (ap change_type_order e)) a.0 in
        rw
          (
            e,
            none-below 2 changed cs (omega arith) above,
            none-below 2 added cs (omega arith) above,
          )
          (ap (◌∷◌ c) (
            rw
              (
                none-below 2 changed cs (omega arith) above,
                none-below 2 added cs (omega arith) above,
              )
              at (Ascending-grouped cs a.1)))
  ]

module _ (js : Platform) (b c : TopologySnapshot) where
  -- Each list shows first what changed, then what was added and then what was removed, whatever the
  -- locale's order of names is.
  pub compare_topology_snapshots-grouped :
      let r = compare_topology_snapshots js b c in
      (r.nodes ≡ grouped (λ (x : NodeChange). x.type) r.nodes)
      × (r.edges ≡ grouped (λ (x : EdgeChange). x.type) r.edges)
      × (r.clusters ≡ grouped (λ (x : ClusterChange). x.type) r.clusters)
  unfolding compare_topology_snapshots
  compare_topology_snapshots-grouped = (
    Ascending-grouped (λ x. x.type) _
        (sort_by-Ascending (node_order js) (λ x. change_type_order x.type)
          (λ x y h. order-above _ _ _ h) (λ x y h. order-below _ _ _ h) _),
    Ascending-grouped (λ x. x.type) _
        (sort_by-Ascending (edge_order js) (λ x. change_type_order x.type)
          (λ x y h. order-above _ _ _ h) (λ x y h. order-below _ _ _ h) _),
    Ascending-grouped (λ x. x.type) _
        (sort_by-Ascending (cluster_order js) (λ x. change_type_order x.type)
          (λ x y h. order-above _ _ _ h) (λ x y h. order-below _ _ _ h) _),
  )
