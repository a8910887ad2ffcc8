-- ===== src/Upload/Graph/Formed.antt =====
-- What the built graph is: distinct ids, edges between its nodes, and Secrets that hide what they
-- hold.
use kuviewer.Base.{
  ◌≡◌, refl, ap, sym, ◌∙◌, true, not, ◌||◌, List, [], ◌∷◌, ◌++◌, map, Text, lit, truthy, has, All,
  All-append, arith, Bool-cases, inl, inr, filter, get_elem?, All-get_elem?, ℕ, some,
}
use kuviewer.Base.Dict.{Dict}
use kuviewer.Base.Sets.{Distinct, add, add-new, add-Distinct, has-add}
use kuviewer.Platform.{Platform}
use kuviewer.Topology.Types.{SummaryValue, TopologyNode, TopologyEdge}
use kuviewer.Upload.Graph.{BuildContext, node_id, edge_id, new_node, new_edge, add_node, add_edge}
use kuviewer.Upload.Graph.Build.{UploadOptions, build_graph, build_snapshot_from_kubernetes_objects}
use kuviewer.Upload.Graph.Closed.{HidesSecret, IsSecretShown}
use kuviewer.Upload.Graph.Induction.{build_graph-keeps}
use kuviewer.Upload.Graph.Schemas.{Schemas}
use kuviewer.Upload.Object.{KubeObject, is_named}

abbrev pub graph_node_ids : List TopologyNode → List Text
graph_node_ids ns = map (λ (n : TopologyNode). n.id) ns

abbrev pub graph_edge_ids : List TopologyEdge → List Text
graph_edge_ids es = map (λ (e : TopologyEdge). e.id) es

-- Both ends of an edge are among the ids.
abbrev pub EndsIn : List Text → TopologyEdge → Type 0
EndsIn ids e = (has e.source ids ≡ true) × (has e.target ids ≡ true)

-- The sets hold the ids of the lists, none twice, and the edges join nodes.
pub record IsWellFormed (c : BuildContext) : Type 0 where
  pub node_ids : c.node_set ≡ graph_node_ids c.nodes
  pub edge_ids : c.edge_set ≡ graph_edge_ids c.edges
  pub distinct_nodes : Distinct c.node_set
  pub distinct_edges : Distinct c.edge_set
  pub ends : All (EndsIn c.node_set) c.edges

pub map-snoc :
    {A : Type 0} (f : A → Text) (xs : List A) (x : A)
    → map f (xs ++ (x ∷ [])) ≡ map f xs ++ (f x ∷ [])
map-snoc f [] x = refl
map-snoc f (y ∷ xs) x = ap (◌∷◌ (f y)) (map-snoc f xs x)

All-EndsIn-add :
    (id : Text) (ids : List Text) (es : List TopologyEdge)
    → All (EndsIn ids) es
    → All (EndsIn (add id ids)) es
All-EndsIn-add id ids [] a = tt
All-EndsIn-add id ids (e ∷ es) a = (
  (ground (arith, has-add e.source id ids), ground (arith, has-add e.target id ids)),
  All-EndsIn-add id ids es a.1,
)

add_node-IsWellFormed :
    (c : BuildContext) (kind namespace name status : Text) (labels : Dict Text)
    (summary : Dict SummaryValue)
    → HidesSecret kind summary
    → IsWellFormed c
    → IsWellFormed (add_node c kind namespace name status labels summary)
unfolding add_node
add_node-IsWellFormed c kind namespace name status labels summary hides w =
    elim (Bool-cases (not (truthy name) || has id c.node_set)) [
      | inl known ↦ rw (known, add_node) w
      | inr new ↦
          rw (new, add_node)
            (record {
              node_ids =
                  add-new id c.node_set (ground arith)
                  ∙ ap (λ (s : List Text). s ++ (id ∷ [])) w.node_ids
                  ∙ sym (map-snoc (λ (n : TopologyNode). n.id) c.nodes n);
              edge_ids = w.edge_ids;
              distinct_nodes = add-Distinct id c.node_set w.distinct_nodes;
              distinct_edges = w.distinct_edges;
              ends = All-EndsIn-add id c.node_set c.edges w.ends;
            })
    ]
  where
    id : Text
    id = node_id c.cluster_id namespace kind name

    n : TopologyNode
    n = new_node c.cluster_id kind namespace name status labels summary

add_edge-IsWellFormed :
    (c : BuildContext) (type source target source_field confidence : Text)
    → IsWellFormed c
    → IsWellFormed (add_edge c type source target source_field confidence)
unfolding add_edge
add_edge-IsWellFormed c type source target source_field confidence w =
    elim (Bool-cases (
      not (truthy source)
      || not (truthy target)
      || not (has source c.node_set)
      || not (has target c.node_set)
      || has id c.edge_set)) [
        | inl refused ↦ rw (refused, add_edge) w
        | inr new ↦
            rw (new, add_edge)
              (record {
                node_ids = w.node_ids;
                edge_ids =
                    add-new id c.edge_set (ground arith)
                    ∙ ap (λ (s : List Text). s ++ (id ∷ [])) w.edge_ids
                    ∙ sym (map-snoc (λ (e : TopologyEdge). e.id) c.edges e);
                distinct_nodes = w.distinct_nodes;
                distinct_edges = add-Distinct id c.edge_set w.distinct_edges;
                ends =
                    All-append (EndsIn c.node_set) c.edges (e ∷ []) w.ends
                      ((ground arith, ground arith), tt);
              })
      ]
  where
    id : Text
    id = edge_id source target type source_field

    e : TopologyEdge
    e = new_edge c.cluster_id type source target source_field confidence

module _ (js : Platform) (s : Schemas) where
  pub build_graph-IsWellFormed :
      (objects : List KubeObject) (warnings : List Text) (options : UploadOptions)
      → IsWellFormed (build_graph js s objects warnings options)
  build_graph-IsWellFormed objects warnings options =
      build_graph-keeps IsWellFormed add_node-IsWellFormed add_edge-IsWellFormed js s
        (λ c message w. record {
          node_ids = w.node_ids;
          edge_ids = w.edge_ids;
          distinct_nodes = w.distinct_nodes;
          distinct_edges = w.distinct_edges;
          ends = w.ends;
        })
        objects warnings options
        (record {
          node_ids = refl;
          edge_ids = refl;
          distinct_nodes = tt;
          distinct_edges = tt;
          ends = tt;
        })

  -- Whatever objects are uploaded, and whatever their schemas say of them: no two nodes of the
  -- snapshot have one id, no two edges have one id, and every edge starts and ends at a node of the
  -- snapshot.
  pub build_snapshot_from_kubernetes_objects-IsGraph :
      (objects : List KubeObject) (warnings : List Text) (options : UploadOptions)
      → let g = (build_snapshot_from_kubernetes_objects js s objects warnings options).0 in
        Distinct (graph_node_ids g.nodes)
        × (Distinct (graph_edge_ids g.edges) × All (EndsIn (graph_node_ids g.nodes)) g.edges)
  unfolding build_snapshot_from_kubernetes_objects
  build_snapshot_from_kubernetes_objects-IsGraph objects warnings options =
      let w = build_graph-IsWellFormed (filter is_named objects) warnings options in
      (
        rw (← w.node_ids) w.distinct_nodes,
        (rw (← w.edge_ids) w.distinct_edges, rw (← w.node_ids) w.ends),
      )

-- Every node hides what a Secret holds.
abbrev pub HidesSecrets : BuildContext → Type 0
HidesSecrets c = All (λ (n : TopologyNode). HidesSecret n.kind n.summary) c.nodes

add_node-HidesSecrets :
    (c : BuildContext) (kind namespace name status : Text) (labels : Dict Text)
    (summary : Dict SummaryValue)
    → HidesSecret kind summary
    → HidesSecrets c
    → HidesSecrets (add_node c kind namespace name status labels summary)
unfolding add_node
add_node-HidesSecrets c kind namespace name status labels summary hides a =
    elim (Bool-cases
      (not (truthy name) || has (node_id c.cluster_id namespace kind name) c.node_set)) [
        | inl known ↦ rw (known, add_node) a
        | inr new ↦
            rw (new, add_node)
              (All-append (λ (n : TopologyNode). HidesSecret n.kind n.summary) c.nodes _ a
                (hides, tt))
      ]

add_edge-nodes :
    (c : BuildContext) (type source target source_field confidence : Text)
    → (add_edge c type source target source_field confidence).nodes ≡ c.nodes
unfolding add_edge
add_edge-nodes c type source target source_field confidence = ground arith

module _ (js : Platform) (s : Schemas) where
  build_snapshot-HidesSecrets :
      (objects : List KubeObject) (warnings : List Text) (options : UploadOptions)
      → HidesSecrets (build_graph js s objects warnings options)
  build_snapshot-HidesSecrets objects warnings options =
      build_graph-keeps HidesSecrets add_node-HidesSecrets
        (λ c type source target source_field confidence a.
          rw (add_edge-nodes c type source target source_field confidence) a)
        js s (λ c message a. a) objects warnings options tt

  -- Whatever objects are uploaded: the summary of a node of kind Secret is one of two. It says that
  -- the Secret is referenced and that its values are hidden; or it has a text as the type, a natural
  -- number of keys, and says that the values are hidden. It has no other entry.
  pub build_snapshot_from_kubernetes_objects-IsSecretShown :
      (objects : List KubeObject) (warnings : List Text) (options : UploadOptions) (i : ℕ)
      (n : TopologyNode)
      → get_elem? (build_snapshot_from_kubernetes_objects js s objects warnings options).0.nodes i
        ≡ some n
      → n.kind ≡ lit "Secret"
      → IsSecretShown n.summary
  unfolding build_snapshot_from_kubernetes_objects HidesSecret
  build_snapshot_from_kubernetes_objects-IsSecretShown objects warnings options i n h e =
      All-get_elem? (λ (n : TopologyNode). HidesSecret n.kind n.summary) _ i n
        (build_snapshot-HidesSecrets (filter is_named objects) warnings options) h e
