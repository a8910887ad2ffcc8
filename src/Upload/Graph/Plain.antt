-- ===== src/Upload/Graph/Plain.antt =====
-- What the operations of the context come to, however they are called: the nodes and edges that the
-- calls ask for, without the calls that come too late.
use kuviewer.Base.{
  ◌≡◌, refl, ap, sym, ◌∙◌, Bool, true, false, not, ◌&&◌, ◌||◌, List, [], ◌∷◌, ◌++◌, map, filter,
  Text, text_eq, text_eq_iff, truthy, has, arith, Bool-cases, inl, inr, if◌then◌else◌, append-nil,
  append_assoc,
}
use kuviewer.Base.Dict.{Dict}
use kuviewer.Base.Sets.{add-new}
use kuviewer.Upload.Graph.Build.{empty_context}
use kuviewer.Upload.Graph.Formed.{map-snoc}
use kuviewer.Topology.Types.{SummaryValue, TopologyNode, TopologyEdge}
use kuviewer.Upload.Graph.{
  BuildContext, node_id, edge_id, new_node, new_edge, add_node, add_edge, for_each,
}

-- Of the items of one key, the first.
unfoldable pub firsts {ℓ} : {A : Type ℓ} → (A → Text) → List A → List A
firsts key [] = []
firsts key (x ∷ xs) = x ∷ filter (λ y. not (text_eq (key x) (key y))) (firsts key xs)

module _ {A : Type 0} (key : A → Text) where
  apart : (p q r : Bool) → (q ≡ true → p ≡ false) → (q || (not p && r)) ≡ (not p && (q || r))
  apart true true r h = absurd (ground (arith, h refl))
  apart true false r h = refl
  apart false q r h = refl

  has-filter-other :
      (k j : Text) (xs : List A)
      → has j (map key (filter (λ y. not (text_eq k (key y))) xs))
        ≡ (not (text_eq k j) && has j (map key xs))
  unfolding filter has
  has-filter-other k j [] = ground arith
  has-filter-other k j (x ∷ xs) = elim (Bool-cases (text_eq k (key x))) [
    | inl same ↦
        let e : k ≡ key x = (text_eq_iff k (key x)).0 same in
        rw (same, has-filter-other k j xs, ← e) (ground arith)
    | inr other ↦
        rw (other, has-filter-other k j xs)
          (apart (text_eq k j) (text_eq (key x) j) (has j (map key xs))
            (λ a. rw (← ((text_eq_iff (key x) j).0 a)) other))
  ]

  or-true : (p : Bool) → (p || true) ≡ true
  or-true true = refl
  or-true false = refl

  filter-snoc :
      (p : A → Bool) (xs : List A) (x : A)
      → filter p (xs ++ (x ∷ [])) ≡ filter p xs ++ (if p x then x ∷ [] else [])
  unfolding filter
  filter-snoc p [] x = refl
  filter-snoc p (y ∷ ys) x = elim (Bool-cases (p y)) [
    | inl keep ↦ rw keep (ap (◌∷◌ y) (filter-snoc p ys x))
    | inr drop ↦ rw drop (filter-snoc p ys x)
  ]

  -- An item after the others is there where none of them has its key.
  firsts-snoc :
      (xs : List A) (x : A)
      → firsts key (xs ++ (x ∷ []))
        ≡ (if has (key x) (map key xs) then firsts key xs else firsts key xs ++ (x ∷ []))
  unfolding firsts filter has
  firsts-snoc [] x = refl
  firsts-snoc (y ∷ ys) x = elim (Bool-cases (has (key x) (map key ys))) [
    | inl late ↦ rw (firsts-snoc ys x, late, or-true (text_eq (key y) (key x))) refl
    | inr new ↦
        rw
          (
            firsts-snoc ys x,
            new,
            filter-snoc (λ z. not (text_eq (key y) (key z))) (firsts key ys) x,
          )
          (elim (Bool-cases (text_eq (key y) (key x))) [
            | inl same ↦
                rw (same, append-nil (filter (λ z. not (text_eq (key y) (key z))) (firsts key ys)))
                  refl
            | inr other ↦ rw other refl
          ])
  ]

  within : (p q : Bool) → (p || (not p && q)) ≡ (p || q)
  within true q = refl
  within false q = refl

  -- The keys are those of all.
  has-firsts : (k : Text) (xs : List A) → has k (map key (firsts key xs)) ≡ has k (map key xs)
  unfolding firsts has
  has-firsts k [] = refl
  has-firsts k (x ∷ xs) =
      rw (has-filter-other (key x) k (firsts key xs), has-firsts k xs)
        (within (text_eq (key x) k) (has k (map key xs)))

module _ {A : Type 0} (key : A → Text) (xs items : List A) (set : List Text)
    (held : items ≡ firsts key xs) (known : set ≡ map key items) where
  has-set : (k : Text) → has k set ≡ has k (map key xs)
  has-set k = ap (has k) (known ∙ ap (map key) held) ∙ has-firsts key k xs

  -- One more item of a key that is known changes nothing; one of a new key is added.
  firsts-late : (x : A) → has (key x) set ≡ true → items ≡ firsts key (xs ++ (x ∷ []))
  firsts-late x late = held ∙ sym (firsts-snoc key xs x ∙ rw (sym (has-set (key x)) ∙ late) refl)

  firsts-new :
      (x : A)
      → has (key x) set ≡ false
      → (items ++ (x ∷ []) ≡ firsts key (xs ++ (x ∷ [])))
        × (set ++ (key x ∷ []) ≡ map key (items ++ (x ∷ [])))
  firsts-new x new = (
    ap (λ ys. ys ++ (x ∷ [])) held
        ∙ sym (firsts-snoc key xs x ∙ rw (sym (has-set (key x)) ∙ new) refl),
    ap (λ ks. ks ++ (key x ∷ [])) known ∙ sym (map-snoc key items x),
  )

abbrev pub node_key : TopologyNode → Text
node_key n = n.id

abbrev pub edge_key : TopologyEdge → Text
edge_key e = e.id

-- A call of one of the two operations, with its arguments.
pub data Call : Type 0 where
  call_node : Text → Text → Text → Text → Dict Text → Dict SummaryValue → Call
  call_edge : Text → Text → Text → Text → Text → Call

abbrev pub perform : BuildContext → Call → BuildContext
perform c (call_node kind namespace name status labels summary) =
    add_node c kind namespace name status labels summary
perform c (call_edge type source target source_field confidence) =
    add_edge c type source target source_field confidence

-- The node that a call asks for, if it names one.
abbrev pub asked_node : Text → Call → List TopologyNode
asked_node cluster_id (call_node kind namespace name status labels summary) =
    if truthy name then new_node cluster_id kind namespace name status labels summary ∷ [] else []
asked_node cluster_id (call_edge type source target source_field confidence) = []

-- The edge that a call asks for, if both its ends are among the nodes asked for before.
abbrev pub asked_edge : Text → List TopologyNode → Call → List TopologyEdge
asked_edge cluster_id ns (call_node kind namespace name status labels summary) = []
asked_edge cluster_id ns (call_edge type source target source_field confidence) =
    if truthy source
      && truthy target
      && has source (map node_key ns)
      && has target (map node_key ns)
    then new_edge cluster_id type source target source_field confidence ∷ []
    else []

unfoldable pub asked_nodes : Text → List Call → List TopologyNode
asked_nodes cluster_id [] = []
asked_nodes cluster_id (r ∷ rs) = asked_node cluster_id r ++ asked_nodes cluster_id rs

-- The edges, after the nodes that were asked for before.
unfoldable pub asked_edges : Text → List TopologyNode → List Call → List TopologyEdge
asked_edges cluster_id ns [] = []
asked_edges cluster_id ns (r ∷ rs) =
    asked_edge cluster_id ns r ++ asked_edges cluster_id (ns ++ asked_node cluster_id r) rs

-- The context holds the first of the nodes and edges asked for of each id, and its sets their ids.
record Holds (cluster_id : Text) (ns : List TopologyNode) (es : List TopologyEdge)
    (c : BuildContext) : Type 0 where
  of_cluster : c.cluster_id ≡ cluster_id
  first_nodes : c.nodes ≡ firsts node_key ns
  first_edges : c.edges ≡ firsts edge_key es
  node_ids : c.node_set ≡ map node_key c.nodes
  edge_ids : c.edge_set ≡ map edge_key c.edges

module _ (cluster_id : Text) (ns : List TopologyNode) (es : List TopologyEdge) (c : BuildContext)
    (h : Holds cluster_id ns es c) where
  perform-Holds :
      (r : Call)
      → Holds cluster_id
          (ns ++ asked_node cluster_id r)
          (es ++ asked_edge cluster_id ns r)
          (perform c r)
  unfolding add_node add_edge
  perform-Holds (call_node kind namespace name status labels summary) =
      elim (Bool-cases (truthy name)) [
        | inr blank ↦ rw (blank, append-nil ns, append-nil es, add_node) h
        | inl named ↦
            elim (Bool-cases (has (node_id c.cluster_id namespace kind name) c.node_set)) [
              | inl late ↦
                  rw (named, late, append-nil es, add_node)
                    (record {
                      of_cluster = h.of_cluster;
                      first_nodes =
                          firsts-late node_key ns c.nodes c.node_set h.first_nodes h.node_ids n
                            (rw h.of_cluster at late);
                      first_edges = h.first_edges;
                      node_ids = h.node_ids;
                      edge_ids = h.edge_ids;
                    })
              | inr new ↦
                  let fresh : has n.id c.node_set ≡ false = rw h.of_cluster at new in
                  let grown =
                    firsts-new node_key ns c.nodes c.node_set h.first_nodes h.node_ids n fresh in
                  rw
                    (
                      named,
                      new,
                      append-nil es,
                      add_node,
                      h.of_cluster,
                      add-new n.id c.node_set fresh,
                    )
                    (record {
                      of_cluster = refl;
                      first_nodes = grown.0;
                      first_edges = h.first_edges;
                      node_ids = grown.1;
                      edge_ids = h.edge_ids;
                    })
            ]
      ]
    where
      n : TopologyNode
      n = new_node cluster_id kind namespace name status labels summary
  perform-Holds (call_edge type source target source_field confidence) =
      let source_known = has-set node_key ns c.nodes c.node_set h.first_nodes h.node_ids source in
      let target_known = has-set node_key ns c.nodes c.node_set h.first_nodes h.node_ids target in
      elim (Bool-cases joins) [
        | inr apart ↦
            let refused : refuses ≡ true = ground (arith, source_known, target_known) in
            rw (apart, refused, append-nil ns, append-nil es, add_edge) h
        | inl joined ↦ elim (Bool-cases (has e.id c.edge_set)) [
          | inl late ↦
              let refused : refuses ≡ true = ground (arith, source_known, target_known) in
              rw (joined, refused, append-nil ns, add_edge)
                (record {
                  of_cluster = h.of_cluster;
                  first_nodes = h.first_nodes;
                  first_edges =
                      firsts-late edge_key es c.edges c.edge_set h.first_edges h.edge_ids e late;
                  node_ids = h.node_ids;
                  edge_ids = h.edge_ids;
                })
          | inr new ↦
              let taken : refuses ≡ false = ground (arith, source_known, target_known) in
              let grown =
                firsts-new edge_key es c.edges c.edge_set h.first_edges h.edge_ids e new in
              rw (joined, taken, append-nil ns, add_edge, h.of_cluster, add-new e.id c.edge_set new)
                (record {
                  of_cluster = refl;
                  first_nodes = h.first_nodes;
                  first_edges = grown.0;
                  node_ids = h.node_ids;
                  edge_ids = grown.1;
                })
        ]
      ]
    where
      e : TopologyEdge
      e = new_edge cluster_id type source target source_field confidence

      joins : Bool
      joins =
          truthy source
          && truthy target
          && has source (map node_key ns)
          && has target (map node_key ns)

      refuses : Bool
      refuses =
          not (truthy source)
          || not (truthy target)
          || not (has source c.node_set)
          || not (has target c.node_set)
          || has (edge_id source target type source_field) c.edge_set

for_each-Holds :
    (cluster_id : Text) (ns : List TopologyNode) (es : List TopologyEdge) (c : BuildContext)
    (rs : List Call)
    → Holds cluster_id ns es c
    → Holds cluster_id
        (ns ++ asked_nodes cluster_id rs)
        (es ++ asked_edges cluster_id ns rs)
        (for_each perform c rs)
unfolding for_each asked_nodes asked_edges
for_each-Holds cluster_id ns es c [] h = rw (append-nil ns, append-nil es) h
for_each-Holds cluster_id ns es c (r ∷ rs) h =
    rw
      (
        ← (append_assoc ns (asked_node cluster_id r) (asked_nodes cluster_id rs)),
        ← (
            append_assoc es (asked_edge cluster_id ns r)
              (asked_edges cluster_id (ns ++ asked_node cluster_id r) rs)),
      )
      (for_each-Holds cluster_id (ns ++ asked_node cluster_id r) (es ++ asked_edge cluster_id ns r)
        (perform c r) rs (perform-Holds cluster_id ns es c h r))

-- Any calls of add_node and add_edge, in any order, from the empty context on: the nodes are those
-- asked for by name, without those whose id an earlier one has; the edges are those asked for when
-- both their ends were already among the nodes asked for, without those whose id an earlier one has.
pub perform-firsts :
    (cluster_id : Text) (warnings : List Text) (rs : List Call)
    → let c = for_each perform (empty_context cluster_id warnings) rs in
      (c.nodes ≡ firsts node_key (asked_nodes cluster_id rs))
      × (c.edges ≡ firsts edge_key (asked_edges cluster_id [] rs))
unfolding firsts
perform-firsts cluster_id warnings rs =
    let h = for_each-Holds cluster_id [] [] (empty_context cluster_id warnings) rs (record {
      of_cluster = refl;
      first_nodes = refl;
      first_edges = refl;
      node_ids = refl;
      edge_ids = refl;
    }) in
    (h.first_nodes, h.first_edges)
