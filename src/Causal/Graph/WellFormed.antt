-- ===== src/Causal/Graph/WellFormed.antt =====
-- The graph that any calls of `node` and `edge` build is well formed and bounded.
use k8s_check.Prelude.{
  ◌≤◌, ◌≡◌, inl, inr, ◌≢◌, String, true, false, ◌&&◌, ◌||◌, not, Option, none, some, arith, ◌==◌,
  string_eq, pair_eq, eq_iff, leb, Bool-cases, length, if-elim,
}
use k8s_check.Dict.{
  Dict, insert, has_key, NodupKeys, has_key-insert, insert-NodupKeys, length-insert_new,
}
use k8s_check.Causal.Graph.{
  Graph, Node, Edge, empty, add_node, add_edge, max_graph_nodes, max_graph_edges,
}

-- Both ends of every edge are nodes, no edge is a loop, and the limits hold.
pub record IsWellFormed (g : Graph) : Type 0 where
  pub nodup_nodes : NodupKeys g.nodes
  pub nodup_edges : NodupKeys g.edges
  pub ends :
      (s t r : String)
      → has_key (s, (t, r)) g.edges ≡ true
      → (has_key s g.nodes ≡ true) × (has_key t g.nodes ≡ true) × (s ≢ t)
  pub node_bound : length g.nodes ≤ 5000
  pub edge_bound : length g.edges ≤ 10000

pub data Build : Graph → Type 0 where
  start : Build empty
  node :
      (id : Option String) (kind label : String) (attributes : Dict String (Option String))
      {g : Graph}
      → Build g
      → Build (add_node id kind label attributes g).1
  edge :
      (source target : Option String) (relation : String) (attributes : Dict String (Option String))
      {g : Graph}
      → Build g
      → Build (add_edge source target relation attributes g)

module _ (g : Graph) (w : IsWellFormed g) where
  flag-IsWellFormed : IsWellFormed (record g { truncated = true })
  flag-IsWellFormed = record {
    nodup_nodes = w.nodup_nodes;
    nodup_edges = w.nodup_edges;
    ends = w.ends;
    node_bound = w.node_bound;
    edge_bound = w.edge_bound;
  }

  insert_node-IsWellFormed :
      (id : String) (n : Node)
      → has_key id g.nodes ≡ false
      → leb max_graph_nodes (length g.nodes) ≡ false
      → IsWellFormed (record g { nodes = insert id n g.nodes })
  insert_node-IsWellFormed id n fresh space = record {
    nodup_nodes = insert-NodupKeys id n g.nodes w.nodup_nodes;
    nodup_edges = w.nodup_edges;
    ends = λ s t r h.
        let old = w.ends s t r h in
        (
          ground (arith, old.0, has_key-insert s id n g.nodes),
          ground (arith, old.1, has_key-insert t id n g.nodes),
          old.2,
        );
    node_bound = rw (length-insert_new id n g.nodes fresh) (ground arith);
    edge_bound = w.edge_bound;
  }

  add_node-IsWellFormed :
      (id : Option String) (kind label : String) (attributes : Dict String (Option String))
      → IsWellFormed (add_node id kind label attributes g).1
  unfolding add_node
  add_node-IsWellFormed none kind label attributes = w
  add_node-IsWellFormed (some id) kind label attributes =
      let P : Option String × Graph → Type 0 = λ r. IsWellFormed r.1 in
      if-elim P (id == "") (λ _. w)
        (λ _.
          if-elim P (has_key id g.nodes) (λ _. w)
            (λ fresh.
              if-elim P (leb max_graph_nodes (length g.nodes)) (λ _. flag-IsWellFormed)
                (λ space. insert_node-IsWellFormed id _ fresh space)))

  insert_edge-IsWellFormed :
      (s t r : String) (e : Edge)
      → (s == t) ≡ false
      → has_key s g.nodes ≡ true
      → has_key t g.nodes ≡ true
      → has_key (s, (t, r)) g.edges ≡ false
      → leb max_graph_edges (length g.edges) ≡ false
      → IsWellFormed (record g { edges = insert (s, (t, r)) e g.edges })
  insert_edge-IsWellFormed s t r e apart hs ht fresh space = record {
    nodup_nodes = w.nodup_nodes;
    nodup_edges = insert-NodupKeys (s, (t, r)) e g.edges w.nodup_edges;
    ends = λ s' t' r' h.
        ends_after s' t' r' (rw (has_key-insert (s', (t', r')) (s, (t, r)) e g.edges) at h);
    node_bound = w.node_bound;
    edge_bound = rw (length-insert_new (s, (t, r)) e g.edges fresh) (ground arith);
  }
    where
      ends_after :
          (s' t' r' : String)
          → ((s' == s && (t' == t && r' == r)) || has_key (s', (t', r')) g.edges) ≡ true
          → (has_key s' g.nodes ≡ true) × (has_key t' g.nodes ≡ true) × (s' ≢ t')
      ends_after s' t' r' h = elim (Bool-cases (s' == s && (t' == t && r' == r))) [
        | inl new ↦ (
          ground (arith, eq_iff s' s),
          ground (arith, eq_iff t' t),
          λ same. ground (arith, eq_iff s' s, eq_iff t' t, eq_iff s t, same),
        )
        | inr old ↦ w.ends s' t' r' (ground arith)
      ]

  add_edge-IsWellFormed :
      (source target : Option String) (r : String) (attributes : Dict String (Option String))
      → IsWellFormed (add_edge source target r attributes g)
  unfolding add_edge
  add_edge-IsWellFormed none target r attributes = w
  add_edge-IsWellFormed (some s) none r attributes = w
  add_edge-IsWellFormed (some s) (some t) r attributes =
      if-elim IsWellFormed (s == "" || (t == "" || s == t)) (λ _. w)
        (λ good.
          if-elim IsWellFormed (not (has_key s g.nodes) || not (has_key t g.nodes)) (λ _. w)
            (λ both.
              if-elim IsWellFormed (has_key (s, (t, r)) g.edges) (λ _. w)
                (λ fresh.
                  if-elim IsWellFormed (leb max_graph_edges (length g.edges))
                    (λ _. flag-IsWellFormed)
                    (λ space.
                      insert_edge-IsWellFormed s t r _ (ground arith) (ground arith) (ground arith)
                        fresh space))))

-- Any graph that calls of `node` and `edge` build from the empty one is well formed: the ends of every edge are
-- two different nodes of it, and it has at most 5000 nodes and 10000 edges.
pub Build-IsWellFormed : {g : Graph} → Build g → IsWellFormed g
Build-IsWellFormed start = record {
  nodup_nodes = tt;
  nodup_edges = tt;
  ends = λ s t r h. cc;
  node_bound = omega arith;
  edge_bound = omega arith;
}
Build-IsWellFormed (node id kind label attributes {g} b) =
    add_node-IsWellFormed g (Build-IsWellFormed b) id kind label attributes
Build-IsWellFormed (edge source target r attributes {g} b) =
    add_edge-IsWellFormed g (Build-IsWellFormed b) source target r attributes
