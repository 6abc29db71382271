-- ===== src/Scheduler/Dag/Nodes.antt =====
-- What the node loop of `BuildDAG` builds.
use nebula_flow.Prelude.{
  ℕ, suc, ◌≤◌, String, ◌≡◌, sym, List, [], ◌∷◌, ◌++◌, append-nil, append_assoc, subst, ok-injective,
  arith, string_eq, count, count-append, ok, >>=-eq-ok,
}
use nebula_flow.Prelude.Int.{pos}
use nebula_flow.Prelude.Maps.{keys, lookup-insert, missing_count, missing_lookup, keys-insert_new}
use text.Mathlib.TextEquality.{eq_iff}
use nebula_flow.Model.{WorkflowNode}
use nebula_flow.Scheduler.Dag.{Node, Dag, degree, add_node, add_nodes}

-- The keys of the nodes given.
abbrev pub node_keys : {C : Type 0} → List (WorkflowNode C) → List String
node_keys [] = []
node_keys (n ∷ ns) = n.node_key ∷ node_keys ns

module _ {C : Type 0} where
  abbrev stored : WorkflowNode C → Node C
  stored n = record { key = n.node_key; node_type = n.node_type; config = n.config; id = n.id }

  pub record HasNodes (dag : Dag C) (names : List String) : Type 0 where
    pub named : keys dag.nodes ≡ names
    pub nodup : (k : String) → count k (keys dag.nodes) ≤ 1
    pub in_keys : keys dag.in_degree ≡ names
    pub no_edges : dag.edges ≡ []
    pub no_degrees : (t : String) → degree dag.in_degree t ≡ pos 0

  add_node-HasNodes :
      (i : ℕ) (n : WorkflowNode C) (dag dag' : Dag C) (names : List String)
      → HasNodes dag names
      → add_node i n dag ≡ ok dag'
      → HasNodes dag' (names ++ n.node_key ∷ [])
  unfolding add_node
  add_node-HasNodes i n dag dag' names v h = record {
    named = ground (arith, v.named, keys-insert_new n.node_key (stored n) dag.nodes);
    nodup = λ k. ground (
      arith,
      v.nodup k,
      eq_iff n.node_key k,
      keys-insert_new n.node_key (stored n) dag.nodes,
      count-append k (keys dag.nodes) (n.node_key ∷ []),
      missing_count n.node_key dag.nodes,
    );
    in_keys = ground (
      arith,
      v.named,
      v.in_keys,
      keys-insert_new n.node_key (pos 0) dag.in_degree,
      missing_count n.node_key dag.nodes,
      missing_lookup n.node_key dag.in_degree,
    );
    no_edges = ground (arith, v.no_edges);
    no_degrees =
        λ t. ground (arith, v.no_degrees t, lookup-insert n.node_key t (pos 0) dag.in_degree);
  }

  pub add_nodes-HasNodes :
      (i : ℕ) (ns : List (WorkflowNode C)) (dag dag' : Dag C) (names : List String)
      → HasNodes dag names
      → add_nodes i ns dag ≡ ok dag'
      → HasNodes dag' (names ++ node_keys ns)
  unfolding add_nodes
  add_nodes-HasNodes i [] dag dag' names v h =
      subst (λ l. HasNodes dag' l) (sym (append-nil names))
        (subst (λ d. HasNodes d names) (ok-injective h) v)
  add_nodes-HasNodes i (n ∷ ns) dag dag' names v h =
      let (d, p, q) = >>=-eq-ok (add_node i n dag) _ h in
      subst (λ l. HasNodes dag' l) (append_assoc names (n.node_key ∷ []) (node_keys ns))
        (add_nodes-HasNodes (suc i) ns d dag' (names ++ n.node_key ∷ [])
          (add_node-HasNodes i n dag d names v p) q)
