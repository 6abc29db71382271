-- ===== src/Scheduler/Dag/Cycle.antt =====
-- `ErrCycle`, and the other errors of `BuildDAG`.
use nebula_flow.Prelude.{
  ℕ, suc, ◌<◌, String, ◌≡◌, ◌≢◌, refl, ap, ◌⊎◌, inl, inr, List, [], ◌∷◌, arith, string_eq, count,
  err, >>=-eq-err,
}
use nebula_flow.Prelude.Maps.{keys}
use text.Mathlib.TextEquality.{eq_iff}
use nebula_flow.Model.{WorkflowNode, WorkflowEdge}
use nebula_flow.Scheduler.Dag.{
  Dag, BuildError, err_cycle, err_invalid_node, err_duplicate_node, no_sentinel, sentinel,
  fuel_exhausted, empty_dag, add_node, add_nodes, add_edge, add_edges, build_dag,
}
use nebula_flow.Scheduler.Dag.Kahn.{TopoFrom}
use nebula_flow.Scheduler.Dag.Nodes.{node_keys, add_nodes-HasNodes}
use nebula_flow.Scheduler.Dag.Edges.{edge_count, lookup-present, add_edge_writes}
use nebula_flow.Scheduler.Dag.Order.{
  IsTopological, IsListing, loops-HasEdges, sort_dag-err, sort_dag_ends, empty_dag-HasNodes,
}

-- A node with an edge to itself stands in no topological order.
TopoFrom-loop :
    (arcs : String → String → ℕ) (k : String) (seen order : List String)
    → 0 < arcs k k
    → count k seen ≡ 0
    → 0 < count k order
    → ¬ TopoFrom arcs seen order
TopoFrom-loop arcs k seen [] l s h t = omega arith
TopoFrom-loop arcs k seen (c ∷ rest) l s h t =
    ground (arith, eq_iff c k, t.0 k, TopoFrom-loop arcs k (c ∷ seen) rest)

-- The edge loop reports a cycle only for a self-loop at a known node, and always has fuel.
abbrev EdgeError : BuildError → List WorkflowEdge → List String → Type 0
EdgeError x es names =
    (sentinel x ≢ no_sentinel)
    × (sentinel x ≡ err_cycle → (k : String) × (0 < edge_count es k k) × (0 < count k names))

module _ {C : Type 0} where
  add_node-err :
      (i : ℕ) (n : WorkflowNode C) (dag : Dag C) {x : BuildError}
      → add_node i n dag ≡ err x
      → (sentinel x ≡ err_invalid_node) ⊎ (sentinel x ≡ err_duplicate_node)
  unfolding add_node
  add_node-err i n dag h = ground arith

  add_nodes-err :
      (i : ℕ) (ns : List (WorkflowNode C)) (dag : Dag C) {x : BuildError}
      → add_nodes i ns dag ≡ err x
      → (sentinel x ≡ err_invalid_node) ⊎ (sentinel x ≡ err_duplicate_node)
  unfolding add_nodes
  add_nodes-err i [] dag h = cc
  add_nodes-err i (n ∷ ns) dag h = elim (>>=-eq-err (add_node i n dag) _ h) [
    | inl e ↦ add_node-err i n dag e
    | inr (d, p, q) ↦ add_nodes-err (suc i) ns d q
  ]

  add_edge-err :
      (e : WorkflowEdge) (es : List WorkflowEdge) (st : List (String × String) × Dag C)
      (x : BuildError)
      → add_edge e st ≡ err x
      → EdgeError x (e ∷ es) (keys st.1.nodes)
  unfolding add_edge
  add_edge-err e es (seen, dag) x h = (
    λ p. ground arith,
    λ p. (
      e.source_node,
      ground (arith, eq_iff e.source_node e.target_node, eq_iff e.source_node e.source_node),
      ground (arith, lookup-present e.source_node dag.nodes),
    ),
  )

  add_edges-err :
      (es : List WorkflowEdge) (st : List (String × String) × Dag C) (x : BuildError)
      → add_edges es st ≡ err x
      → EdgeError x es (keys st.1.nodes)
  unfolding add_edges
  add_edges-err [] st x h = cc
  add_edges-err (e ∷ es) st x h = elim (>>=-eq-err (add_edge e st) _ h) [
    | inl p ↦ add_edge-err e es st x p
    | inr (s, p, q) ↦
        let rest = add_edges-err es s x q in
        (
          rest.0,
          λ c.
              let (k, l, m) = rest.1 c in
              (k, omega (arith), rw (ap keys (add_edge_writes e st s p).1) at m),
        )
  ]

  -- Where `errors.Is(err, ErrCycle)` holds of the error, no listing of the nodes is topological.
  pub build_dag-cycle :
      (ns : List (WorkflowNode C)) (es : List WorkflowEdge) (x : BuildError)
      → build_dag ns es ≡ err x
      → sentinel x ≡ err_cycle
      → (ord : List String) → IsListing ns ord
      → ¬ IsTopological es ord
  unfolding build_dag
  build_dag-cycle [] es x h c ord l t = ground arith
  build_dag-cycle (n ∷ ns) es x h c ord l t =
      elim (>>=-eq-err (add_nodes 0 (n ∷ ns) empty_dag) _ h) [
        | inl p ↦ ground (arith, add_nodes-err 0 (n ∷ ns) empty_dag p)
        | inr (dag, p, q) ↦ elim (>>=-eq-err (add_edges es ([], dag)) _ q) [
          | inl r ↦
              let (k, loop, known) = (add_edges-err es ([], dag) x r).1 c in
              let v = add_nodes-HasNodes 0 (n ∷ ns) empty_dag dag [] empty_dag-HasNodes p in
              TopoFrom-loop (edge_count es) k [] ord loop refl
                (omega (arith, l k, ap (count k) v.named)) t
          | inr (st, r, f) ↦
              sort_dag-err (node_keys (n ∷ ns)) es st (loops-HasEdges (n ∷ ns) es dag st p r) f ord
                l t
        ]
      ]

  -- The loops of `BuildDAG` end: the fuel is never used up.
  pub build_dag_ends :
      (ns : List (WorkflowNode C)) (es : List WorkflowEdge) → build_dag ns es ≢ err fuel_exhausted
  unfolding build_dag
  build_dag_ends [] es h = ground arith
  build_dag_ends (n ∷ ns) es h = elim (>>=-eq-err (add_nodes 0 (n ∷ ns) empty_dag) _ h) [
    | inl p ↦ ground (arith, add_nodes-err 0 (n ∷ ns) empty_dag p)
    | inr (dag, p, q) ↦ elim (>>=-eq-err (add_edges es ([], dag)) _ q) [
      | inl r ↦ (add_edges-err es ([], dag) fuel_exhausted r).0 refl
      | inr (st, r, f) ↦
          sort_dag_ends (node_keys (n ∷ ns)) es st (loops-HasEdges (n ∷ ns) es dag st p r) f
    ]
  ]
