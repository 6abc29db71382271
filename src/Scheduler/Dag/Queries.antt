-- ===== src/Scheduler/Dag/Queries.antt =====
-- The maps of a built graph, and the queries that the engine makes of it.
use nebula_flow.Prelude.{
  ℕ, ◌+◌, ◌≤◌, ◌<◌, String, ◌≡◌, refl, ap, ◌∙◌, Bool, ◌&&◌, not, List, [], ◌∷◌, arith, nat_eq, ◌==◌,
  string_eq, if◌then◌else◌, count, count-append, ok, >>=-eq-ok, Bool-cases, inl, inr,
}
use nebula_flow.Prelude.Int.{ℤ, pos, is_zero}
use nebula_flow.Prelude.Maps.{lookup, keys, IsMap, missing_lookup}
use nebula_flow.Prelude.Text.{count-sort_strings, IsSorted, sort_strings-IsSorted}
use text.Mathlib.TextEquality.{eq_iff}
use nebula_flow.Model.{WorkflowNode, WorkflowEdge}
use nebula_flow.Scheduler.Dag.{
  Node, Dag, degree, targets, flag, empty_dag, add_nodes, add_edges, build_dag, ready_keys,
  ready_nodes, source_repeats, sources_of, inputs_of,
}
use nebula_flow.Scheduler.Dag.Relax.{pending}
use nebula_flow.Scheduler.Dag.Nodes.{node_keys}
use nebula_flow.Scheduler.Dag.Edges.{edge_count}
use nebula_flow.Scheduler.Dag.Order.{loops-HasEdges, sort_dag-ok}

-- The edges given into `t`.
abbrev pub in_edges : List WorkflowEdge → String → ℕ
in_edges [] t = 0
in_edges (e ∷ es) t = (if e.target_node == t then 1 else 0) + in_edges es t

-- The edges given from the nodes `ns` to `t`.
abbrev edges_from : List WorkflowEdge → List String → String → ℕ
edges_from es [] t = 0
edges_from es (s ∷ ns) t = edge_count es s t + edges_from es ns t

edges_from-nil : (ns : List String) (t : String) → edges_from [] ns t ≡ 0
edges_from-nil [] t = refl
edges_from-nil (s ∷ ns) t = omega (arith, edges_from-nil ns t)

edges_from-cons :
    (e : WorkflowEdge) (es : List WorkflowEdge) (ns : List String) (t : String)
    → edges_from (e ∷ es) ns t
      ≡ edges_from es ns t + (if e.target_node == t then count e.source_node ns else 0)
edges_from-cons e es [] t = ground arith
edges_from-cons e es (s ∷ ns) t =
    ground (arith, edges_from-cons e es ns t, eq_iff e.source_node s, eq_iff s e.source_node)

pending-edges_from :
    (edges : List (String × List String)) (es : List WorkflowEdge) (ns : List String) (t : String)
    → ((s u : String) → count u (targets edges s) ≡ edge_count es s u)
    → pending edges ns [] t ≡ edges_from es ns t
pending-edges_from edges es [] t h = refl
pending-edges_from edges es (s ∷ ns) t h = omega (arith, pending-edges_from edges es ns t h, h s t)

edges_from-all :
    (es : List WorkflowEdge) (ns : List String) (t : String)
    → ((k : String) → count k ns ≤ 1)
    → ((s u : String) → 0 < edge_count es s u → 0 < count s ns)
    → edges_from es ns t ≡ in_edges es t
edges_from-all [] ns t h k = edges_from-nil ns t
edges_from-all (e ∷ es) ns t h k = ground (
  arith,
  edges_from-cons e es ns t,
  edges_from-all es ns t h (λ s u p. k s u (omega arith)),
  h e.source_node,
  k e.source_node e.target_node,
  eq_iff e.source_node e.source_node,
  eq_iff e.target_node e.target_node,
)

count-source_repeats :
    (s src key : String) (ts : List String)
    → count s (source_repeats src key ts) ≡ (if src == s then count key ts else 0)
count-source_repeats s src key [] = ground arith
count-source_repeats s src key (t ∷ ts) = ground (arith, count-source_repeats s src key ts)

count-sources_of :
    (s key : String) (m : List (String × List String))
    → IsMap m
    → count s (sources_of key m) ≡ count key (targets m s)
unfolding lookup
count-sources_of s key [] h = refl
count-sources_of s key ((j, ts) ∷ m) h = ground (
  arith,
  h s,
  count-append s (source_repeats j key ts) (sources_of key m),
  count-source_repeats s j key ts,
  count-sources_of s key m (λ k. omega (arith, h k)),
  missing_lookup s m,
)

module _ {C : Type 0} where
  count-ready_keys :
      (k : String) (deg : List (String × ℤ)) (done : List (String × Bool))
      (m : List (String × Node C))
      → count k (ready_keys deg done m)
        ≡ (if not (flag done k) && is_zero (degree deg k) then count k (keys m) else 0)
  count-ready_keys k deg done [] = ground arith
  count-ready_keys k deg done ((j, n) ∷ m) = elim (Bool-cases (j == k)) [
    | inl same ↦ ground (
      arith,
      count-ready_keys k deg done m,
      ap (λ i. not (flag done i) && is_zero (degree deg i)) ((eq_iff j k).0 same),
    )
    | inr other ↦ ground (arith, count-ready_keys k deg done m)
  ]

  -- `ReadyNodes` lists the nodes that are not done and wait for nothing, each as often as it is a
  -- node, in the order of their keys.
  pub ready_nodes_lem :
      (d : Dag C) (deg : List (String × ℤ)) (done : List (String × Bool))
      → ((k : String)
          → count k (ready_nodes d deg done)
            ≡ (if not (flag done k) && is_zero (degree deg k) then count k (keys d.nodes) else 0))
        × IsSorted (ready_nodes d deg done)
  unfolding ready_nodes
  ready_nodes_lem d deg done = (
    λ k. count-sort_strings k (ready_keys deg done d.nodes) ∙ count-ready_keys k deg done d.nodes,
    sort_strings-IsSorted (ready_keys deg done d.nodes),
  )

  -- The built graph's maps count the edges given, between two nodes and into one.
  pub build_dag-maps :
      (ns : List (WorkflowNode C)) (es : List WorkflowEdge) (d : Dag C)
      → build_dag ns es ≡ ok d
      → ((s t : String) → count t (targets d.edges s) ≡ edge_count es s t)
        × ((t : String) → degree d.in_degree t ≡ pos (in_edges es t))
        × (keys d.nodes ≡ node_keys ns)
        × ((s t : String) → edge_count es s t ≤ 1)
        × ((s : String) → edge_count es s s ≡ 0)
  unfolding build_dag
  build_dag-maps [] es d h = cc
  build_dag-maps (n ∷ ns) es d h =
      let (dag, p, q) = >>=-eq-ok (add_nodes 0 (n ∷ ns) empty_dag) _ h in
      let (st, r, f) = >>=-eq-ok (add_edges es ([], dag)) _ q in
      let v = loops-HasEdges (n ∷ ns) es dag st p r in
      let (_, _, deg, edges, nodes) = sort_dag-ok (node_keys (n ∷ ns)) es st v d f in
      (
        λ s t. rw edges (v.adjacency s t),
        λ t.
            rw (deg, v.degrees t)
              (ap pos (
                pending-edges_from st.1.edges es (node_keys (n ∷ ns)) t v.adjacency
                ∙ edges_from-all es (node_keys (n ∷ ns)) t v.nodup (λ s u l. (v.closed s u l).0))),
        rw nodes v.named,
        v.distinct,
        v.loopless,
      )

  -- `InputsOf` lists the sources of the edges into a node, sorted by key.
  pub build_dag-inputs_of :
      (ns : List (WorkflowNode C)) (es : List WorkflowEdge) (d : Dag C)
      → build_dag ns es ≡ ok d
      → (key : String)
      → ((s : String) → count s (inputs_of d key) ≡ edge_count es s key)
        × IsSorted (inputs_of d key)
  unfolding build_dag inputs_of
  build_dag-inputs_of [] es d h key = cc
  build_dag-inputs_of (n ∷ ns) es d h key =
      let (dag, p, q) = >>=-eq-ok (add_nodes 0 (n ∷ ns) empty_dag) _ h in
      let (st, r, f) = >>=-eq-ok (add_edges es ([], dag)) _ q in
      let v = loops-HasEdges (n ∷ ns) es dag st p r in
      let (_, _, deg, edges, nodes) = sort_dag-ok (node_keys (n ∷ ns)) es st v d f in
      (
        λ s.
            count-sort_strings s (sources_of key d.edges)
            ∙ count-sources_of s key d.edges (rw edges v.edge_map)
            ∙ rw edges (v.adjacency s key),
        sort_strings-IsSorted (sources_of key d.edges),
      )
