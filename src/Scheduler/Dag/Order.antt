-- ===== src/Scheduler/Dag/Order.antt =====
-- `BuildDAG` as a whole: what it accepts, the order that it returns, and what it calls a cycle.
use nebula_flow.Prelude.{
  ℕ, suc, ◌≤◌, String, ◌≡◌, ◌≢◌, refl, sym, ap, ◌∙◌, List, [], ◌∷◌, some, arith, nat_eq, string_eq,
  if◌then◌else◌, length, count, count-eq_of_length, ok, err, >>=-eq-ok,
}
use nebula_flow.Prelude.Int.{ℤ, is_zero}
use nebula_flow.Prelude.Maps.{lookup, keys, length-keys}
use nebula_flow.Prelude.Text.{sort_strings, count-sort_strings}
use nebula_flow.Model.{WorkflowNode, WorkflowEdge}
use nebula_flow.Scheduler.Dag.{
  Dag, BuildError, fuel_exhausted, degree, targets, empty_dag, add_nodes, add_edges, zero_keys,
  kahn, finish_build, sort_dag, build_dag,
}
use nebula_flow.Scheduler.Dag.Kahn.{TopoFrom, IsGraph, Inv, Ends, arcs, kahn-Ends, visits-all}
use nebula_flow.Scheduler.Dag.Nodes.{node_keys, HasNodes, add_nodes-HasNodes}
use nebula_flow.Scheduler.Dag.Edges.{edge_count, HasEdges, add_edges-HasEdges, pending-nil}

-- Each edge's source stands before its target.
abbrev pub IsTopological : List WorkflowEdge → List String → Type 0
IsTopological es order = TopoFrom (edge_count es) [] order

-- The list names each node once, and nothing else.
abbrev pub IsListing : {C : Type 0} → List (WorkflowNode C) → List String → Type 0
IsListing ns order = (k : String) → count k order ≡ count k (node_keys ns)

pub TopoFrom-congr :
    (f g : String → String → ℕ) (seen order : List String)
    → ((s t : String) → f s t ≡ g s t)
    → TopoFrom f seen order
    → TopoFrom g seen order
TopoFrom-congr f g seen [] h t = tt
TopoFrom-congr f g seen (c ∷ rest) h t =
    (λ s p. t.0 s (omega (arith, h s c)), TopoFrom-congr f g (c ∷ seen) rest h t.1)

zero_keys-le : (k : String) (m : List (String × ℤ)) → count k (zero_keys m) ≤ count k (keys m)
unfolding zero_keys
zero_keys-le k [] = omega arith
zero_keys-le k ((j, d) ∷ m) = ground (arith, zero_keys-le k m)

count-zero_keys :
    (k : String) (m : List (String × ℤ))
    → ((j : String) → count j (keys m) ≤ 1)
    → count k (zero_keys m) ≡ (if is_zero (degree m k) then count k (keys m) else 0)
unfolding zero_keys lookup
count-zero_keys k [] h = refl
count-zero_keys k ((j, d) ∷ m) h =
    ground (arith, h k, zero_keys-le k m, count-zero_keys k m (λ i. omega (arith, h i)))

targets-nil : (s : String) → targets [] s ≡ []
unfolding lookup
targets-nil s = refl

module _ {C : Type 0} where
  finish_build-ok :
      (dag d : Dag C) (order : List String) (n : ℕ)
      → finish_build dag (some (order, n)) ≡ ok d
      → (n ≡ length dag.nodes) × (d ≡ record dag { order = order })
  finish_build-ok dag d order n h = ground arith

  finish_build-err :
      (dag : Dag C) (order : List String) (n : ℕ) {x : BuildError}
      → finish_build dag (some (order, n)) ≡ err x
      → n ≢ length dag.nodes
  finish_build-err dag order n h = ground arith

  finish_build_ends :
      (dag : Dag C) (order : List String) (n : ℕ)
      → finish_build dag (some (order, n)) ≢ err fuel_exhausted
  finish_build_ends dag order n h = ground arith

  module _ (names : List String) (es : List WorkflowEdge) (st : List (String × String) × Dag C)
      (v : HasEdges names es st) where
    graph : IsGraph names st.1.edges
    graph = record {
      nodup = v.nodup;
      closed = λ s t p. v.closed s t (omega (arith, v.adjacency s t));
    }

    start-Inv : Inv names st.1.edges st.1.in_degree (sort_strings (zero_keys st.1.in_degree)) []
    start-Inv = record {
      within = λ k. ground (arith, queued k);
      degrees = v.degrees;
      settled = λ t h. ground (arith, queued t, v.degrees t);
      complete = λ t h k. ground (arith, queued t, v.degrees t);
      topo = tt;
    }
      where
        queued :
            (k : String)
            → count k (sort_strings (zero_keys st.1.in_degree))
              ≡ (if is_zero (degree st.1.in_degree k) then count k names else 0)
        queued k =
            count-sort_strings k (zero_keys st.1.in_degree)
            ∙ count-zero_keys k st.1.in_degree (λ j. rw v.in_keys (v.nodup j))
            ∙ rw v.in_keys refl

    loop-Ends : Ends names st.1.edges (
        kahn
          (suc (length st.1.nodes))
          st.1.edges
          st.1.in_degree
          (sort_strings (zero_keys st.1.in_degree))
          []
          0)
    loop-Ends =
        kahn-Ends names st.1.edges graph _ _ _ [] 0 refl
          (omega (arith, length-keys st.1.nodes, ap length v.named)) start-Inv

    topological :
        (ord : List String) → IsTopological es ord → TopoFrom (arcs names st.1.edges) [] ord
    topological ord t = TopoFrom-congr _ _ [] ord (λ s u. sym (v.adjacency s u)) t

    -- The end of the build, by the outcome of the loop.
    pub sort_dag-ok :
        (d : Dag C)
        → sort_dag st.1 ≡ ok d
        → ((k : String) → count k d.order ≡ count k names)
          × IsTopological es d.order
          × (d.in_degree ≡ st.1.in_degree)
          × (d.edges ≡ st.1.edges)
          × (d.nodes ≡ st.1.nodes)
    unfolding sort_dag
    sort_dag-ok d h =
        let (order, e, (deg, inv)) = loop-Ends in
        let (full, same) = finish_build-ok st.1 d order (length order) (rw e at h) in
        rw same (
          count-eq_of_length order names (λ k. omega (arith, inv.within k))
              (omega (arith, full, length-keys st.1.nodes, ap length v.named)),
          TopoFrom-congr _ _ [] order v.adjacency inv.topo,
          refl,
          refl,
          refl,
        )

    pub sort_dag-err :
        {x : BuildError}
        → sort_dag st.1 ≡ err x
        → (ord : List String) → ((k : String) → count k ord ≡ count k names)
        → ¬ IsTopological es ord
    unfolding sort_dag
    sort_dag-err h ord w t =
        let (order, e, (deg, inv)) = loop-Ends in
        finish_build-err st.1 order (length order) (rw e at h) (
          omega (
            arith,
            visits-all names st.1.edges graph deg order ord inv w (topological ord t),
            length-keys st.1.nodes,
            ap length v.named,
          ))

    pub sort_dag_ends : sort_dag st.1 ≢ err fuel_exhausted
    unfolding sort_dag
    sort_dag_ends h =
        let (order, e, _) = loop-Ends in finish_build_ends st.1 order (length order) (rw e at h)

  pub empty_dag-HasNodes : HasNodes {C = C} empty_dag []
  unfolding lookup
  empty_dag-HasNodes = record {
    named = refl;
    nodup = λ k. omega arith;
    in_keys = refl;
    no_edges = refl;
    no_degrees = λ t. refl;
  }

  -- The loops before the sort leave the state that it needs.
  pub loops-HasEdges :
      (ns : List (WorkflowNode C)) (es : List WorkflowEdge) (dag : Dag C)
      (st : List (String × String) × Dag C)
      → add_nodes 0 ns empty_dag ≡ ok dag
      → add_edges es ([], dag) ≡ ok st
      → HasEdges (node_keys ns) es st
  loops-HasEdges ns es dag st h k = add_edges-HasEdges (node_keys ns) es [] ([], dag) st start k
    where
      noded : HasNodes dag (node_keys ns)
      noded = add_nodes-HasNodes 0 ns empty_dag dag [] empty_dag-HasNodes h

      start : HasEdges (node_keys ns) [] ([], dag)
      start = record {
        named = noded.named;
        nodup = λ k. rw noded.named at noded.nodup k;
        in_keys = noded.in_keys;
        adjacency = λ s t. rw (noded.no_edges, targets-nil s) refl;
        degrees =
            λ t. rw (noded.no_edges, noded.no_degrees t, pending-nil (node_keys ns) [] t) refl;
        closed = λ s t p. absurd (omega arith);
        recorded = λ s t p. refl;
        distinct = λ s t. omega arith;
        edge_map = λ k. rw noded.no_edges (omega arith);
        loopless = λ s. refl;
      }

  -- A graph that is built lists each of the workflow's nodes once, every edge leading forwards.
  pub build_dag-order :
      (ns : List (WorkflowNode C)) (es : List WorkflowEdge) (d : Dag C)
      → build_dag ns es ≡ ok d
      → IsListing ns d.order × ((k : String) → count k d.order ≤ 1) × IsTopological es d.order
  unfolding build_dag
  build_dag-order [] es d h = cc
  build_dag-order (n ∷ ns) es d h =
      let (dag, p, q) = >>=-eq-ok (add_nodes 0 (n ∷ ns) empty_dag) _ h in
      let (st, r, f) = >>=-eq-ok (add_edges es ([], dag)) _ q in
      let v = loops-HasEdges (n ∷ ns) es dag st p r in
      let (listed, sorted, _, _, _) = sort_dag-ok (node_keys (n ∷ ns)) es st v d f in
      (listed, λ k. omega (arith, v.nodup k, listed k), sorted)
