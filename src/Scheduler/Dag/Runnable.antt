-- ===== src/Scheduler/Dag/Runnable.antt =====
-- What the run relies on of the graph that `BuildDAG` returns.
use nebula_flow.Prelude.{
  ◌≤◌, ◌<◌, subst, String, ◌≡◌, ap, ◌∙◌, sym, List, [], ◌∷◌, arith, string_eq, count, ok, >>=-eq-ok,
}
use nebula_flow.Prelude.Int.{ℤ, pos}
use nebula_flow.Prelude.Maps.{keys}
use nebula_flow.Model.{WorkflowNode, WorkflowEdge}
use nebula_flow.Scheduler.Dag.{Dag, degree, targets, empty_dag, add_nodes, add_edges, build_dag}
use nebula_flow.Scheduler.Dag.Relax.{pending}
use nebula_flow.Scheduler.Dag.Kahn.{TopoFrom}
use nebula_flow.Scheduler.Dag.Nodes.{node_keys}
use nebula_flow.Scheduler.Dag.Order.{loops-HasEdges, sort_dag-ok, TopoFrom-congr}

pub record IsRunnable (names : List String) (edges : List (String × List String))
    (deg : List (String × ℤ)) (order : List String) : Type 0 where
  pub nodup : (k : String) → count k names ≤ 1
  pub closed :
      (s t : String) → 0 < count t (targets edges s) → (0 < count s names) × (0 < count t names)
  pub degrees : (t : String) → degree deg t ≡ pos (pending edges names [] t)
  pub listed : (k : String) → count k order ≡ count k names
  pub topo : TopoFrom (λ s t. count t (targets edges s)) [] order

module _ {C : Type 0} where
  pub build_dag-IsRunnable :
      (ns : List (WorkflowNode C)) (es : List WorkflowEdge) (d : Dag C)
      → build_dag ns es ≡ ok d
      → IsRunnable (keys d.nodes) d.edges d.in_degree d.order
  unfolding build_dag
  build_dag-IsRunnable [] es d h = cc
  build_dag-IsRunnable (n ∷ ns) es d h =
      let (dag, p, q) = >>=-eq-ok (add_nodes 0 (n ∷ ns) empty_dag) _ h in
      let (st, r, f) = >>=-eq-ok (add_edges es ([], dag)) _ q in
      let v = loops-HasEdges (n ∷ ns) es dag st p r in
      let (listed, sorted, deg, edges, nodes) = sort_dag-ok (node_keys (n ∷ ns)) es st v d f in
      let named : keys d.nodes ≡ node_keys (n ∷ ns) = ap keys nodes ∙ v.named in
      subst (λ l. IsRunnable l d.edges d.in_degree d.order) (sym named)
        (subst (λ l. IsRunnable (node_keys (n ∷ ns)) l d.in_degree d.order) (sym edges)
          (subst (λ l. IsRunnable (node_keys (n ∷ ns)) st.1.edges l d.order) (sym deg)
            (record {
              nodup = v.nodup;
              closed = λ s t p. v.closed s t (omega (arith, v.adjacency s t));
              degrees = v.degrees;
              listed = listed;
              topo = TopoFrom-congr _ _ [] d.order (λ s t. sym (v.adjacency s t)) sorted;
            })))
