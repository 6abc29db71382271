-- ===== src/Scheduler/Dag/Examples.antt =====
-- A diamond, a cycle, and the graph's theorems at them.
use nebula_flow.Prelude.{ℕ, ◌≤◌, String, ◌≡◌, ◌≢◌, refl, List, [], ◌∷◌, string_eq, count, ok, err}
use nebula_flow.Prelude.Int.{pos}
use nebula_flow.Prelude.Maps.{lookup, insert}
use nebula_flow.Prelude.Text.{sort_strings, str_leb}
use nebula_flow.Model.{NodeType, WorkflowNode, WorkflowEdge}
use nebula_flow.Scheduler.Dag.{
  Dag, Node, cycle, fuel_exhausted, add_node, add_nodes, add_edge, add_edges, zero_keys, relax,
  kahn, sort_dag, build_dag, ready_nodes,
}
use nebula_flow.Scheduler.Dag.Nodes.{node_keys}
use nebula_flow.Scheduler.Dag.Order.{IsTopological, IsListing, build_dag-order}
use nebula_flow.Scheduler.Dag.Cycle.{build_dag-cycle, build_dag_ends}

abbrev named_node : String → NodeType → WorkflowNode ℕ
named_node k t = record { id = 0; workflow_id = 7; node_key = k; node_type = t; config = 0 }

abbrev edge : String → String → WorkflowEdge
edge s t = record { id = 0; workflow_id = 7; source_node = s; target_node = t }

abbrev pub diamond_nodes : List (WorkflowNode ℕ)
diamond_nodes =
    named_node "out" NodeType.output
    ∷ named_node "b" NodeType.llm
    ∷ named_node "a" NodeType.rag
    ∷ named_node "in" NodeType.input
    ∷ []

abbrev pub diamond_edges : List WorkflowEdge
diamond_edges = edge "in" "b" ∷ edge "in" "a" ∷ edge "b" "out" ∷ edge "a" "out" ∷ []

abbrev stored_node : String → NodeType → Node ℕ
stored_node k t = record { key = k; node_type = t; config = 0; id = 0 }

abbrev pub diamond : Dag ℕ
diamond = record {
  nodes =
      ("out", stored_node "out" NodeType.output)
      ∷ ("b", stored_node "b" NodeType.llm)
      ∷ ("a", stored_node "a" NodeType.rag)
      ∷ ("in", stored_node "in" NodeType.input)
      ∷ [];
  edges = ("in", "b" ∷ "a" ∷ []) ∷ ("b", "out" ∷ []) ∷ ("a", "out" ∷ []) ∷ [];
  in_degree = ("out", pos 2) ∷ ("b", pos 1) ∷ ("a", pos 1) ∷ ("in", pos 0) ∷ [];
  order = "in" ∷ "a" ∷ "b" ∷ "out" ∷ [];
}

pub diamond_built : build_dag diamond_nodes diamond_edges ≡ ok diamond
unfolding build_dag add_nodes add_node add_edges add_edge sort_dag zero_keys relax kahn lookup
    insert sort_strings str_leb
diamond_built = refl

build_dag-order_example :
    IsListing diamond_nodes diamond.order
    × ((k : String) → count k diamond.order ≤ 1)
    × IsTopological diamond_edges diamond.order
build_dag-order_example = build_dag-order diamond_nodes diamond_edges diamond diamond_built

ready_at_start : ready_nodes diamond diamond.in_degree [] ≡ "in" ∷ []
unfolding ready_nodes lookup sort_strings
ready_at_start = refl

abbrev ring_edges : List WorkflowEdge
ring_edges = edge "in" "b" ∷ edge "b" "a" ∷ edge "a" "b" ∷ []

ring_refused : build_dag diamond_nodes ring_edges ≡ err cycle
unfolding build_dag add_nodes add_node add_edges add_edge sort_dag zero_keys relax kahn lookup
    insert sort_strings str_leb
ring_refused = refl

build_dag-cycle_example : ¬ IsTopological ring_edges (node_keys diamond_nodes)
build_dag-cycle_example =
    build_dag-cycle diamond_nodes ring_edges cycle ring_refused refl (node_keys diamond_nodes)
      (λ k. refl)

build_dag_ends_example : build_dag diamond_nodes ring_edges ≢ err fuel_exhausted
build_dag_ends_example = build_dag_ends diamond_nodes ring_edges
