-- ===== src/Scheduler/Dag.antt =====
-- internal/scheduler/dag.go: a workflow as a graph, its validation and its topological order.
pub mod Relax
pub mod Kahn
mod Nodes
mod Edges
pub mod Order
pub mod Cycle
pub mod Queries
pub mod Runnable
pub mod Examples
use nebula_flow.Prelude.{
  ℕ, zero, suc, String, Bool, true, false, ◌&&◌, not, List, [], ◌∷◌, ◌++◌, Option, none, some, ltb,
  ◌==◌, nat_eq, string_eq, if◌then◌else◌, length, Result, ok, err, ◌>>=◌,
}
use nebula_flow.Prelude.Int.{ℤ, pos, inc, dec, is_zero}
use nebula_flow.Prelude.Maps.{lookup, insert, or_zero}
use nebula_flow.Prelude.Text.{sort_strings}
use nebula_flow.Model.{NodeType, WorkflowNode, WorkflowEdge}

pub record Node (C : Type 0) : Type 0 where
  pub key : String
  pub node_type : NodeType
  pub config : C
  pub id : ℕ

pub record Dag (C : Type 0) : Type 0 where
  pub nodes : List (String × Node C)
  pub edges : List (String × List String)
  pub in_degree : List (String × ℤ)
  pub order : List String

-- The errors of `BuildDAG` with what their texts name; `fuel_exhausted` is the model's own, and
-- stands for a loop that does not end.
pub data BuildError : Type 0 where
  empty_workflow : BuildError
  empty_key : ℕ → BuildError
  duplicate_node : String → BuildError
  unsupported_type : String → NodeType → BuildError
  dangling_edge : String → BuildError
  self_loop : String → BuildError
  duplicate_edge : String → String → BuildError
  cycle : BuildError
  fuel_exhausted : BuildError

-- The error that `errors.Is` finds in the chain.
pub data Sentinel : Type 0 where
  err_empty_workflow err_cycle err_dangling_edge err_duplicate_node err_invalid_node : Sentinel
  no_sentinel : Sentinel

abbrev pub sentinel : BuildError → Sentinel
sentinel empty_workflow = err_empty_workflow
sentinel (empty_key i) = err_invalid_node
sentinel (duplicate_node k) = err_duplicate_node
sentinel (unsupported_type k t) = err_invalid_node
sentinel (dangling_edge k) = err_dangling_edge
sentinel (self_loop k) = err_cycle
sentinel (duplicate_edge s t) = err_invalid_node
sentinel cycle = err_cycle
sentinel fuel_exhausted = no_sentinel

unfoldable pub validate_node_type : NodeType → Bool
validate_node_type (NodeType.other s) = false
validate_node_type _ = true

-- `_, ok := m[k]`
abbrev pub is_some {ℓ} : {A : Type ℓ} → Option A → Bool
is_some none = false
is_some (some a) = true

-- `m[t]` of an in-degree map, and `m[s]` of an adjacency map.
abbrev pub degree : List (String × ℤ) → String → ℤ
degree m t = or_zero (pos 0) (lookup t m)

abbrev pub targets : List (String × List String) → String → List String
targets m s = or_zero [] (lookup s m)

abbrev pub has_pair : String → String → List (String × String) → Bool
has_pair s t [] = false
has_pair s t ((a, b) ∷ seen) = if a == s && b == t then true else has_pair s t seen

module _ {C : Type 0} where
  pub add_node : ℕ → WorkflowNode C → Dag C → Result BuildError (Dag C)
  unfolding validate_node_type
  add_node i n dag =
      if n.node_key == ""
      then err (empty_key i)
      else if is_some (lookup n.node_key dag.nodes)
      then err (duplicate_node n.node_key)
      else if not (validate_node_type n.node_type)
      then err (unsupported_type n.node_key n.node_type)
      else ok (record dag {
        nodes =
            insert n.node_key
              (record { key = n.node_key; node_type = n.node_type; config = n.config; id = n.id })
              dag.nodes;
        in_degree = insert n.node_key (pos 0) dag.in_degree;
      })

  pub add_nodes : ℕ → List (WorkflowNode C) → Dag C → Result BuildError (Dag C)
  add_nodes i [] dag = ok dag
  add_nodes i (n ∷ ns) dag = add_node i n dag >>= λ dag'. add_nodes (suc i) ns dag'

  -- The edge loop's state: the set `seen` and the graph.
  pub add_edge :
      WorkflowEdge
      → List (String × String) × Dag C
      → Result BuildError (List (String × String) × Dag C)
  add_edge e (seen, dag) =
      if not (is_some (lookup e.source_node dag.nodes))
      then err (dangling_edge e.source_node)
      else if not (is_some (lookup e.target_node dag.nodes))
      then err (dangling_edge e.target_node)
      else if e.source_node == e.target_node
      then err (self_loop e.source_node)
      else if has_pair e.source_node e.target_node seen
      then err (duplicate_edge e.source_node e.target_node)
      else ok (
        (e.source_node, e.target_node) ∷ seen,
        record dag {
          edges =
              insert e.source_node (targets dag.edges e.source_node ++ e.target_node ∷ [])
                dag.edges;
          in_degree = insert e.target_node (inc (degree dag.in_degree e.target_node)) dag.in_degree;
        },
      )

  pub add_edges :
      List WorkflowEdge
      → List (String × String) × Dag C
      → Result BuildError (List (String × String) × Dag C)
  add_edges [] s = ok s
  add_edges (e ∷ es) s = add_edge e s >>= λ s'. add_edges es s'

-- The keys of in-degree 0, in the order of the map.
pub zero_keys : List (String × ℤ) → List String
zero_keys [] = []
zero_keys ((k, d) ∷ m) = let rest = zero_keys m in if is_zero d then k ∷ rest else rest

-- The inner loop: each target loses one from its in-degree, and those that reach 0 are collected.
pub relax : List String → List (String × ℤ) → List String → List (String × ℤ) × List String
relax [] deg next = (deg, next)
relax (t ∷ ts) deg next =
    let d = dec (degree deg t) in
    relax ts (insert t d deg) (if is_zero d then next ++ t ∷ [] else next)

-- The outer loop, on fuel; the result is the order and `visited`.
pub kahn :
    ℕ
    → List (String × List String)
    → List (String × ℤ)
    → List String
    → List String
    → ℕ
    → Option (List String × ℕ)
kahn zero edges deg queue order visited = none
kahn (suc f) edges deg [] order visited = some (order, visited)
kahn (suc f) edges deg (cur ∷ queue) order visited =
    let (deg', next) = relax (targets edges cur) deg [] in
    kahn f edges deg' (queue ++ (if ltb 1 (length next) then sort_strings next else next))
      (order ++ cur ∷ []) (suc visited)

module _ {C : Type 0} where
  abbrev pub empty_dag : Dag C
  empty_dag = record { nodes = []; edges = []; in_degree = []; order = [] }

  -- The end of `BuildDAG`, from the outcome of the loop.
  abbrev pub finish_build : Dag C → Option (List String × ℕ) → Result BuildError (Dag C)
  finish_build dag none = err fuel_exhausted
  finish_build dag (some (order, visited)) =
      if not (visited == length dag.nodes) then err cycle else ok (record dag { order = order })

  pub sort_dag : Dag C → Result BuildError (Dag C)
  sort_dag dag = finish_build dag (
      kahn (suc (length dag.nodes)) dag.edges dag.in_degree (sort_strings (zero_keys dag.in_degree))
        [] 0)

  pub build_dag : List (WorkflowNode C) → List WorkflowEdge → Result BuildError (Dag C)
  build_dag [] edges = err empty_workflow
  build_dag (n ∷ ns) edges =
      add_nodes 0 (n ∷ ns) empty_dag >>= λ dag. add_edges edges ([], dag) >>= λ s. sort_dag s.1

-- `done[k]`: false for a missing key.
abbrev pub flag : List (String × Bool) → String → Bool
flag m k = or_zero false (lookup k m)

abbrev pub source_repeats : String → String → List String → List String
source_repeats src key [] = []
source_repeats src key (t ∷ ts) =
    let rest = source_repeats src key ts in if t == key then src ∷ rest else rest

abbrev pub sources_of : String → List (String × List String) → List String
sources_of key [] = []
sources_of key ((src, ts) ∷ m) = source_repeats src key ts ++ sources_of key m

module _ {C : Type 0} where
  abbrev pub ready_keys :
      List (String × ℤ) → List (String × Bool) → List (String × Node C) → List String
  ready_keys deg done [] = []
  ready_keys deg done ((k, n) ∷ m) =
      let rest = ready_keys deg done m in
      if not (flag done k) && is_zero (degree deg k) then k ∷ rest else rest

  unfoldable pub ready_nodes : Dag C → List (String × ℤ) → List (String × Bool) → List String
  ready_nodes d deg done = sort_strings (ready_keys deg done d.nodes)

  pub inputs_of : Dag C → String → List String
  inputs_of d key = sort_strings (sources_of key d.edges)
