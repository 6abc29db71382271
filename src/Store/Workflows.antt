-- ===== src/Store/Workflows.antt =====
-- internal/store/memory.go: memWorkflowRepo, over the part of MemoryStore that it reads and writes.
-- The time of a call is an argument, and a Go map is read in the order of its list.
pub mod Visibility
use nebula_flow.Prelude.{
  ℕ, zero, suc, String, Bool, true, false, not, ◌&&◌, ◌||◌, List, [], ◌∷◌, ◌++◌, Option, none, some,
  ltb, nat_eq, string_eq, ◌==◌, if◌then◌else◌, Result, ok, err, ◌>>=◌,
}
use nebula_flow.Prelude.Maps.{lookup, insert, delete, or_zero}
use nebula_flow.Prelude.Text.{sort_strings}
use nebula_flow.Model.{WorkflowNode, WorkflowEdge}

pub data WorkflowStatus : Type 0 where
  draft published : WorkflowStatus
  other : String → WorkflowStatus

pub record Workflow (C : Type 0) : Type 0 where
  pub id : ℕ
  pub user_id : ℕ
  pub name : String
  pub description : String
  pub status : WorkflowStatus
  pub is_template : Bool
  pub category : String
  pub icon : String
  pub created_at : ℕ
  pub updated_at : ℕ
  pub nodes : List (WorkflowNode C)
  pub edges : List WorkflowEdge

pub data WorkflowError : Type 0 where
  workflow_not_found template_not_found : WorkflowError

pub record Workflows (C : Type 0) : Type 0 where
  pub seq : ℕ
  pub workflows : List (ℕ × Workflow C)
  pub wf_nodes : List (ℕ × List (WorkflowNode C))
  pub wf_edges : List (ℕ × List WorkflowEdge)

-- The edges with fresh numbers, and the last number given.
abbrev pub number_edges : ℕ → ℕ → List WorkflowEdge → ℕ × List WorkflowEdge
number_edges seq wf [] = (seq, [])
number_edges seq wf (e ∷ es) =
    let (last, rest) = number_edges (suc seq) wf es in
    (last, record e { id = suc seq; workflow_id = wf } ∷ rest)

abbrev clear_edges : List WorkflowEdge → List WorkflowEdge
clear_edges [] = []
clear_edges (e ∷ es) = record e { id = 0; workflow_id = 0 } ∷ clear_edges es

module _ {C : Type 0} where
  unfoldable pub new_workflows : Workflows C
  new_workflows = record { seq = 0; workflows = []; wf_nodes = []; wf_edges = [] }

  abbrev pub number_nodes : ℕ → ℕ → List (WorkflowNode C) → ℕ × List (WorkflowNode C)
  number_nodes seq wf [] = (seq, [])
  number_nodes seq wf (n ∷ ns) =
      let (last, rest) = number_nodes (suc seq) wf ns in
      (last, record n { id = suc seq; workflow_id = wf } ∷ rest)

  abbrev clear_nodes : List (WorkflowNode C) → List (WorkflowNode C)
  clear_nodes [] = []
  clear_nodes (n ∷ ns) = record n { id = 0; workflow_id = 0 } ∷ clear_nodes ns

  -- The nodes and the edges of the workflow `wf` are stored under fresh numbers.
  abbrev pub store_graph : Workflow C → ℕ → Workflow C → ℕ → Workflows C → Workflows C
  store_graph given wf stored seq m =
      let (last, nodes) = number_nodes seq wf given.nodes in
      let (final, edges) = number_edges last wf given.edges in
      record {
        seq = final;
        workflows = insert wf stored m.workflows;
        wf_nodes = insert wf nodes m.wf_nodes;
        wf_edges = insert wf edges m.wf_edges;
      }

  abbrev pub without_graph : Workflow C → Workflow C
  without_graph w = record w { nodes = []; edges = [] }

  -- The workflow as it is left in the caller's hands.
  unfoldable pub create_workflow : ℕ → Workflow C → Workflows C → Workflows C × Workflow C
  create_workflow now w m =
      let w' : Workflow C = record w { id = suc m.seq; created_at = now; updated_at = now } in
      (store_graph w (suc m.seq) (without_graph w') (suc m.seq) m, w')

  -- The stored workflow of that number, if it is the user's.
  abbrev pub owned_by : ℕ → Option (Workflow C) → Result WorkflowError (Workflow C)
  owned_by user none = err workflow_not_found
  owned_by user (some w) = if w.user_id == user then ok w else err workflow_not_found

  abbrev pub update_with :
      ℕ
      → Workflow C
      → Workflows C
      → Result WorkflowError (Workflow C)
      → Workflows C × Result WorkflowError (Unit {0})
  update_with now w m (err e) = (m, err e)
  update_with now w m (ok cur) = (
    store_graph w w.id
        (record (without_graph w) {
          user_id = cur.user_id;
          created_at = cur.created_at;
          updated_at = now;
        })
        m.seq m,
    ok tt,
  )

  unfoldable pub update_workflow :
      ℕ → Workflow C → Workflows C → Workflows C × Result WorkflowError (Unit {0})
  update_workflow now w m = update_with now w m (owned_by w.user_id (lookup w.id m.workflows))

  abbrev pub delete_with :
      ℕ
      → Workflows C
      → Result WorkflowError (Workflow C)
      → Workflows C × Result WorkflowError (Unit {0})
  delete_with id m (err e) = (m, err e)
  delete_with id m (ok cur) = (
    record m {
      workflows = delete id m.workflows;
      wf_nodes = delete id m.wf_nodes;
      wf_edges = delete id m.wf_edges;
    },
    ok tt,
  )

  unfoldable pub delete_workflow :
      ℕ → ℕ → Workflows C → Workflows C × Result WorkflowError (Unit {0})
  delete_workflow id user m = delete_with id m (owned_by user (lookup id m.workflows))

  abbrev pub get_workflow_nodes : ℕ → Workflows C → List (WorkflowNode C)
  get_workflow_nodes id m = or_zero [] (lookup id m.wf_nodes)

  abbrev pub get_workflow_edges : ℕ → Workflows C → List WorkflowEdge
  get_workflow_edges id m = or_zero [] (lookup id m.wf_edges)

  abbrev pub with_graph :
      List (WorkflowNode C)
      → List WorkflowEdge
      → Result WorkflowError (Workflow C)
      → Result WorkflowError (Workflow C)
  with_graph nodes edges (err e) = err e
  with_graph nodes edges (ok w) = ok (record w { nodes = nodes; edges = edges })

  unfoldable pub get_workflow : ℕ → ℕ → Workflows C → Result WorkflowError (Workflow C)
  get_workflow id user m =
      with_graph (get_workflow_nodes id m) (get_workflow_edges id m)
        (owned_by user (lookup id m.workflows))

  abbrev pub newer : Workflow C → Workflow C → Bool
  newer a b = if a.updated_at == b.updated_at then ltb b.id a.id else ltb b.updated_at a.updated_at

  abbrev insert_by :
      (Workflow C → Workflow C → Bool) → Workflow C → List (Workflow C) → List (Workflow C)
  insert_by less w [] = w ∷ []
  insert_by less w (v ∷ vs) =
      let rest = insert_by less w vs in if less w v then w ∷ v ∷ vs else v ∷ rest

  -- `sort.Slice`, with equal items in the order of the list.
  abbrev pub sort_by : (Workflow C → Workflow C → Bool) → List (Workflow C) → List (Workflow C)
  sort_by less [] = []
  sort_by less (w ∷ ws) = insert_by less w (sort_by less ws)

  abbrev pub listed : ℕ → List (ℕ × Workflow C) → List (Workflow C)
  listed user [] = []
  listed user ((id, w) ∷ m) =
      let rest = listed user m in
      if w.user_id == user && not w.is_template then without_graph w ∷ rest else rest

  unfoldable pub list_workflows : ℕ → Workflows C → List (Workflow C)
  list_workflows user m = sort_by newer (listed user m.workflows)

  -- A template of the system, or the user's own.
  abbrev pub visible_template : ℕ → Workflow C → Bool
  visible_template user w = w.is_template && (w.user_id == 0 || w.user_id == user)

  -- The templates of the system come first, then by falling time of creation.
  abbrev pub before_template : Workflow C → Workflow C → Bool
  before_template a b =
      if a.user_id == b.user_id then ltb b.created_at a.created_at else a.user_id == 0

  abbrev pub templates_of : ℕ → String → List (ℕ × Workflow C) → List (Workflow C)
  templates_of user category [] = []
  templates_of user category ((id, w) ∷ m) =
      let rest = templates_of user category m in
      if visible_template user w && (category == "" || w.category == category)
      then without_graph w ∷ rest
      else rest

  unfoldable pub list_templates : ℕ → String → Workflows C → List (Workflow C)
  list_templates user category m = sort_by before_template (templates_of user category m.workflows)

  abbrev pub categories : ℕ → List String → List (ℕ × Workflow C) → List String
  categories user seen [] = []
  categories user seen ((id, w) ∷ m) =
      let skipped = categories user seen m in
      let rest = categories user (w.category ∷ seen) m in
      if visible_template user w && not (w.category == "") && not (has w.category seen)
      then w.category ∷ rest
      else skipped
    where
      has : String → List String → Bool
      has s [] = false
      has s (t ∷ ts) = if t == s then true else has s ts

  unfoldable pub list_template_categories : ℕ → Workflows C → List String
  list_template_categories user m = sort_strings (categories user [] m.workflows)

  abbrev pub template_of : ℕ → Option (Workflow C) → Result WorkflowError (Workflow C)
  template_of user none = err workflow_not_found
  template_of user (some w) = if visible_template user w then ok w else err workflow_not_found

  unfoldable pub get_template : ℕ → ℕ → Workflows C → Result WorkflowError (Workflow C)
  get_template id user m =
      with_graph (get_workflow_nodes id m) (get_workflow_edges id m)
        (template_of user (lookup id m.workflows))

  -- The copy of a template; `copy_name` adds the suffix to the template's name.
  abbrev pub copy_of : (String → String) → ℕ → String → Workflow C → Workflow C
  copy_of copy_name user name tpl = record {
    id = 0;
    user_id = user;
    name = if name == "" then copy_name tpl.name else name;
    description = tpl.description;
    status = draft;
    is_template = false;
    category = "";
    icon = "";
    created_at = 0;
    updated_at = 0;
    nodes = clear_nodes tpl.nodes;
    edges = clear_edges tpl.edges;
  }

  abbrev pub create_copy :
      (String → String)
      → ℕ
      → ℕ
      → String
      → Workflows C
      → Result WorkflowError (Workflow C)
      → Workflows C × Result WorkflowError (Workflow C)
  create_copy copy_name now user name m (err e) = (m, err template_not_found)
  create_copy copy_name now user name m (ok tpl) =
      let (m', w) = create_workflow now (copy_of copy_name user name tpl) m in (m', ok w)

  unfoldable pub create_from_template :
      (String → String)
      → ℕ
      → ℕ
      → ℕ
      → String
      → Workflows C
      → Workflows C × Result WorkflowError (Workflow C)
  create_from_template copy_name now template user name m =
      create_copy copy_name now user name m (get_template template user m)
