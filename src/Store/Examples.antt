-- ===== src/Store/Examples.antt =====
-- A store at concrete tasks.
use nebula_flow.Prelude.{ℕ, suc, ◌≡◌, ◌≢◌, refl, List, [], ◌∷◌, none, some, nat_eq, ok, err}
use nebula_flow.Prelude.Maps.{lookup, or_zero}
use nebula_flow.Model.{Task, TaskStatus}
use nebula_flow.Store.Tasks.{MemoryStore, create_task, get_task, task_not_found}
use nebula_flow.Store.Tasks.Status.{Update}
use nebula_flow.Store.Tasks.Access.{create-get}

abbrev task : ℕ → ℕ → Task
task id user = record {
  id = id;
  workflow_id = 3;
  user_id = user;
  status = TaskStatus.pending;
  priority = "normal";
  input = "x";
  output = "";
  error = "";
  started_at = none;
  finished_at = none;
  created_at = 0;
  nodes = [];
}

abbrev three_tasks : MemoryStore
three_tasks = record {
  seq = 3;
  tasks = (1, task 1 7) ∷ (2, task 2 8) ∷ (3, task 3 7) ∷ [];
  task_nodes = [];
  task_logs = [];
}

abbrev a_retry : List Update
a_retry =
    record { now = 10; status = TaskStatus.running; output = ""; error = "" }
    ∷ record { now = 20; status = TaskStatus.failed; output = ""; error = "timeout" }
    ∷ record { now = 30; status = TaskStatus.running; output = ""; error = "" }
    ∷ record { now = 40; status = TaskStatus.succeeded; output = "y"; error = "" }
    ∷ []

stored : lookup 1 three_tasks.tasks ≡ some (task 1 7)
unfolding lookup
stored = refl

create-get_example :
    let (m', t') = create_task 50 (task 0 7) three_tasks in
    (t'.id ≡ suc three_tasks.seq)
    × (get_task t'.id 7 m'
        ≡ ok (record t' { nodes = or_zero [] (lookup t'.id three_tasks.task_nodes) }))
    × (◌≢◌ {A = ℕ} 7 8 → get_task t'.id 8 m' ≡ err task_not_found)
    × (2 ≢ t'.id → get_task 2 8 m' ≡ get_task 2 8 three_tasks)
create-get_example = create-get 50 8 2 (task 0 7) three_tasks
