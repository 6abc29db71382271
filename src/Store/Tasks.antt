-- ===== src/Store/Tasks.antt =====
-- internal/store/memory_tasks.go: memTaskRepo, over the part of MemoryStore that it reads and
-- writes. The time of a call is an argument; the store's lock makes each call one step.
pub mod Access
pub mod Status
use nebula_flow.Prelude.{
  ℕ, zero, suc, ◌+◌, ◌≤◌, String, Bool, true, false, ◌&&◌, ◌||◌, List, [], ◌∷◌, ◌++◌, Option, none,
  some, ltb, leb, nat_eq, string_eq, ◌==◌, if◌then◌else◌, length, take, drop, Result, ok, err,
}
use nebula_flow.Prelude.Int.{ℤ, pos, pos_part, is_positive, ltb_ℤ}
use nebula_flow.Prelude.Maps.{lookup, insert, or_zero}
use nebula_flow.Model.{TaskStatus, TaskNodeStatus, Task, TaskNode, TaskLog, WorkflowNode}

pub data StoreError : Type 0 where
  task_not_found : StoreError

pub record MemoryStore : Type 0 where
  pub seq : ℕ
  pub tasks : List (ℕ × Task)
  pub task_nodes : List (ℕ × List TaskNode)
  pub task_logs : List (ℕ × List TaskLog)

unfoldable pub new_memory_store : MemoryStore
new_memory_store = record { seq = 0; tasks = []; task_nodes = []; task_logs = [] }

unfoldable pub next_id : MemoryStore → MemoryStore × ℕ
next_id m = let id = suc m.seq in (record m { seq = id }, id)

abbrev is_empty_status : TaskStatus → Bool
is_empty_status (TaskStatus.other s) = s == ""
is_empty_status s = false

-- The task as CreateTask leaves it in the caller's hands, and as it stores it.
unfoldable pub create_task : ℕ → Task → MemoryStore → MemoryStore × Task
create_task now t m =
    let t' = record t {
      id = suc m.seq;
      created_at = now;
      status = if is_empty_status t.status then TaskStatus.pending else t.status;
    } in
    (record m { seq = suc m.seq; tasks = insert (suc m.seq) t' m.tasks }, t')

abbrev pub owned : ℕ → List TaskNode → Option Task → Result StoreError Task
owned user nodes none = err task_not_found
owned user nodes (some t) =
    if t.user_id == user then ok (record t { nodes = nodes }) else err task_not_found

unfoldable pub get_task : ℕ → ℕ → MemoryStore → Result StoreError Task
get_task id user m = owned user (or_zero [] (lookup id m.task_nodes)) (lookup id m.tasks)

unfoldable pub get_task_by_id : ℕ → MemoryStore → Result StoreError Task
get_task_by_id id m = elim (lookup id m.tasks) [ none ↦ err task_not_found | some t ↦ ok t ]

-- The limit of a page: 20 where none is given, and 100 at most.
abbrev pub page_limit : ℤ → ℕ
page_limit limit =
    if is_positive limit then if ltb 100 (pos_part limit) then 100 else pos_part limit else 20

abbrev pub tasks_of : ℕ → List (ℕ × Task) → List Task
tasks_of user [] = []
tasks_of user ((id, t) ∷ m) =
    let rest = tasks_of user m in if t.user_id == user then t ∷ rest else rest

-- `sort.Slice` by falling number.
module _ {A : Type 0} (number : A → ℕ) where
  abbrev pub insert_desc : A → List A → List A
  insert_desc x [] = x ∷ []
  insert_desc x (y ∷ ys) =
      let rest = insert_desc x ys in if ltb (number x) (number y) then y ∷ rest else x ∷ y ∷ ys

  abbrev pub sort_desc : List A → List A
  sort_desc [] = []
  sort_desc (x ∷ xs) = insert_desc x (sort_desc xs)

unfoldable pub list_tasks : ℕ → ℤ → ℤ → MemoryStore → List Task
list_tasks user limit offset m =
    take (page_limit limit) (drop (pos_part offset) (sort_desc (λ t. t.id) (tasks_of user m.tasks)))

abbrev pub is_running : TaskStatus → Bool
is_running TaskStatus.running = true
is_running s = false

abbrev pub is_terminal : TaskStatus → Bool
is_terminal TaskStatus.succeeded = true
is_terminal TaskStatus.failed = true
is_terminal TaskStatus.cancelled = true
is_terminal s = false

-- The time where it is still missing.
abbrev pub or_now : ℕ → Option ℕ → Option ℕ
or_now now none = some now
or_now now (some t) = some t

abbrev pub with_status : ℕ → TaskStatus → String → String → Task → Task
with_status now status output error t = record t {
  status = status;
  output = output;
  error = error;
  started_at = if is_running status then or_now now t.started_at else t.started_at;
  finished_at = if is_terminal status then some now else t.finished_at;
}

abbrev pub stored_status :
    ℕ
    → ℕ
    → TaskStatus
    → String
    → String
    → MemoryStore
    → Option Task
    → MemoryStore × Result StoreError (Unit {0})
stored_status now id status output error m none = (m, err task_not_found)
stored_status now id status output error m (some t) =
    (record m { tasks = insert id (with_status now status output error t) m.tasks }, ok tt)

unfoldable pub update_task_status :
    ℕ → ℕ → TaskStatus → String → String → MemoryStore → MemoryStore × Result StoreError (Unit {0})
update_task_status now id status output error m =
    stored_status now id status output error m (lookup id m.tasks)

unfoldable pub get_task_nodes : ℕ → MemoryStore → List TaskNode
get_task_nodes task m = or_zero [] (lookup task m.task_nodes)

abbrev new_node : {C : Type 0} → ℕ → ℕ → WorkflowNode C → TaskNode
new_node id task n = record {
  id = id;
  task_id = task;
  node_id = n.id;
  node_key = n.node_key;
  node_type = n.node_type;
  status = TaskNodeStatus.pending;
  input = "";
  output = "";
  error = "";
  duration_ms = 0;
  retries = 0;
  max_retry = 0;
  retry_backoff = "";
  tokens_in = 0;
  tokens_out = 0;
  started_at = none;
  finished_at = none;
}

-- The loop of CreateTaskNodes: the numbers given run on from the store's.
abbrev pub append_nodes :
    {C : Type 0} → ℕ → ℕ → List (WorkflowNode C) → List TaskNode → ℕ × List TaskNode
append_nodes seq task [] cur = (seq, cur)
append_nodes seq task (n ∷ nodes) cur =
    append_nodes (suc seq) task nodes (cur ++ new_node (suc seq) task n ∷ [])

unfoldable pub create_task_nodes :
    {C : Type 0} → ℕ → List (WorkflowNode C) → MemoryStore → MemoryStore
create_task_nodes task [] m = m
create_task_nodes task (n ∷ nodes) m =
    let (seq, cur) = append_nodes m.seq task (n ∷ nodes) (or_zero [] (lookup task m.task_nodes)) in
    record m { seq = seq; task_nodes = insert task cur m.task_nodes }

unfoldable pub count_task_nodes : ℕ → MemoryStore → ℕ
count_task_nodes task m = length (or_zero [] (lookup task m.task_nodes))

abbrev pub is_node_running : TaskNodeStatus → Bool
is_node_running TaskNodeStatus.running = true
is_node_running s = false

abbrev pub is_node_terminal : TaskNodeStatus → Bool
is_node_terminal TaskNodeStatus.succeeded = true
is_node_terminal TaskNodeStatus.failed = true
is_node_terminal TaskNodeStatus.skipped = true
is_node_terminal TaskNodeStatus.cancelled = true
is_node_terminal s = false

abbrev pub or_else : Option ℕ → Option ℕ → Option ℕ
or_else none d = d
or_else (some t) d = some t

-- The stored node with what the caller's node brings.
unfoldable pub updated_node : ℕ → TaskNode → TaskNode → TaskNode
updated_node now n old = record old {
  status = n.status;
  input = n.input;
  output = n.output;
  error = n.error;
  retries = n.retries;
  tokens_in = n.tokens_in;
  tokens_out = n.tokens_out;
  duration_ms = n.duration_ms;
  started_at =
      or_else n.started_at
        (if is_node_running n.status then or_now now old.started_at else old.started_at);
  finished_at =
      or_else n.finished_at (if is_node_terminal n.status then some now else old.finished_at);
}

abbrev prepend : TaskNode → Option (List TaskNode) → Option (List TaskNode)
prepend n none = none
prepend n (some ns) = some (n ∷ ns)

-- The first node of the key is changed; none where there is no such node.
abbrev pub change_node : String → (TaskNode → TaskNode) → List TaskNode → Option (List TaskNode)
change_node key f [] = none
change_node key f (n ∷ ns) =
    let rest = change_node key f ns in if n.node_key == key then some (f n ∷ ns) else prepend n rest

abbrev stored_nodes :
    ℕ → Option (List TaskNode) → MemoryStore → MemoryStore × Result StoreError (Unit {0})
stored_nodes task none m = (m, err task_not_found)
stored_nodes task (some ns) m = (record m { task_nodes = insert task ns m.task_nodes }, ok tt)

unfoldable pub update_task_node :
    ℕ → TaskNode → MemoryStore → MemoryStore × Result StoreError (Unit {0})
unfolding updated_node
update_task_node now n m =
    let cur = or_zero [] (lookup n.task_id m.task_nodes) in
    stored_nodes n.task_id (change_node n.node_key (updated_node now n) cur) m

unfoldable pub update_node_retries :
    ℕ → String → ℕ → MemoryStore → MemoryStore × Result StoreError (Unit {0})
update_node_retries task key retries m =
    let cur = or_zero [] (lookup task m.task_nodes) in
    stored_nodes task (change_node key (λ n. record n { retries = retries }) cur) m

unfoldable pub append_log : ℕ → TaskLog → MemoryStore → MemoryStore × TaskLog
append_log now l m =
    let l' = record l { id = suc m.seq; created_at = now } in
    (
      record m {
        seq = suc m.seq;
        task_logs =
            insert l.task_id (or_zero [] (lookup l.task_id m.task_logs) ++ l' ∷ []) m.task_logs;
      },
      l',
    )

abbrev pub log_limit : ℤ → ℕ
log_limit limit =
    if is_positive limit then if ltb 200 (pos_part limit) then 100 else pos_part limit else 100

abbrev pub reverse : {A : Type 0} → List A → List A
reverse [] = []
reverse (x ∷ xs) = reverse xs ++ x ∷ []

unfoldable pub list_logs : ℕ → ℤ → MemoryStore → List TaskLog
list_logs task limit m =
    reverse (take (log_limit limit) (sort_desc (λ l. l.id) (or_zero [] (lookup task m.task_logs))))
