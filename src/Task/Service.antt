-- ===== src/Task/Service.antt =====
-- internal/task/service.go: the service of tasks, over the store in memory. The queue is any with the
-- operations of its interface; what it answers before a task is stored, and the text of its errors,
-- are parameters, as are the canceller and the limiter. The events are the list of those that the
-- hub was given, and the key of the limiter is the number of the user.
pub mod Cancelling
pub mod Creating
mod Examples
use Prim.Native.String.{◌++◌ as ◌++ˢ◌}
use nebula_flow.Prelude.{
  ℕ, String, Bool, true, false, not, ◌&&◌, List, [], ◌∷◌, ◌++◌, Option, none, some, Result, ok, err,
  if◌then◌else◌,
}
use nebula_flow.Prelude.Int.{ℤ, is_positive}
use nebula_flow.Model.{TaskStatus, Task, TaskLog}
use nebula_flow.Queue.{QueueOps, QueueError, Job}
use nebula_flow.Ratelimit.{Verdict}
use nebula_flow.Task.Hub.{EventType, event_task_created, event_task_cancelled}
use nebula_flow.Store.Tasks.{
  MemoryStore, StoreError, create_task, get_task, update_task_status, list_logs,
}

pub data ServiceError : Type 0 where
  store_error : StoreError → ServiceError
  queue_error : QueueError → ServiceError
  task_not_cancellable : ServiceError

-- `Q` is the state of the queue and `C` that of the canceller.
pub record Service (Q C : Type 0) : Type 0 where
  pub store : MemoryStore
  pub queue : Q
  pub canceller : C
  pub published : List (EventType × ℕ)

-- The limiter answers with a verdict, or none for an error.
unfoldable pub rate_allowed :
    {L : Type 0} → Option (ℕ → ℤ → ℕ → L → L × Option Verdict) → ℕ → ℤ → L → L × Bool
rate_allowed none user per_min l = (l, true)
rate_allowed (some allow) user per_min l =
    if is_positive per_min
    then (let (l', answer) = allow user per_min 60_000_000_000 l in
        (l', elim answer [ none ↦ false | some v ↦ v.allowed ]))
    else (l, true)

unfoldable pub admit : {Q : Type 0} → Option (Q → Option QueueError) → Q → Option QueueError
admit none q = none
admit (some admits) q = admits q

abbrev pub new_task : ℕ → ℕ → String → Task
new_task user workflow input = record {
  id = 0;
  workflow_id = workflow;
  user_id = user;
  status = TaskStatus.pending;
  priority = "";
  input = input;
  output = "";
  error = "";
  started_at = none;
  finished_at = none;
  created_at = 0;
  nodes = [];
}

unfoldable pub is_cancellable : TaskStatus → Bool
is_cancellable TaskStatus.pending = true
is_cancellable TaskStatus.running = true
is_cancellable s = false

abbrev pub interrupted : {C : Type 0} → Option (ℕ → C → C × Bool) → ℕ → C → C
interrupted none task c = c
interrupted (some cancel) task c = (cancel task c).0

module _ {Q C : Type 0} where
  abbrev pub publish_task : EventType → ℕ → Service Q C → Service Q C
  publish_task event task s = record s { published = s.published ++ (event, task) ∷ [] }

  -- CreateTask after its call of Enqueue.
  abbrev pub after_enqueue :
      ℕ
      → (QueueError → String)
      → Task
      → Service Q C
      → Result QueueError (Unit {0})
      → Service Q C × Option Task × Option ServiceError
  after_enqueue now text t s (ok u) = (s, some t, none)
  after_enqueue now text t s (err e) = (
    record s {
      store =
          (update_task_status now t.id TaskStatus.failed "" ("enqueue failed: " ++ˢ text e)
            s.store).0;
    },
    some t,
    some (queue_error e),
  )

  unfoldable pub service_create :
      QueueOps Q
      → Option (Q → Option QueueError)
      → (QueueError → String)
      → ℕ
      → ℕ
      → ℕ
      → String
      → String
      → Service Q C
      → Service Q C × Option Task × Option ServiceError
  service_create ops admits text now user workflow input trace s = elim (admit admits s.queue) [
    | some e ↦ (s, none, some (queue_error e))
    | none ↦
        let (m, t) = create_task now (new_task user workflow input) s.store in
        let (queue, r) =
          ops.enqueue (record { task_id = t.id; attempt = 0; trace_parent = trace }) s.queue in
        after_enqueue now text t
          (record (publish_task event_task_created t.id s) { store = m; queue = queue }) r
  ]

  abbrev pub after_cancel :
      ℕ
      → Service Q C
      → MemoryStore × Result StoreError (Unit {0})
      → Service Q C × Option ServiceError
  after_cancel task s (m, err e) = (record s { store = m }, some (store_error e))
  after_cancel task s (m, ok u) =
      (publish_task event_task_cancelled task (record s { store = m }), none)

  abbrev pub cancel_found :
      Option (ℕ → C → C × Bool)
      → ℕ
      → ℕ
      → Service Q C
      → Result StoreError Task
      → Service Q C × Option ServiceError
  cancel_found canceller now task s (err e) = (s, some (store_error e))
  cancel_found canceller now task s (ok t) =
      if not (is_cancellable t.status)
      then (s, some task_not_cancellable)
      else after_cancel task (record s { canceller = interrupted canceller task s.canceller })
          (update_task_status now task TaskStatus.cancelled t.output "cancelled by user" s.store)

  unfoldable pub service_cancel :
      Option (ℕ → C → C × Bool) → ℕ → ℕ → ℕ → Service Q C → Service Q C × Option ServiceError
  service_cancel canceller now task user s =
      cancel_found canceller now task s (get_task task user s.store)

  unfoldable pub service_logs : ℕ → ℕ → ℤ → Service Q C → Result StoreError (List TaskLog)
  service_logs task user limit s = elim (get_task task user s.store) [
    | err e ↦ err e
    | ok t ↦ ok (list_logs task limit s.store)
  ]
