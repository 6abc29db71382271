-- ===== src/Task/Service/Examples.antt =====
-- A service whose queue takes one job.
use Prim.Native.String.{◌++◌ as ◌++ˢ◌}
use nebula_flow.Prelude.{
  ℕ, suc, String, Bool, ◌≡◌, refl, ◌⊎◌, true, false, List, [], ◌∷◌, ◌++◌, Option, none, some, ok,
  err, nat_eq,
}
use nebula_flow.Prelude.Int.{pos}
use nebula_flow.Prelude.Maps.{lookup, insert}
use nebula_flow.Model.{TaskStatus, Task}
use nebula_flow.Queue.{QueueOps, QueueError, other_error, no_message, Job}
use nebula_flow.Task.Hub.{event_task_created, event_task_cancelled}
use nebula_flow.Store.Tasks.{
  StoreError, new_memory_store, create_task, get_task, update_task_status,
}
use nebula_flow.Task.Service.{
  Service, ServiceError, queue_error, store_error, task_not_cancellable, is_cancellable, admit,
  service_create, service_cancel, rate_allowed,
}
use nebula_flow.Task.Service.Cancelling.{service_cancel_lem, cancelled_at}
use nebula_flow.Task.Service.Creating.{service_create_lem, made, job, stored_nodes}

abbrev text : QueueError → String
text (other_error s) = s
text e = "?"

abbrev one_job : QueueOps (List Job)
one_job = record {
  enqueue = λ j q. elim q [ [] ↦ (j ∷ [], ok tt) | j' ∷ js ↦ (j' ∷ js, err (other_error "full")) ];
  dequeue = λ q. (q, err no_message);
  ack = λ id q. (q, ok tt);
  nack = λ id retry_left q. (q, ok tt);
  recover = λ limit q. (q, ok 0);
  len = λ q. ok 0;
}

abbrev empty : Service (List Job) ℕ
empty = record { store = new_memory_store; queue = []; canceller = 0; published = [] }

abbrev counts_calls : Option (ℕ → ℕ → ℕ × Bool)
counts_calls = some (λ task c. (suc c, true))

abbrev created : Service (List Job) ℕ
created = (service_create one_job none text 5 7 3 "x" "" empty).0

abbrev twice : Service (List Job) ℕ × Option Task × Option ServiceError
twice = service_create one_job none text 6 7 3 "y" "" created

second_fails : twice.2 ≡ some (queue_error (other_error "full"))
unfolding service_create create_task update_task_status admit new_memory_store
second_fails = refl

interrupts : (service_cancel counts_calls 9 1 7 created).0.canceller ≡ 1
unfolding service_cancel service_create create_task get_task update_task_status admit
    new_memory_store lookup insert is_cancellable
interrupts = refl

refuses : (rate_allowed (some (λ user per_min window (l : ℕ). (suc l, none))) 7 (pos 3) 0).1 ≡ false
unfolding rate_allowed
refuses = refl

service_cancel_lem_example :
    let (s', e) = service_cancel counts_calls 9 1 7 created in
    ((t : Task) × (get_task 1 7 created.store ≡ ok t)
      × (is_cancellable t.status ≡ true)
      × (e ≡ none)
      × (get_task 1 7 s'.store ≡ ok (cancelled_at 9 t))
      × (s'.published ≡ created.published ++ (event_task_cancelled, 1) ∷ [])
      × (s'.queue ≡ created.queue))
    ⊎ ((t : Task) × (get_task 1 7 created.store ≡ ok t)
        × (is_cancellable t.status ≡ false)
        × (s' ≡ created)
        × (e ≡ some task_not_cancellable))
    ⊎ ((x : StoreError) × (get_task 1 7 created.store ≡ err x)
        × (s' ≡ created)
        × (e ≡ some (store_error x)))
service_cancel_lem_example = service_cancel_lem counts_calls 9 1 7 created

abbrev second : Task
second = made one_job none text 6 7 3 "y" "" created

abbrev second_job : Job
second_job = job one_job none text 6 7 3 "y" "" created

service_create_lem_example :
    let (s', t, e) = twice in
    ((x : QueueError) × (admit none created.queue ≡ some x)
      × (s' ≡ created)
      × (t ≡ none)
      × (e ≡ some (queue_error x)))
    ⊎ ((admit none created.queue ≡ none)
        × ((one_job.enqueue second_job created.queue).1 ≡ ok tt)
        × (t ≡ some second)
        × (e ≡ none)
        × (get_task second.id 7 s'.store
            ≡ ok (stored_nodes one_job none text 6 7 3 "y" "" created second))
        × (s'.published ≡ created.published ++ (event_task_created, second.id) ∷ [])
        × (s'.queue ≡ (one_job.enqueue second_job created.queue).0))
    ⊎ ((x : QueueError) × (admit none created.queue ≡ none)
        × ((one_job.enqueue second_job created.queue).1 ≡ err x)
        × (t ≡ some second)
        × (e ≡ some (queue_error x))
        × (get_task second.id 7 s'.store
            ≡ ok (record (stored_nodes one_job none text 6 7 3 "y" "" created second) {
              status = TaskStatus.failed;
              error = "enqueue failed: " ++ˢ text x;
              finished_at = some 6;
            }))
        × (s'.published ≡ created.published ++ (event_task_created, second.id) ∷ []))
service_create_lem_example = service_create_lem one_job none text 6 7 3 "y" "" created
