-- ===== src/Task/Service/Creating.antt =====
-- internal/task/service.go: what CreateTask stores, and what it answers.
use Prim.Native.String.{◌++◌ as ◌++ˢ◌}
use nebula_flow.Prelude.{
  ℕ, suc, String, ◌≡◌, refl, ◌⊎◌, inl, inr, [], ◌∷◌, ◌++◌, Option, none, some, ok, err,
  Option-cases, Result-cases, nat_eq,
}
use nebula_flow.Prelude.Maps.{lookup, or_zero, lookup-insert_same}
use nebula_flow.Model.{TaskStatus, Task}
use nebula_flow.Queue.{QueueOps, QueueError, Job}
use nebula_flow.Task.Hub.{event_task_created}
use nebula_flow.Store.Tasks.{create_task, get_task, update_task_status}
use nebula_flow.Store.Tasks.Access.{create-get, update_task_status-get}
use nebula_flow.Task.Service.{Service, queue_error, admit, new_task, service_create}

module _ {Q C : Type 0} (ops : QueueOps Q) (admits : Option (Q → Option QueueError))
    (text : QueueError → String) (now user workflow : ℕ) (input trace : String)
    (s : Service Q C) where
  abbrev pub made : Task
  made = (create_task now (new_task user workflow input) s.store).1

  abbrev pub job : Job
  job = record { task_id = made.id; attempt = 0; trace_parent = trace }

  abbrev pub stored_nodes : Task → Task
  stored_nodes t = record t { nodes = or_zero [] (lookup t.id s.store.task_nodes) }

  failed-get :
      (error : String)
      → get_task made.id user
          (update_task_status now made.id TaskStatus.failed "" error
            (create_task now (new_task user workflow input) s.store).0).0
        ≡ ok (record (stored_nodes made) {
          status = TaskStatus.failed;
          error = error;
          finished_at = some now;
        })
  unfolding create_task
  failed-get error =
      (update_task_status-get now made.id TaskStatus.failed "" error made
        (create_task now (new_task user workflow input) s.store).0
        (lookup-insert_same (suc s.store.seq) made s.store.tasks)).1

  -- CreateTask makes no task where the queue does not admit one; nothing changes then. Otherwise the
  -- task is stored, given to its caller, and announced to the hub. If the queue takes it,
  -- its owner reads it as it was given; if not, its owner reads it as failed at that time with the
  -- queue's error, while the caller is given that error and the task as it was made.
  pub service_create_lem :
      let (s', t, e) = service_create ops admits text now user workflow input trace s in
      ((x : QueueError) × (admit admits s.queue ≡ some x)
        × (s' ≡ s)
        × (t ≡ none)
        × (e ≡ some (queue_error x)))
      ⊎ ((admit admits s.queue ≡ none)
          × ((ops.enqueue job s.queue).1 ≡ ok tt)
          × (t ≡ some made)
          × (e ≡ none)
          × (get_task made.id user s'.store ≡ ok (stored_nodes made))
          × (s'.published ≡ s.published ++ (event_task_created, made.id) ∷ [])
          × (s'.queue ≡ (ops.enqueue job s.queue).0))
      ⊎ ((x : QueueError) × (admit admits s.queue ≡ none)
          × ((ops.enqueue job s.queue).1 ≡ err x)
          × (t ≡ some made)
          × (e ≡ some (queue_error x))
          × (get_task made.id user s'.store
              ≡ ok (record (stored_nodes made) {
                status = TaskStatus.failed;
                error = "enqueue failed: " ++ˢ text x;
                finished_at = some now;
              }))
          × (s'.published ≡ s.published ++ (event_task_created, made.id) ∷ []))
  unfolding service_create
  service_create_lem = elim (Option-cases (admit admits s.queue)) [
    | inr (x, refused) ↦ rw (service_create, refused) (inl (x, refl, refl, refl, refl))
    | inl open_ ↦ elim (Result-cases (ops.enqueue job s.queue).1) [
      | inl (u, sent) ↦
          rw (service_create, open_, sent)
            (inr (
              inl (
                refl,
                refl,
                refl,
                refl,
                (create-get now user made.id (new_task user workflow input) s.store).1,
                refl,
                refl,
              )))
      | inr (x, lost) ↦
          rw (service_create, open_, lost)
            (inr
              (inr (x, refl, refl, refl, refl, failed-get ("enqueue failed: " ++ˢ text x), refl)))
    ]
  ]
