-- ===== src/Task/Service/Cancelling.antt =====
-- internal/task/service.go: what CancelTask does to the task, on each of its branches.
use nebula_flow.Prelude.{
  ℕ, Bool, ◌≡◌, refl, subst, ◌⊎◌, inl, inr, true, false, List, [], ◌∷◌, ◌++◌, Option, none, some,
  Result, ok, err, Bool-cases, Result-cases, nat_eq, nat_beq_iff, ◌==◌, arith,
}
use nebula_flow.Prelude.Maps.{lookup, or_zero}
use nebula_flow.Model.{TaskStatus, Task, TaskNode}
use nebula_flow.Task.Hub.{event_task_cancelled}
use nebula_flow.Store.Tasks.{MemoryStore, StoreError, get_task, owned, update_task_status}
use nebula_flow.Store.Tasks.Access.{update_task_status-get}
use nebula_flow.Task.Service.{
  Service, store_error, task_not_cancellable, is_cancellable, service_cancel, after_cancel,
  interrupted, publish_task,
}

abbrev pub cancelled_at : ℕ → Task → Task
cancelled_at now t = record t {
  status = TaskStatus.cancelled;
  error = "cancelled by user";
  finished_at = some now;
}

owned-ok :
    (user : ℕ) (nodes : List TaskNode) (o : Option Task) (t : Task)
    → owned user nodes o ≡ ok t
    → (t0 : Task) × (o ≡ some t0) × (t0.user_id ≡ user) × (record t0 { nodes = nodes } ≡ t)
owned-ok user nodes none t h = cc
owned-ok user nodes (some t0) t h = elim (Bool-cases (t0.user_id == user)) [
  | inl y ↦ (t0, refl, (nat_beq_iff t0.user_id user).0 y, ground arith)
  | inr n ↦ ground arith
]

abbrev ReadsCancelled : ℕ → ℕ → ℕ → MemoryStore → Task → Type 0
ReadsCancelled now task user m t =
    let (m', r) = update_task_status now task TaskStatus.cancelled t.output "cancelled by user" m in
    (r ≡ ok tt) × (get_task task user m' ≡ ok (cancelled_at now t))

cancels_own :
    (now task : ℕ) (t : Task) (m : MemoryStore)
    → lookup task m.tasks ≡ some t
    → ReadsCancelled now task t.user_id m
        (record t { nodes = or_zero [] (lookup task m.task_nodes) })
cancels_own now task t m found =
    update_task_status-get now task TaskStatus.cancelled t.output "cancelled by user" t m found

cancels :
    (now task user : ℕ) (t : Task) (m : MemoryStore)
    → get_task task user m ≡ ok t
    → ReadsCancelled now task user m t
unfolding get_task
cancels now task user t m h =
    let (t0, found, own, same) =
      owned-ok user (or_zero [] (lookup task m.task_nodes)) (lookup task m.tasks) t h in
    subst (λ u. ReadsCancelled now task u m t) own
      (subst (ReadsCancelled now task t0.user_id m) same (cancels_own now task t0 m found))

after_cancel-ok :
    {Q C : Type 0} (task : ℕ) (s : Service Q C) (p : MemoryStore × Result StoreError (Unit {0}))
    → p.1 ≡ ok tt
    → after_cancel task s p
      ≡ (publish_task event_task_cancelled task (record s { store = p.0 }), none)
after_cancel-ok task s (m, ok u) h = refl
after_cancel-ok task s (m, err e) h = cc

module _ {Q C : Type 0} (canceller : Option (ℕ → C → C × Bool)) (now task user : ℕ)
    (s : Service Q C) where
  -- CancelTask by its owner cancels a task that is pending or running: it keeps its output and is
  -- stored with the status, the reason and the time, and the event is sent. A task of another status,
  -- a waiting one included, is not cancelled; nor is a task that is missing or another user's. Then
  -- nothing changes, and the running task, if any, is not interrupted.
  pub service_cancel_lem :
      let (s', e) = service_cancel canceller now task user s in
      ((t : Task) × (get_task task user s.store ≡ ok t)
        × (is_cancellable t.status ≡ true)
        × (e ≡ none)
        × (get_task task user s'.store ≡ ok (cancelled_at now t))
        × (s'.published ≡ s.published ++ (event_task_cancelled, task) ∷ [])
        × (s'.queue ≡ s.queue))
      ⊎ ((t : Task) × (get_task task user s.store ≡ ok t)
          × (is_cancellable t.status ≡ false)
          × (s' ≡ s)
          × (e ≡ some task_not_cancellable))
      ⊎ ((x : StoreError) × (get_task task user s.store ≡ err x)
          × (s' ≡ s)
          × (e ≡ some (store_error x)))
  unfolding service_cancel
  service_cancel_lem = elim (Result-cases (get_task task user s.store)) [
    | inr (x, h) ↦ rw h (inr (inr (x, refl, refl, refl)))
    | inl (t, h) ↦ elim (Bool-cases (is_cancellable t.status)) [
      | inl y ↦
          rw (h, y)
            (let (stored, reads) = cancels now task user t s.store h in
              rw
                (after_cancel-ok task
                  (record s { canceller = interrupted canceller task s.canceller })
                  (update_task_status now task TaskStatus.cancelled t.output "cancelled by user"
                    s.store)
                  stored)
                (inl (t, refl, y, refl, reads, refl, refl)))
      | inr n ↦ rw (h, n) (inr (inl (t, refl, n, refl, refl)))
    ]
  ]
