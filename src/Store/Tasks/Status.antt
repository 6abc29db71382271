-- ===== src/Store/Tasks/Status.antt =====
-- The times of a task over its updates, and the numbers that the store gives.
use nebula_flow.Prelude.{
  ℕ, ◌≡◌, refl, ap, ◌∙◌, String, List, [], ◌∷◌, Option, some, nat_eq, if◌then◌else◌,
}
use nebula_flow.Prelude.Maps.{lookup, lookup-insert_same}
use nebula_flow.Model.{Task, TaskStatus}
use nebula_flow.Store.Tasks.{
  MemoryStore, update_task_status, stored_status, with_status, is_running, is_terminal, or_now,
}

-- An update of the task's status.
pub record Update : Type 0 where
  pub now : ℕ
  pub status : TaskStatus
  pub output : String
  pub error : String

abbrev pub updates : ℕ → List Update → MemoryStore → MemoryStore
updates id [] m = m
updates id (u ∷ us) m = updates id us (update_task_status u.now id u.status u.output u.error m).0

-- The time of the first update to running, and that of the last to a terminal status.
abbrev pub first_running : Option ℕ → List Update → Option ℕ
first_running o [] = o
first_running o (u ∷ us) = first_running (if is_running u.status then or_now u.now o else o) us

abbrev pub last_terminal : Option ℕ → List Update → Option ℕ
last_terminal o [] = o
last_terminal o (u ∷ us) = last_terminal (if is_terminal u.status then some u.now else o) us

abbrev pub last_status : TaskStatus → List Update → TaskStatus
last_status s [] = s
last_status s (u ∷ us) = last_status u.status us

update_found :
    (id : ℕ) (u : Update) (t : Task) (m : MemoryStore)
    → lookup id m.tasks ≡ some t
    → lookup id (update_task_status u.now id u.status u.output u.error m).0.tasks
      ≡ some (with_status u.now u.status u.output u.error t)
unfolding update_task_status
update_found id u t m e =
    ap (λ o. lookup id (stored_status u.now id u.status u.output u.error m o).0.tasks) e
    ∙ lookup-insert_same id (with_status u.now u.status u.output u.error t) m.tasks

-- After any updates of a stored task, whatever statuses they carry, it is still stored for the
-- same owner; it started at its first update to running, unless it had started before; it
-- finished at its last update to a terminal status; and its status is the last one given.
pub updates_times :
    (id : ℕ) (us : List Update) (t : Task) (m : MemoryStore)
    → lookup id m.tasks ≡ some t
    → (t' : Task) × (lookup id (updates id us m).tasks ≡ some t')
      × (t'.started_at ≡ first_running t.started_at us)
      × (t'.finished_at ≡ last_terminal t.finished_at us)
      × (t'.status ≡ last_status t.status us)
      × (t'.user_id ≡ t.user_id)
updates_times id [] t m e = (t, e, refl, refl, refl, refl)
updates_times id (u ∷ us) t m e =
    updates_times id us (with_status u.now u.status u.output u.error t) _ (update_found id u t m e)
