-- ===== src/Scheduler/Execute/Messages.antt =====
-- What an execution does with its message and with its lock.
use nebula_flow.Prelude.{
  ℕ, ◌+◌, ◌≡◌, refl, ap, ◌∙◌, String, Bool, true, false, List, [], ◌∷◌, ◌++◌, Option, none, some,
  Result, ok, err, inl, inr, arith, not, ◌&&◌, ◌||◌, Bool-cases, string_eq, ◌==◌, if◌then◌else◌,
  if_both, append-nil,
}
use nebula_flow.Model.{TaskStatus, WorkflowNode, WorkflowEdge}
use nebula_flow.Scheduler.Dag.{Dag, BuildError, build_dag}
use nebula_flow.Scheduler.Completion.{
  Effect, updates, publishes, acks, nacks, nacks_after, creates_nodes, updates_node, enqueues,
  releases, finish, fail_task, settles, lock_key_for, task_cancelled_error, task_timeout,
  task_aborted, requeue_after_engine_error,
}
use nebula_flow.Scheduler.Completion.Settling.{settled}
use nebula_flow.Scheduler.Run.{
  Run, RunError, approval_waiting, pool_shutting_down, node_failed_resumed, node_failed, abort,
}
use nebula_flow.Scheduler.Execute.{
  Settings, Answers, StartError, StoredTask, TaskAnswer, found, task_not_found, store_error,
  LockAnswer, unlocked, acquired, busy, is_first, is_cancelled, ending_effects, fail,
  conclude_error, conclude_as, conclude, start_loop, prepare_nodes, under_lock, with_dag,
  with_workflow, with_task, execute_task, consume, init_task_nodes,
}

pub settled-append : (fx gx : List Effect) → settled (fx ++ gx) ≡ settled fx + settled gx
settled-append [] gx = omega arith
settled-append (updates task status output e ∷ fx) gx = settled-append fx gx
settled-append (publishes ev task ∷ fx) gx = settled-append fx gx
settled-append (acks id ∷ fx) gx = omega (arith, settled-append fx gx)
settled-append (nacks id e retry_left ∷ fx) gx = omega (arith, settled-append fx gx)
settled-append (nacks_after id retry_left delay ∷ fx) gx = omega (arith, settled-append fx gx)
settled-append (creates_nodes task ∷ fx) gx = settled-append fx gx
settled-append (updates_node task key status output ∷ fx) gx = settled-append fx gx
settled-append (enqueues task ∷ fx) gx = settled-append fx gx
settled-append (releases key ∷ fx) gx = settled-append fx gx

abbrev pub is_approval : Option RunError → Bool
is_approval (some approval_waiting) = true
is_approval e = false

-- How often a message is to be settled, by whether the loop runs and by the error that it ends with.
abbrev pub due : Bool → Option RunError → ℕ
due runs e = if runs && is_approval e then 0 else 1

abbrev pub is_cancelled_before : TaskAnswer → Bool
is_cancelled_before (found t) = is_cancelled t.status
is_cancelled_before t = false

abbrev pub is_startable : TaskAnswer → Bool
is_startable (found t) = not (is_cancelled t.status)
is_startable t = false

abbrev pub is_free : LockAnswer → Bool
is_free busy = false
is_free l = true

module _ {C : Type 0} where
  abbrev pub is_built : Result BuildError (Dag C) → Bool
  is_built (ok dag) = true
  is_built (err e) = false

  abbrev pub has_graph : Option (List (WorkflowNode C) × List WorkflowEdge) → Bool
  has_graph none = false
  has_graph (some (nodes, edges)) = is_built (build_dag nodes edges)

  -- The nodes exist or are created, and the task is marked as running.
  abbrev pub is_prepared : Answers C → Bool
  is_prepared a = (not (is_first a.node_count) || a.nodes_created) && a.marked_running

  -- The task's loop is run.
  abbrev pub runs_loop : Answers C → Bool
  runs_loop a = is_startable a.task && (has_graph a.workflow && (is_free a.lock && is_prepared a))

  abbrev pub settlements : Answers C → ℕ
  settlements a = if is_cancelled_before a.task then 2 else due (runs_loop a) a.ending.first_err

module _ (s : Settings) (msg_id : String) where
  finish_once :
      (task : ℕ) (status : TaskStatus) (output e : String) (retry : Bool)
      → settled
          (ending_effects (finish s.default_max_retry task status output e msg_id false retry))
        ≡ 1
  unfolding finish
  finish_once task status output e retry =
      if_both (λ x. settled (x ∷ []) ≡ 1) (settles status) (λ _. refl) (λ _. refl)

  fail_once : (task : ℕ) (e : StartError) → settled (fail s msg_id task e) ≡ 1
  unfolding fail_task
  fail_once task e = refl

  settled-conclude_error :
      (task : ℕ) (aborted : Bool) (e : RunError)
      → settled (conclude_error s msg_id task aborted e) ≡ due true (some e)
  settled-conclude_error task aborted approval_waiting = refl
  settled-conclude_error task aborted (abort task_cancelled_error) = finish_once task _ _ _ _
  settled-conclude_error task aborted (abort task_timeout) = finish_once task _ _ _ _
  settled-conclude_error task aborted (abort task_aborted) = finish_once task _ _ _ _
  settled-conclude_error task aborted pool_shutting_down = finish_once task _ _ _ _
  settled-conclude_error task aborted (node_failed_resumed key) = finish_once task _ _ _ _
  settled-conclude_error task aborted (node_failed key m) = finish_once task _ _ _ _

  requeued_once :
      (m : String)
      → (msg_id == "") ≡ false
      → settled (requeue_after_engine_error s.default_max_retry msg_id m) ≡ 1
  unfolding requeue_after_engine_error
  requeued_once m h = rw h refl

  module _ {C : Type 0} where
    settled-conclude_as :
        (task : ℕ) (dag : Dag C) (r : Run) (e : Option RunError)
        → settled (conclude_as s msg_id task dag r e) ≡ due true e
    settled-conclude_as task dag r none = finish_once task _ _ _ _
    settled-conclude_as task dag r (some e) = settled-conclude_error task r.aborted e

    settled-start_loop :
        (task : ℕ) (dag : Dag C) (marked : Bool) (r : Run)
        → settled (start_loop s msg_id task dag marked r) ≡ due marked r.first_err
    unfolding conclude
    settled-start_loop task dag true r = settled-conclude_as task dag r r.first_err
    settled-start_loop task dag false r = refl

    settled-prepare_nodes :
        (task : ℕ) (dag : Dag C) (a : Answers C)
        → settled (prepare_nodes s msg_id task dag a) ≡ due (is_prepared a) a.ending.first_err
    settled-prepare_nodes task dag a = prepared (is_first a.node_count) a.nodes_created
      where
        prepared :
            (first made : Bool)
            → settled (
                if first
                then creates_nodes task
                  ∷ (if made
                      then start_loop s msg_id task dag a.marked_running a.ending
                      else fail s msg_id task init_task_nodes)
                else start_loop s msg_id task dag a.marked_running a.ending)
              ≡ due ((not first || made) && a.marked_running) a.ending.first_err
        prepared true true = settled-start_loop task dag a.marked_running a.ending
        prepared true false = fail_once task init_task_nodes
        prepared false made = settled-start_loop task dag a.marked_running a.ending

    settled-under_lock :
        (t : StoredTask) (dag : Dag C) (a : Answers C) (l : LockAnswer)
        → settled (under_lock s msg_id t dag a l)
          ≡ due (is_free l && is_prepared a) a.ending.first_err
    settled-under_lock t dag a unlocked = settled-prepare_nodes t.id dag a
    settled-under_lock t dag a acquired =
        settled-append (prepare_nodes s msg_id t.id dag a)
          (releases (lock_key_for s.lock_scope t.id t.workflow_id) ∷ [])
        ∙ omega arith
        ∙ settled-prepare_nodes t.id dag a
    settled-under_lock t dag a busy =
        if_both (λ x. settled (x ∷ []) ≡ 1) s.delay_nacker (λ _. refl) (λ _. refl)

    settled-with_dag :
        (t : StoredTask) (a : Answers C) (r : Result BuildError (Dag C))
        → settled (with_dag s msg_id t a r)
          ≡ due (is_built r && (is_free a.lock && is_prepared a)) a.ending.first_err
    settled-with_dag t a (err e) = fail_once t.id _
    settled-with_dag t a (ok dag) = settled-under_lock t dag a a.lock

    settled-with_workflow :
        (t : StoredTask) (a : Answers C) (w : Option (List (WorkflowNode C) × List WorkflowEdge))
        → settled (with_workflow s msg_id t a w)
          ≡ due (has_graph w && (is_free a.lock && is_prepared a)) a.ending.first_err
    settled-with_workflow t a none = fail_once t.id _
    settled-with_workflow t a (some (nodes, edges)) = settled-with_dag t a (build_dag nodes edges)

    settled-with_task :
        (m : String) (a : Answers C) (t : TaskAnswer)
        → (msg_id == "") ≡ false
        → settled (
            (with_task s msg_id a t).0
            ++ (if (with_task s msg_id a t).1
                then requeue_after_engine_error s.default_max_retry msg_id m
                else []))
          ≡ (if is_cancelled_before t
              then 2
              else due
                  (is_startable t && (has_graph a.workflow && (is_free a.lock && is_prepared a)))
                  a.ending.first_err)
    unfolding finish
    settled-with_task m a task_not_found h = refl
    settled-with_task m a store_error h = requeued_once m h
    settled-with_task m a (found t) h = elim (Bool-cases (is_cancelled t.status)) [
      | inl y ↦ rw y refl
      | inr n ↦ rw n (
          ap settled (append-nil (with_workflow s msg_id t a a.workflow))
          ∙ settled-with_workflow t a a.workflow)
    ]

    -- A consumer acknowledges or refuses each message with an id exactly once, also after an error of
    -- the engine, with two exceptions: not at all where the task's loop runs and ends waiting for an
    -- approval, and twice where the task had been cancelled before.
    pub consume_settles :
        (m : String) (a : Answers C)
        → (msg_id == "") ≡ false
        → settled (consume s msg_id m a) ≡ settlements a
    unfolding consume execute_task
    consume_settles m a h = settled-with_task m a a.task h
