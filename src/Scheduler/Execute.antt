-- ===== src/Scheduler/Execute.antt =====
-- internal/scheduler/scheduler.go: `executeTask` around its loop, the consumer that calls it, the
-- registry of running tasks, and the approval of a node. What the stores, the lock and the queue
-- answer is an argument.
pub mod Messages
pub mod Cancelling
mod Examples
use nebula_flow.Prelude.{
  ℕ, suc, ◌*◌, String, Bool, true, false, not, ◌&&◌, List, [], ◌∷◌, ◌++◌, Option, none, some,
  Result, ok, err, string_eq, nat_eq, ◌==◌, if◌then◌else◌, ltb,
}
use nebula_flow.Prelude.Int.{ℤ, pos, is_positive, ltb_ℤ}
use nebula_flow.Prelude.Maps.{lookup, insert, delete}
use nebula_flow.Model.{TaskStatus, TaskNodeStatus, WorkflowNode, WorkflowEdge}
use nebula_flow.Scheduler.Dag.{Dag, BuildError, build_dag, is_some}
use nebula_flow.Scheduler.Completion.{
  Effect, updates, publishes, acks, nacks, nacks_after, creates_nodes, updates_node, enqueues,
  releases, task_failed, task_running, task_waiting, node_completed, finish, fail_task,
  final_output, requeue_after_engine_error, LockScope, lock_key_for, AbortError,
  task_cancelled_error, lock_scope_off,
}
use nebula_flow.Scheduler.Run.{Run, RunError, approval_waiting, abort}

-- `cancels` holds the running tasks, whose contexts the call of a cancel function ends.
pub record Registry : Type 0 where
  pub cancels : List (ℕ × Bool)
  pub cancelled : List (ℕ × Bool)

abbrev pub started_task : ℕ → Registry → Registry
started_task task r = record r { cancels = insert task false r.cancels }

-- `Cancel`: the registry, and whether the task runs here.
abbrev pub cancel : ℕ → Registry → Registry × Bool
cancel task r =
    if is_some (lookup task r.cancels)
    then (
      record { cancels = insert task true r.cancels; cancelled = insert task true r.cancelled },
      true,
    )
    else (r, false)

abbrev pub ended_task : ℕ → Registry → Registry
ended_task task r = record { cancels = delete task r.cancels; cancelled = delete task r.cancelled }

abbrev pub lock_retry_delay : ℕ
lock_retry_delay = 500_000_000

-- Of the queue it is known whether it has `NackAfter`.
abbrev pub requeue_for_lock : Bool → String → String → Effect
requeue_for_lock delay_nacker msg_id err_msg =
    if delay_nacker
    then nacks_after msg_id (pos 1) lock_retry_delay
    else nacks msg_id err_msg (pos 1)

-- `set` is `SetConsumers`'s number, `workers` the pool's, if there is one.
abbrev pub consumer_count : ℤ → Option ℤ → ℤ
consumer_count set none = if is_positive set then set else pos 1
consumer_count set (some workers) =
    if is_positive set then set else if is_positive workers then workers else pos 1

abbrev pub recover_count : ℕ → ℕ
recover_count n = if ltb (n * 8) 16 then 16 else n * 8

-- Why a task fails before its loop; what the causes' texts add to it is left out.
pub data StartError : Type 0 where
  workflow_not_found : StartError
  invalid_workflow : BuildError → StartError
  init_task_nodes init_running : StartError

-- The columns of a task that a run reads.
pub record StoredTask : Type 0 where
  pub id : ℕ
  pub workflow_id : ℕ
  pub status : TaskStatus

pub data TaskAnswer : Type 0 where
  found : StoredTask → TaskAnswer
  task_not_found store_error : TaskAnswer

pub data LockAnswer : Type 0 where
  unlocked acquired busy : LockAnswer

-- What the collaborators answer. `lock` is `unlocked` where there is no lock or its scope is off,
-- `node_count` is none on an error, and `ending` is the state in which the loop ends.
pub record Answers (C : Type 0) : Type 0 where
  pub task : TaskAnswer
  pub workflow : Option (List (WorkflowNode C) × List WorkflowEdge)
  pub lock : LockAnswer
  pub node_count : Option ℕ
  pub nodes_created : Bool
  pub marked_running : Bool
  pub ending : Run

-- The scheduler's settings, and the texts of its errors.
pub record Settings : Type 0 where
  pub default_max_retry : ℤ
  pub lock_scope : LockScope
  pub delay_nacker : Bool
  pub start_message : StartError → String
  pub run_message : RunError → String
  pub lock_message : ℕ → String

abbrev is_cancelled : TaskStatus → Bool
is_cancelled TaskStatus.cancelled = true
is_cancelled s = false

abbrev pub is_first : Option ℕ → Bool
is_first none = false
is_first (some n) = n == 0

-- `finish` and `failTask` with the flag unset.
abbrev pub ending_effects : Bool × List Effect → List Effect
ending_effects (finished, fx) = fx

module _ (s : Settings) (msg_id : String) where
  -- The end of a run whose loop is over.
  abbrev pub conclude_error : ℕ → Bool → RunError → List Effect
  conclude_error task aborted approval_waiting =
      updates task TaskStatus.waiting "" "waiting for human approval"
      ∷ publishes task_waiting task
      ∷ []
  conclude_error task aborted (abort task_cancelled_error) = ending_effects (
      finish s.default_max_retry task TaskStatus.cancelled ""
        (s.run_message (abort task_cancelled_error)) msg_id false false)
  conclude_error task aborted e =
      ending_effects (
        finish s.default_max_retry task TaskStatus.failed "" (s.run_message e) msg_id false aborted)

  abbrev pub fail : ℕ → StartError → List Effect
  fail task e = ending_effects (fail_task task (s.start_message e) msg_id false)

  module _ {C : Type 0} where
    abbrev pub conclude_as : ℕ → Dag C → Run → Option RunError → List Effect
    conclude_as task dag r none = ending_effects (
        finish s.default_max_retry task TaskStatus.succeeded (final_output dag r.results) "" msg_id
          false false)
    conclude_as task dag r (some e) = conclude_error task r.aborted e

    unfoldable pub conclude : ℕ → Dag C → Run → List Effect
    conclude task dag r = conclude_as task dag r r.first_err

    -- The state is set, and the loop runs.
    abbrev pub start_loop : ℕ → Dag C → Bool → Run → List Effect
    start_loop task dag true r =
        updates task TaskStatus.running "" "" ∷ publishes task_running task ∷ conclude task dag r
    start_loop task dag false r =
        updates task TaskStatus.running "" ""
        ∷ nacks msg_id (s.start_message init_running) (pos 0)
        ∷ []

    -- The nodes are created where there are none.
    abbrev pub prepare_nodes : ℕ → Dag C → Answers C → List Effect
    prepare_nodes task dag a =
        if is_first a.node_count
        then creates_nodes task
          ∷ (if a.nodes_created
              then start_loop task dag a.marked_running a.ending
              else fail task init_task_nodes)
        else start_loop task dag a.marked_running a.ending

    abbrev pub under_lock : StoredTask → Dag C → Answers C → LockAnswer → List Effect
    under_lock t dag a unlocked = prepare_nodes t.id dag a
    under_lock t dag a acquired =
        prepare_nodes t.id dag a ++ releases (lock_key_for s.lock_scope t.id t.workflow_id) ∷ []
    under_lock t dag a busy =
        let key = lock_key_for s.lock_scope t.id t.workflow_id in
        requeue_for_lock s.delay_nacker msg_id (s.lock_message key) ∷ []

    abbrev pub with_dag : StoredTask → Answers C → Result BuildError (Dag C) → List Effect
    with_dag t a (err e) = fail t.id (invalid_workflow e)
    with_dag t a (ok dag) = under_lock t dag a a.lock

    abbrev pub with_workflow :
        StoredTask → Answers C → Option (List (WorkflowNode C) × List WorkflowEdge) → List Effect
    with_workflow t a none = fail t.id workflow_not_found
    with_workflow t a (some (nodes, edges)) = with_dag t a (build_dag nodes edges)

    -- The effects, and whether an error is returned.
    abbrev pub with_task : Answers C → TaskAnswer → List Effect × Bool
    with_task a task_not_found = (acks msg_id ∷ [], false)
    with_task a store_error = ([], true)
    with_task a (found t) =
        if is_cancelled t.status
        then (
          acks msg_id
              ∷ ending_effects
                  (finish s.default_max_retry t.id TaskStatus.cancelled "" "" msg_id false false),
          false,
        )
        else (with_workflow t a a.workflow, false)

    unfoldable pub execute_task : Answers C → List Effect × Bool
    execute_task a = with_task a a.task

    -- One message of `consumeLoop`, `engine_message` being the text of the error.
    unfoldable pub consume : String → Answers C → List Effect
    consume engine_message a =
        let (fx, failed) = execute_task a in
        fx
        ++ (if failed
            then requeue_after_engine_error s.default_max_retry msg_id engine_message
            else [])

-- `ApproveNode` of a waiting task, where every call of a store and of the queue succeeds; none is
-- the refusal of a task that does not wait.
abbrev is_waiting : TaskStatus → Bool
is_waiting TaskStatus.waiting = true
is_waiting s = false

unfoldable pub approve_node : StoredTask → String → Bool → String → String → Option (List Effect)
approve_node t key approved output err_msg =
    if not (is_waiting t.status)
    then none
    else some (
        if approved
        then updates_node t.id key TaskNodeStatus.succeeded output
          ∷ publishes node_completed t.id
          ∷ updates t.id TaskStatus.pending "" ""
          ∷ enqueues t.id
          ∷ publishes task_running t.id
          ∷ []
        else updates_node t.id key TaskNodeStatus.failed ""
          ∷ publishes node_completed t.id
          ∷ updates t.id TaskStatus.failed "" err_msg
          ∷ publishes task_failed t.id
          ∷ [])
