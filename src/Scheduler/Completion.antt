-- ===== src/Scheduler/Completion.antt =====
-- internal/scheduler/scheduler.go: what one run of a task locks, is given as its input, and comes
-- to. A method's effects are listed in the order in which it makes them; a logger and the metrics
-- have none here.
pub mod Settling
pub mod Output
use nebula_flow.Prelude.{
  ℕ, zero, suc, String, Bool, true, false, not, ◌&&◌, List, [], ◌∷◌, ◌++◌, Option, none, some,
  string_eq, ◌==◌, if◌then◌else◌,
}
use nebula_flow.Prelude.Int.{ℤ, pos, ltb_ℤ}
use nebula_flow.Prelude.Maps.{lookup, or_zero}
use nebula_flow.Model.{NodeType, TaskStatus, TaskNodeStatus}
use nebula_flow.Scheduler.Dag.{Node, Dag, inputs_of}

pub data LockScope : Type 0 where
  lock_scope_task lock_scope_workflow lock_scope_off : LockScope

unfoldable pub string : LockScope → String
string lock_scope_workflow = "workflow"
string lock_scope_off = "off"
string lock_scope_task = "task"

-- Of the text in lower case and without the blanks around it.
unfoldable pub parse_lock_scope : String → LockScope × Bool
parse_lock_scope s =
    if s == ""
    then (lock_scope_task, true)
    else if s == "task"
    then (lock_scope_task, true)
    else if s == "workflow"
    then (lock_scope_workflow, true)
    else if s == "wf"
    then (lock_scope_workflow, true)
    else if s == "off"
    then (lock_scope_off, true)
    else if s == "none"
    then (lock_scope_off, true)
    else if s == "disabled"
    then (lock_scope_off, true)
    else (lock_scope_task, false)

unfoldable pub lock_key_for : LockScope → ℕ → ℕ → ℕ
lock_key_for lock_scope_workflow task workflow = workflow
lock_key_for lock_scope_task task workflow = task
lock_key_for lock_scope_off task workflow = task

pub data TaskEvent : Type 0 where
  task_completed task_cancelled task_failed task_running task_waiting node_completed : TaskEvent

pub data Effect : Type 0 where
  updates : ℕ → TaskStatus → String → String → Effect
  publishes : TaskEvent → ℕ → Effect
  acks : String → Effect
  nacks : String → String → ℤ → Effect
  nacks_after : String → ℤ → ℕ → Effect
  creates_nodes : ℕ → Effect
  updates_node : ℕ → String → TaskNodeStatus → String → Effect
  enqueues : ℕ → Effect
  releases : ℕ → Effect

abbrev event_of : TaskStatus → TaskEvent
event_of TaskStatus.succeeded = task_completed
event_of TaskStatus.cancelled = task_cancelled
event_of s = task_failed

abbrev pub settles : TaskStatus → Bool
settles TaskStatus.succeeded = true
settles TaskStatus.cancelled = true
settles s = false

-- The flag `finished` as it was, and as the method leaves it.
unfoldable pub finish :
    ℤ → ℕ → TaskStatus → String → String → String → Bool → Bool → Bool × List Effect
finish default_max_retry task status output err_msg msg_id finished retry_on_fail =
    if finished then (true, []) else (
      true,
      updates task status output err_msg
          ∷ publishes (event_of status) task
          ∷ (if settles status
              then acks msg_id
              else nacks msg_id err_msg (if retry_on_fail then default_max_retry else pos 0))
          ∷ [],
    )

unfoldable pub fail_task : ℕ → String → String → Bool → Bool × List Effect
fail_task task err_msg msg_id finished = if finished then (true, []) else (
  true,
  updates task TaskStatus.failed "" err_msg
      ∷ publishes task_failed task
      ∷ nacks msg_id err_msg (pos 0)
      ∷ [],
)

-- The nack of a message after an error of the engine; nothing for a message without an id.
unfoldable pub requeue_after_engine_error : ℤ → String → String → List Effect
requeue_after_engine_error default_max_retry msg_id err_msg =
    if msg_id == ""
    then []
    else nacks msg_id err_msg (if ltb_ℤ default_max_retry (pos 1) then pos 1 else default_max_retry)
      ∷ []

pub data AbortError : Type 0 where
  task_cancelled_error task_timeout task_aborted : AbortError

-- Why the run's context ended: the user's call of Cancel first, then the deadline.
unfoldable pub classify_abort : Bool → Bool → AbortError
classify_abort user_cancelled deadline_exceeded =
    if user_cancelled
    then task_cancelled_error
    else if deadline_exceeded
    then task_timeout
    else task_aborted

abbrev is_output : NodeType → Bool
is_output NodeType.output = true
is_output t = false

abbrev is_input : NodeType → Bool
is_input NodeType.input = true
is_input t = false

abbrev pub or_last : Option String → Option String → Option String
or_last none v = v
or_last (some w) v = some w

-- The result of the last key of the order that the test takes and that has one.
unfoldable pub last_result : (String → Bool) → List (String × String) → List String → Option String
last_result p results [] = none
last_result p results (key ∷ keys) =
    or_last (last_result p results keys) (if p key then lookup key results else none)

-- An input: the text of the task or of one result, or the labelled results that are joined.
pub data NodeText : Type 0 where
  text : String → NodeText
  joined : List (String × String) → NodeText

abbrev nonempty_or : String → String → NodeText
nonempty_or task_input v = if v == "" then text task_input else text v

abbrev pub parts_of : List (String × String) → List String → List (String × String)
parts_of results [] = []
parts_of results (key ∷ keys) =
    let v = or_zero "" (lookup key results) in
    let rest = parts_of results keys in if v == "" then rest else (key, v) ∷ rest

abbrev or_text : String → List (String × String) → NodeText
or_text task_input [] = text task_input
or_text task_input (part ∷ parts) = joined (part ∷ parts)

abbrev input_from : List (String × String) → String → List String → NodeText
input_from results task_input [] = text task_input
input_from results task_input (key ∷ []) = nonempty_or task_input (or_zero "" (lookup key results))
input_from results task_input (key ∷ other ∷ keys) =
    or_text task_input (parts_of results (key ∷ other ∷ keys))

module _ {C : Type 0} where
  abbrev pub node_has : (NodeType → Bool) → Option (Node C) → Bool
  node_has p none = false
  node_has p (some n) = p n.node_type

  abbrev pub is_output_key : Dag C → String → Bool
  is_output_key d key = node_has is_output (lookup key d.nodes)

  unfoldable pub final_output : Dag C → List (String × String) → String
  final_output d results = or_zero "" (
      or_last (last_result (is_output_key d) results d.order)
        (last_result (λ key. true) results d.order))

  unfoldable pub assemble_input : String → Dag C → List (String × String) → String → NodeText
  assemble_input key d results task_input =
      if node_has is_input (lookup key d.nodes)
      then text task_input
      else input_from results task_input (inputs_of d key)
