-- ===== src/Scheduler/Run.antt =====
-- internal/scheduler/scheduler.go: the loop of `executeTask` that gives a task's nodes to the worker
-- pool, and its book-keeping. What the loop waits for is an event: a node's outcome, the timer of a
-- retry, the end of the run's context, or the shutdown of the pool. Durations have no part here: a
-- timer may fire at any time.
pub mod Inv
mod Skip
mod Moves
mod Marks
mod Submit
mod Resume
pub mod Start
pub mod Steps
mod Progress
pub mod Outcomes
pub mod Attempts
mod Examples
mod Resumed
use nebula_flow.Prelude.{
  ℕ, zero, suc, ◌+◌, String, Bool, true, false, ◌&&◌, not, List, [], ◌∷◌, ◌++◌, Option, none, some,
  length, string_eq, ◌==◌, if◌then◌else◌, remove_one,
}
use nebula_flow.Prelude.Int.{ℤ, pos, inc, dec, is_positive}
use nebula_flow.Prelude.Maps.{lookup, insert, or_zero}
use nebula_flow.Model.{NodeType, TaskNodeStatus, TaskNode}
use nebula_flow.Model.Retry.{RetryPolicy, should_retry}
use nebula_flow.Scheduler.Dag.{Dag, Node, degree, targets, flag, ready_nodes}
use nebula_flow.Scheduler.Completion.{AbortError, NodeText, assemble_input}
use nebula_flow.Scheduler.Policy.{ExtraValue, get_retry_policy}

-- `firstErr`.
pub data RunError : Type 0 where
  approval_waiting : RunError
  pool_shutting_down : RunError
  node_failed_resumed : String → RunError
  node_failed : String → String → RunError
  abort : AbortError → RunError

pub data SkipReason : Type 0 where
  upstream_failed upstream_skipped : String → SkipReason
  pool_unavailable : SkipReason

pub data RunEffect : Type 0 where
  submits : String → NodeText → RunEffect
  skips : String → NodeType → SkipReason → RunEffect
  cancels : String → NodeType → RunEffect
  retries : String → ℤ → RunEffect

-- The variables that the closures share. `in_flight` are the jobs that the pool took and whose
-- `OnDone` was not received yet, `retry_timers` the nodes whose timer is set, and `waits` tells that
-- the loop is at its select.
pub record Run : Type 0 where
  pub in_degree : List (String × ℤ)
  pub submitted : List (String × Bool)
  pub results : List (String × String)
  pub remaining : ℤ
  pub first_err : Option RunError
  pub aborted : Bool
  pub retry_count : List (String × ℤ)
  pub retry_timers : List String
  pub in_flight : List String
  pub pool_closed : Bool
  pub waits : Bool
  pub effects : List RunEffect

-- `if firstErr == nil { firstErr = e }`
abbrev pub or_error : RunError → Option RunError → Option RunError
or_error e none = some e
or_error e (some f) = some f

-- What a node reports.
pub data Outcome : Type 0 where
  succeeds : String → Outcome
  waits_for_approval : Outcome
  fails : String → Outcome

-- Pushing a node's targets onto the stack, whose top is the head here and the last item there.
abbrev pub push_all : List String → List String → List String
push_all [] stack = stack
push_all (t ∷ ts) stack = push_all ts (t ∷ stack)

abbrev pub decrement : String → List (String × ℤ) → List (String × ℤ)
decrement t deg = insert t (dec (degree deg t)) deg

-- `for _, target := range dag.Edges[key] { inDegree[target]-- }`
abbrev pub decrement_all : List String → List (String × ℤ) → List (String × ℤ)
decrement_all [] deg = deg
decrement_all (t ∷ ts) deg = decrement_all ts (decrement t deg)

-- The rounds of the stack's loop that start at each node of a topological order, and those of the
-- nodes listed.
abbrev pub total : List (String × ℕ) → List String → ℕ
total w [] = 0
total w (t ∷ ts) = or_zero 0 (lookup t w) + total w ts

abbrev pub rounds : List (String × List String) → List String → List (String × ℕ)
rounds edges [] = []
rounds edges (k ∷ order) =
    let later = rounds edges order in (k, suc (total later (targets edges k))) ∷ later

-- A task's nodes are read of its graph `dag` and its input; `extra_of` is the `Extra` of a node's
-- configuration, empty where it is nil.
module _ {C : Type 0} (extra_of : C → List (String × ExtraValue)) (dag : Dag C)
    (task_input : String) where
  abbrev pub node_type_of : Option (Node C) → NodeType
  node_type_of none = NodeType.other ""
  node_type_of (some n) = n.node_type

  abbrev extra_at : Option (Node C) → List (String × ExtraValue)
  extra_at none = []
  extra_at (some n) = extra_of n.config

  abbrev pub policy_at : String → RetryPolicy
  policy_at key = get_retry_policy (extra_at (lookup key dag.nodes))

  unfoldable pub mark_skipped : String → SkipReason → Run → Run
  mark_skipped key reason s = if flag s.submitted key then s else record s {
    submitted = insert key true s.submitted;
    remaining = dec s.remaining;
    effects = s.effects ++ skips key (node_type_of (lookup key dag.nodes)) reason ∷ [];
  }

  -- The loop of `skipDownstream` on fuel, with what is left of its stack.
  pub skip_loop : ℕ → SkipReason → List String → Run → List String × Run
  skip_loop zero reason stack s = (stack, s)
  skip_loop (suc fuel) reason [] s = ([], s)
  skip_loop (suc fuel) reason (cur ∷ stack) s =
      skip_loop fuel reason (push_all (targets dag.edges cur) stack)
        (mark_skipped cur reason (record s { in_degree = decrement cur s.in_degree }))

  abbrev pub skip_fuel : String → ℕ
  skip_fuel key = suc (total (rounds dag.edges dag.order) (targets dag.edges key))

  unfoldable pub skip_downstream : String → SkipReason → Run → Run
  skip_downstream key reason s =
      (skip_loop (skip_fuel key) reason (push_all (targets dag.edges key) []) s).1

  unfoldable pub submit_node : String → Run → Run
  submit_node key s =
      if s.pool_closed
      then skip_downstream key pool_unavailable (record s {
        remaining = dec s.remaining;
        first_err = or_error pool_shutting_down s.first_err;
      })
      else record s {
        in_flight = key ∷ s.in_flight;
        effects = s.effects ++ submits key (assemble_input key dag s.results task_input) ∷ [];
      }

  unfoldable pub submit_one : String → Run → Run
  submit_one key s =
      if flag s.submitted key
      then s
      else submit_node key (record s { submitted = insert key true s.submitted })

  pub submit_each : List String → Run → Run
  submit_each [] s = s
  submit_each (key ∷ keys) s = submit_each keys (submit_one key s)

  unfoldable pub submit_ready : Run → Run
  submit_ready s = submit_each (ready_nodes dag s.in_degree s.submitted) s

  unfoldable pub mark_terminal : String → Bool → Run → Run
  mark_terminal key dec_successors s = if flag s.submitted key then s else record s {
    submitted = insert key true s.submitted;
    remaining = dec s.remaining;
    in_degree =
        if dec_successors then decrement_all (targets dag.edges key) s.in_degree else s.in_degree;
  }

  abbrev pub resume_as : TaskNodeStatus → String → String → Run → Run
  resume_as TaskNodeStatus.succeeded key output s =
      let s' : Run = mark_terminal key true s in
      record s' { results = insert key output s'.results }
  resume_as TaskNodeStatus.failed key output s =
      let s' : Run = mark_terminal key false s in
      skip_downstream key (upstream_failed key)
        (record s' { first_err = or_error (node_failed_resumed key) s'.first_err })
  resume_as TaskNodeStatus.skipped key output s =
      skip_downstream key (upstream_skipped key) (mark_terminal key false s)
  resume_as status key output s = s

  pub resume : List TaskNode → Run → Run
  resume [] s = s
  resume (tn ∷ nodes) s = resume nodes (resume_as tn.status tn.node_key tn.output s)

  unfoldable pub new_run : Bool → Run
  new_run pool_closed = record {
    in_degree = dag.in_degree;
    submitted = [];
    results = [];
    remaining = pos (length dag.nodes);
    first_err = none;
    aborted = false;
    retry_count = [];
    retry_timers = [];
    in_flight = [];
    pool_closed = pool_closed;
    waits = false;
    effects = [];
  }

  abbrev pause : Run → Run
  pause s = record s { waits = is_positive s.remaining }

  -- The head of the loop, up to its select or its end.
  unfoldable pub loop_head : Run → Run
  loop_head s = pause (if is_positive s.remaining then submit_ready s else s)

  -- The checks of a node that failed: another attempt, or the failure is final.
  unfoldable pub handle_failure : String → String → Run → Run
  handle_failure key message s =
      let count : ℤ = or_zero (pos 0) (lookup key s.retry_count) in
      if should_retry (policy_at key) count
      then record s {
        retry_count = insert key (inc count) s.retry_count;
        retry_timers = key ∷ s.retry_timers;
      }
      else skip_downstream key (upstream_failed key) (record s {
        remaining = dec s.remaining;
        first_err = or_error (node_failed key message) s.first_err;
      })

  unfoldable pub handle_success : String → String → Run → Run
  handle_success key output s = record s {
    remaining = dec s.remaining;
    results = insert key output s.results;
    in_degree = decrement_all (targets dag.edges key) s.in_degree;
  }

  abbrev pub handle : String → Outcome → Run → Run
  handle key (succeeds output) s = handle_success key output s
  handle key waits_for_approval s = record s {
    first_err = or_error approval_waiting s.first_err;
    remaining = pos 0;
  }
  handle key (fails message) s = handle_failure key message s

  -- One outcome from the channel, and the next head of the loop.
  unfoldable pub receive : String → Outcome → Run → Run
  receive key outcome s =
      loop_head (handle key outcome (record s { in_flight = remove_one key s.in_flight }))

  -- The callback of a retry's timer.
  unfoldable pub fire_timer : String → Bool → Run → Run
  fire_timer key context_ended s =
      let s' : Run = record s { retry_timers = remove_one key s.retry_timers } in
      if context_ended
      then s'
      else submit_node key (record s' {
        effects = s'.effects ++ retries key (or_zero (pos 0) (lookup key s'.retry_count)) ∷ [];
      })

  pub cancel_open : List (String × Node C) → Run → Run
  cancel_open [] s = s
  cancel_open ((key, n) ∷ nodes) s = cancel_open nodes (
      if flag s.submitted key then s else record s {
        submitted = insert key true s.submitted;
        effects = s.effects ++ cancels key n.node_type ∷ [];
      })

  unfoldable pub end_context : AbortError → Run → Run
  end_context e s = pause (
      cancel_open dag.nodes (record s {
        first_err = or_error (abort e) s.first_err;
        aborted = true;
        remaining = pos 0;
      }))
