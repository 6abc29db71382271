-- ===== src/Scheduler/Execute/Examples.antt =====
-- A task cancelled before it runs, and a run that is cancelled after a node failed.
use nebula_flow.Prelude.{ℕ, ◌≡◌, refl, String, true, false, List, [], ◌∷◌, none, some, string_eq}
use nebula_flow.Prelude.Int.{pos}
use nebula_flow.Model.{TaskStatus}
use nebula_flow.Scheduler.Dag.{Dag}
use nebula_flow.Scheduler.Completion.{
  updates, publishes, acks, task_cancelled, lock_scope_task, task_cancelled_error, classify_abort,
}
use nebula_flow.Scheduler.Dag.Examples.{diamond_nodes, diamond_edges, diamond_built}
use nebula_flow.Scheduler.Completion.Settling.{settled}
use nebula_flow.Scheduler.Run.{Run, approval_waiting, node_failed, end_context, new_run}
use nebula_flow.Scheduler.Policy.{ExtraValue}
use nebula_flow.Scheduler.Execute.{Settings, Answers, found, acquired, consume, conclude}
use nebula_flow.Scheduler.Execute.Messages.{settlements, consume_settles}
use nebula_flow.Scheduler.Execute.Cancelling.{failed_with, abort_clean, abort_late}

abbrev settings : Settings
settings = record {
  default_max_retry = pos 3;
  lock_scope = lock_scope_task;
  delay_nacker = true;
  start_message = λ e. "invalid workflow";
  run_message = λ e. "failed";
  lock_message = λ key. "busy";
}

abbrev no_extra : ℕ → List (String × ExtraValue)
no_extra n = []

abbrev no_nodes : Dag ℕ
no_nodes = record { nodes = []; edges = []; in_degree = []; order = [] }

abbrev failed_run : Run
failed_run = record (new_run no_extra no_nodes "" false) {
  first_err = some (node_failed "a" "stopped");
}

abbrev cancelled_answers : Answers ℕ
cancelled_answers = record {
  task = found (record { id = 7; workflow_id = 2; status = TaskStatus.cancelled });
  workflow = none;
  lock = acquired;
  node_count = some 0;
  nodes_created = true;
  marked_running = true;
  ending = failed_run;
}

abbrev approval_answers : Answers ℕ
approval_answers = record cancelled_answers {
  task = found (record { id = 7; workflow_id = 2; status = TaskStatus.pending });
  workflow = some (diamond_nodes, diamond_edges);
  ending = record failed_run { first_err = some approval_waiting };
}

cancelled_twice : settlements cancelled_answers ≡ 2
cancelled_twice = refl

waits_unsettled : settlements approval_answers ≡ 0
waits_unsettled = rw diamond_built refl

consume_settles_example :
    settled (consume settings "1-0" "engine" approval_answers) ≡ settlements approval_answers
consume_settles_example = consume_settles settings "1-0" "engine" approval_answers refl

abort_clean_example :
    let r : Run = new_run no_extra no_nodes "" false in
    (conclude settings "1-0" 7 no_nodes
        (end_context no_extra no_nodes "" (classify_abort true true) r)
      ≡ updates 7 TaskStatus.cancelled "" "failed" ∷ publishes task_cancelled 7 ∷ acks "1-0" ∷ [])
    × (conclude settings "1-0" 7 no_nodes
          (end_context no_extra no_nodes "" (classify_abort false true) r)
        ≡ failed_with no_extra no_nodes "" settings "1-0" 7 "failed" (pos 3))
    × (conclude settings "1-0" 7 no_nodes
          (end_context no_extra no_nodes "" (classify_abort false false) r)
        ≡ failed_with no_extra no_nodes "" settings "1-0" 7 "failed" (pos 3))
unfolding new_run
abort_clean_example =
    abort_clean no_extra no_nodes "" settings "1-0" 7 (new_run no_extra no_nodes "" false) true refl

abort_late_example :
    conclude settings "1-0" 7 no_nodes
      (end_context no_extra no_nodes "" task_cancelled_error failed_run)
    ≡ failed_with no_extra no_nodes "" settings "1-0" 7 "failed" (pos 3)
unfolding new_run
abort_late_example =
    abort_late no_extra no_nodes "" settings "1-0" 7 failed_run "a" "stopped" refl
      task_cancelled_error
