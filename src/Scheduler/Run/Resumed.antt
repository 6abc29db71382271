-- ===== src/Scheduler/Run/Resumed.antt =====
-- Runs of the diamond that resume what an earlier one stored.
use nebula_flow.Prelude.{
  ℕ, ◌+◌, ◌≤◌, ◌<◌, String, ◌≡◌, ap, refl, true, false, List, [], ◌∷◌, arith, string_eq, count,
  length, none,
}
use nebula_flow.Prelude.Int.{pos}
use nebula_flow.Prelude.Maps.{keys, lookup, insert}
use nebula_flow.Prelude.Text.{sort_strings, str_leb}
use nebula_flow.Scheduler.Dag.{targets, ready_nodes}
use nebula_flow.Scheduler.Dag.Examples.{diamond, diamond_nodes, diamond_edges, diamond_built}
use nebula_flow.Scheduler.Run.{
  Run, mark_terminal, succeeds, skip_loop, mark_skipped, skip_downstream, submit_node, submit_one,
  submit_each, submit_ready, resume, new_run, loop_head, handle_success, receive,
}
use nebula_flow.Scheduler.Policy.{ExtraValue, int}
use nebula_flow.Scheduler.Run.Inv.{open_count}
use nebula_flow.Scheduler.Run.Start.{IsCheckpoint}
use nebula_flow.Scheduler.Run.Steps.{Reaches, starts, receives}
use nebula_flow.Scheduler.Run.Outcomes.{run_books, success_complete, waits_for_work}
use nebula_flow.Model.{NodeType, TaskNodeStatus, TaskNode}

-- Every node may be tried twice.
abbrev extra : ℕ → List (String × ExtraValue)
extra n = ("max_retry", int (pos 1)) ∷ []

abbrev row : String → TaskNodeStatus → String → TaskNode
row key status output = record {
  id = 1;
  task_id = 1;
  node_id = 1;
  node_key = key;
  node_type = NodeType.llm;
  status = status;
  input = "";
  output = output;
  error = "";
  duration_ms = 0;
  retries = 0;
  max_retry = 0;
  retry_backoff = "";
  tokens_in = 0;
  tokens_out = 0;
  started_at = none;
  finished_at = none;
}

-- The input node has run, and the process ended while its left successor ran.
abbrev rows : List TaskNode
rows = row "in" TaskNodeStatus.succeeded "hello" ∷ row "a" TaskNodeStatus.running "" ∷ []

no_input : (r : String) → count "in" (targets diamond.edges r) ≡ 0
unfolding lookup
no_input r = ground arith

rows-IsCheckpoint : IsCheckpoint diamond rows
unfolding lookup
rows-IsCheckpoint = record {
  once = λ k. ground arith;
  named = λ k h. ground arith;
  closed = λ r t h k.
      let same : "in" ≡ t = (string_eq.beq_iff "in" t).0 (ground arith) in
      absurd (omega (arith, no_input r, ap (λ x. count x (targets diamond.edges r)) same, k));
  apart = λ k h. absurd (omega arith);
  blamed = λ k h. absurd (omega arith);
}

abbrev resumed : Run
resumed =
    loop_head extra diamond "hello"
      (resume extra diamond "hello" rows (new_run extra diamond "hello" false))

abbrev after_a : Run
after_a = receive extra diamond "hello" "a" (succeeds "A") resumed

abbrev after_b : Run
after_b = receive extra diamond "hello" "b" (succeeds "B") after_a

abbrev finished : Run
finished = receive extra diamond "hello" "out" (succeeds "AB") after_b

facts :
    (resumed.waits ≡ true)
    × (resumed.in_flight ≡ "b" ∷ "a" ∷ [])
    × (resumed.pool_closed ≡ false)
    × (after_a.waits ≡ true)
    × (after_a.in_flight ≡ "b" ∷ [])
    × (after_b.waits ≡ true)
    × (after_b.in_flight ≡ "out" ∷ [])
    × (finished.waits ≡ false)
    × (finished.first_err ≡ none)
unfolding loop_head resume new_run submit_ready submit_each submit_one submit_node ready_nodes
    lookup insert sort_strings str_leb receive handle_success mark_terminal
facts = (refl, refl, refl, refl, refl, refl, refl, refl, refl)

resumed_reached : Reaches extra diamond "hello" false rows false resumed
resumed_reached = starts

after_a_reached : Reaches extra diamond "hello" false rows false after_a
after_a_reached =
    receives false "a" (succeeds "A") resumed starts facts.0 (rw facts.1 (omega arith))

finished_reached : Reaches extra diamond "hello" false rows false finished
finished_reached =
    receives false "out" (succeeds "AB") after_b
      (receives false "b" (succeeds "B") after_a after_a_reached facts.3 (rw facts.4 (omega arith)))
      facts.5 (rw facts.6 (omega arith))

-- Not a checkpoint: a node skipped by a pool that shut down, and none that failed. The run that finds
-- it ends without an error and without results.
abbrev skipped_only : Run
skipped_only = loop_head extra diamond "hello" (
    resume extra diamond "hello" (row "in" TaskNodeStatus.skipped "" ∷ [])
      (new_run extra diamond "hello" false))

succeeds_empty :
    (skipped_only.waits ≡ false) × (skipped_only.first_err ≡ none) × (skipped_only.results ≡ [])
unfolding loop_head resume new_run submit_ready submit_each submit_one submit_node ready_nodes
    lookup insert sort_strings str_leb skip_downstream skip_loop mark_skipped mark_terminal
succeeds_empty = (refl, refl, refl)

run_books_example :
    (resumed.remaining
      ≡ pos (
          open_count resumed.submitted (keys diamond.nodes)
          + length resumed.in_flight
          + length resumed.retry_timers))
    × ((k : String)
        → count k resumed.in_flight + count k resumed.retry_timers + count k (keys resumed.results)
          ≤ 1)
    × ((r t : String)
        → 0 < count t resumed.in_flight + count t resumed.retry_timers
        → 0 < count t (targets diamond.edges r)
        → 0 < count r (keys resumed.results))
run_books_example =
    run_books extra "hello" diamond_nodes diamond_edges diamond diamond_built false rows
      rows-IsCheckpoint resumed resumed_reached facts.0

success_complete_example :
    (count "b" (keys finished.results) ≡ count "b" (keys diamond.nodes))
    × (count "b" finished.in_flight + count "b" finished.retry_timers ≡ 0)
success_complete_example =
    success_complete extra "hello" diamond_nodes diamond_edges diamond diamond_built false rows
      rows-IsCheckpoint false finished finished_reached facts.7 facts.8 "b"

waits_for_work_example : 0 < length resumed.in_flight + length resumed.retry_timers
waits_for_work_example =
    waits_for_work extra "hello" diamond_nodes diamond_edges diamond diamond_built false rows
      rows-IsCheckpoint resumed resumed_reached facts.0 facts.2
