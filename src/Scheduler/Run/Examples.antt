-- ===== src/Scheduler/Run/Examples.antt =====
-- A run of the diamond whose left node fails twice.
use nebula_flow.Prelude.{
  ℕ, suc, ◌≤◌, ◌<◌, String, ◌≡◌, refl, true, false, List, [], ◌∷◌, arith, string_eq, count, none,
}
use nebula_flow.Prelude.Int.{pos, pos_part}
use nebula_flow.Prelude.Maps.{lookup, insert}
use nebula_flow.Prelude.Text.{sort_strings, str_leb}
use nebula_flow.Model.Retry.{should_retry}
use nebula_flow.Scheduler.Dag.{targets, ready_nodes}
use nebula_flow.Scheduler.Dag.Examples.{diamond, diamond_nodes, diamond_edges, diamond_built}
use nebula_flow.Scheduler.Run.{
  Run, succeeds, fails, pool_unavailable, push_all, skip_loop, skip_fuel, policy_at, mark_skipped,
  skip_downstream, submit_node, submit_one, submit_each, submit_ready, resume, new_run, loop_head,
  handle_failure, handle_success, receive, fire_timer,
}
use nebula_flow.Scheduler.Policy.{ExtraValue, get_retry_policy, int}
use nebula_flow.Scheduler.Run.Inv.{lost}
use nebula_flow.Scheduler.Run.Skip.{attempts}
use nebula_flow.Scheduler.Run.Start.{IsCheckpoint, pending-IsCheckpoint}
use nebula_flow.Scheduler.Run.Steps.{Reaches, starts, receives, fires}
use nebula_flow.Scheduler.Run.Outcomes.{skip_downstream_enough, next, below_lost}
use nebula_flow.Scheduler.Run.Attempts.{attempts_bound}

-- Every node may be tried twice.
abbrev extra : ℕ → List (String × ExtraValue)
extra n = ("max_retry", int (pos 1)) ∷ []

abbrev begun : Run
begun =
    loop_head extra diamond "hello"
      (resume extra diamond "hello" [] (new_run extra diamond "hello" false))

abbrev after_in : Run
after_in = receive extra diamond "hello" "in" (succeeds "hello") begun

abbrev after_a : Run
after_a = receive extra diamond "hello" "a" (fails "timeout") after_in

abbrev retried_a : Run
retried_a = fire_timer extra diamond "hello" "a" false after_a

abbrev lost_a : Run
lost_a = receive extra diamond "hello" "a" (fails "timeout") retried_a

abbrev after_b : Run
after_b =
    receive extra diamond "hello" "b" (succeeds "B")
      (receive extra diamond "hello" "a" (succeeds "A") after_in)

abbrev finished : Run
finished = receive extra diamond "hello" "out" (succeeds "AB") after_b

run_facts :
    (begun.waits ≡ true)
    × (count "in" begun.in_flight ≡ 1)
    × (begun.pool_closed ≡ false)
    × (after_in.waits ≡ true)
    × (after_in.in_flight ≡ "b" ∷ "a" ∷ [])
    × (after_a.waits ≡ true)
    × (after_a.retry_timers ≡ "a" ∷ [])
    × (retried_a.waits ≡ true)
    × (retried_a.in_flight ≡ "a" ∷ "b" ∷ [])
    × (lost_a.waits ≡ true)
    × (lost_a.in_flight ≡ "b" ∷ [])
    × (lost [] lost_a "a" ≡ 1)
unfolding loop_head resume new_run submit_ready submit_each submit_one submit_node ready_nodes
    lookup insert sort_strings str_leb receive handle_success handle_failure should_retry
    get_retry_policy fire_timer skip_downstream skip_loop mark_skipped
run_facts = (refl, refl, refl, refl, refl, refl, refl, refl, refl, refl, refl, refl)

success_facts :
    ((receive extra diamond "hello" "a" (succeeds "A") after_in).waits ≡ true)
    × ((receive extra diamond "hello" "a" (succeeds "A") after_in).in_flight ≡ "b" ∷ [])
    × (after_b.waits ≡ true)
    × (after_b.in_flight ≡ "out" ∷ [])
    × (finished.waits ≡ false)
    × (finished.first_err ≡ none)
unfolding loop_head resume new_run submit_ready submit_each submit_one submit_node ready_nodes
    lookup insert sort_strings str_leb receive handle_success
success_facts = (refl, refl, refl, refl, refl, refl)

nothing_stored : IsCheckpoint diamond []
nothing_stored = pending-IsCheckpoint diamond [] tt

begun_reached : Reaches extra diamond "hello" false [] false begun
begun_reached = starts

after_in_reached : Reaches extra diamond "hello" false [] false after_in
after_in_reached =
    receives false "in" (succeeds "hello") begun starts run_facts.0 (omega (arith, run_facts.1))

after_a_reached : Reaches extra diamond "hello" false [] false after_a
after_a_reached =
    receives false "a" (fails "timeout") after_in after_in_reached run_facts.3
      (rw run_facts.4 (omega arith))

retried_a_reached : Reaches extra diamond "hello" false [] false retried_a
retried_a_reached =
    fires false "a" after_a after_a_reached run_facts.5 (rw run_facts.6 (omega arith))

lost_a_reached : Reaches extra diamond "hello" false [] false lost_a
lost_a_reached =
    receives false "a" (fails "timeout") retried_a retried_a_reached run_facts.7
      (rw run_facts.8 (omega arith))

finished_reached : Reaches extra diamond "hello" false [] false finished
finished_reached =
    receives false "out" (succeeds "AB") after_b
      (receives false "b" (succeeds "B") _
        (receives false "a" (succeeds "A") after_in after_in_reached run_facts.3
          (rw run_facts.4 (omega arith)))
        success_facts.0 (rw success_facts.1 (omega arith)))
      success_facts.2 (rw success_facts.3 (omega arith))

skip_downstream_enough_example :
    (skip_loop extra diamond "hello"
      (skip_fuel extra diamond "hello" "in")
      pool_unavailable
      (push_all (targets diamond.edges "in") [])
      begun).0
    ≡ []
skip_downstream_enough_example =
    skip_downstream_enough extra "hello" diamond_nodes diamond_edges diamond diamond_built "in"
      pool_unavailable begun

below_lost_example : 0 < lost [] lost_a "out"
unfolding lookup
below_lost_example =
    below_lost extra "hello" diamond_nodes diamond_edges diamond diamond_built false []
      nothing_stored lost_a lost_a_reached run_facts.9 "a" "out" (omega (arith, run_facts.11))
      (next "out" (omega arith))

attempts_bound_example :
    attempts "a" lost_a.effects ≤ suc (pos_part (policy_at extra diamond "hello" "a").max_retry)
attempts_bound_example =
    attempts_bound extra "hello" diamond_nodes diamond_edges diamond diamond_built false [] false
      lost_a lost_a_reached "a"
