-- ===== src/Scheduler/Run/Attempts.antt =====
-- How often a run gives one node to the pool.
use nebula_flow.Prelude.{
  ℕ, suc, ◌+◌, ◌≤◌, ◌<◌, String, ◌≡◌, refl, ap, Bool, true, false, List, [], ◌∷◌, arith, string_eq,
  if◌then◌else◌, count, inl, inr, Bool-cases, if_both, count-remove_one, ok,
}
use nebula_flow.Prelude.Int.{ℤ, pos, inc, is_positive, pos_part, neg_part}
use nebula_flow.Prelude.Maps.{lookup, lookup-insert, or_zero}
use text.Mathlib.TextEquality.{eq_iff}
use nebula_flow.Model.{TaskNodeStatus, TaskNode, WorkflowNode, WorkflowEdge}
use nebula_flow.Model.Retry.{should_retry}
use nebula_flow.Scheduler.Dag.{Dag, Node, flag, build_dag, ready_nodes}
use nebula_flow.Scheduler.Dag.Runnable.{IsRunnable, build_dag-IsRunnable}
use nebula_flow.Scheduler.Completion.{assemble_input}
use nebula_flow.Scheduler.Run.{
  Run, Outcome, or_error, upstream_failed, upstream_skipped, submits, cancels, retries,
  pool_unavailable, succeeds, fails, waits_for_approval, abort, policy_at, submit_node, submit_one,
  submit_each, submit_ready, mark_terminal, resume_as, resume, new_run, loop_head, handle_failure,
  handle_success, receive, fire_timer, cancel_open, end_context,
}
use nebula_flow.Scheduler.Policy.{ExtraValue}
use nebula_flow.Scheduler.Run.Inv.{names, flag-insert}
use nebula_flow.Scheduler.Run.Skip.{attempts, attempts-append, Frame, skip_downstream-Frame}
use nebula_flow.Scheduler.Run.Steps.{Reaches, starts, receives, fires, shuts, expires, aborts}

module _ {C : Type 0} (extra_of : C → List (String × ExtraValue)) (dag : Dag C) (input : String)
    (g : IsRunnable (names dag) dag.edges dag.in_degree dag.order) where
  abbrev retried : Run → String → ℤ
  retried s k = or_zero (pos 0) (lookup k s.retry_count)

  abbrev limit : String → ℕ
  limit k = pos_part (policy_at extra_of dag input k).max_retry

  -- Each time that a node was given to the pool, but the first, is paid for by a retry; `held` are
  -- the nodes that are about to be given.
  record Paid (held : List String) (s : Run) : Type 0 where
    paid :
        (k : String)
        → attempts k s.effects + count k held + count k s.retry_timers
          ≤ pos_part (retried s k) + (if flag s.submitted k then 1 else 0)
    natural : (k : String) → neg_part (retried s k) ≡ 0
    bounded : (k : String) → pos_part (retried s k) ≤ limit k

  Frame-Paid : (held : List String) (s s' : Run) → Frame s s' → Paid held s → Paid held s'
  Frame-Paid held s s' f v = record {
    paid = λ k. ground (
      arith,
      v.paid k,
      f.tries k,
      f.grows k,
      ap (count k) f.retry_timers,
      ap (λ m. pos_part (or_zero (pos 0) (lookup k m))) f.retry_count,
    );
    natural = λ k. rw f.retry_count (v.natural k);
    bounded = λ k. rw f.retry_count (v.bounded k);
  }

  submit_node-Paid :
      (key : String) (s : Run) → Paid (key ∷ []) s → Paid [] (submit_node extra_of dag input key s)
  unfolding submit_node
  submit_node-Paid key s v =
      if_both (Paid []) s.pool_closed
        (λ _.
          Frame-Paid [] _ _ (skip_downstream-Frame extra_of dag input g key pool_unavailable _)
            (record {
              paid = λ k. omega (arith, v.paid k);
              natural = v.natural;
              bounded = v.bounded;
            }))
        (λ _. record {
          paid = λ k. omega (
            arith,
            v.paid k,
            attempts-append k s.effects (submits key (assemble_input key dag s.results input) ∷ []),
          );
          natural = v.natural;
          bounded = v.bounded;
        })

  submit_one-Paid :
      (key : String) (s : Run) → Paid [] s → Paid [] (submit_one extra_of dag input key s)
  unfolding submit_one
  submit_one-Paid key s v = elim (Bool-cases (flag s.submitted key)) [
    | inl old ↦ rw old v
    | inr new ↦ rw new (
        submit_node-Paid key _ (record {
          paid = λ k. ground (arith, v.paid k, flag-insert key k s.submitted, eq_iff key k, new);
          natural = v.natural;
          bounded = v.bounded;
        }))
  ]

  submit_each-Paid :
      (ks : List String) (s : Run) → Paid [] s → Paid [] (submit_each extra_of dag input ks s)
  unfolding submit_each
  submit_each-Paid [] s v = v
  submit_each-Paid (key ∷ ks) s v = submit_each-Paid ks _ (submit_one-Paid key s v)

  loop_head-Paid : (s : Run) → Paid [] s → Paid [] (loop_head extra_of dag input s)
  unfolding loop_head submit_ready
  loop_head-Paid s v =
      let w =
        if_both (Paid []) (is_positive s.remaining)
          (λ _. submit_each-Paid (ready_nodes dag s.in_degree s.submitted) s v) (λ _. v) in
      record { paid = w.paid; natural = w.natural; bounded = w.bounded }

  mark_terminal-Paid :
      (key : String) (b : Bool) (s : Run)
      → Paid [] s
      → Paid [] (mark_terminal extra_of dag input key b s)
  unfolding mark_terminal
  mark_terminal-Paid key b s v =
      if_both (Paid []) (flag s.submitted key) (λ _. v)
        (λ _. record {
          paid = λ k. ground (arith, v.paid k, flag-insert key k s.submitted);
          natural = v.natural;
          bounded = v.bounded;
        })

  resume-Paid :
      (todo : List TaskNode) (s : Run) → Paid [] s → Paid [] (resume extra_of dag input todo s)
  unfolding resume
  resume-Paid [] s v = v
  resume-Paid (tn ∷ todo) s v = resume-Paid todo _ (one tn.status)
    where
      one :
          (st : TaskNodeStatus) → Paid [] (resume_as extra_of dag input st tn.node_key tn.output s)
      one TaskNodeStatus.succeeded =
          let w = mark_terminal-Paid tn.node_key true s v in
          record { paid = w.paid; natural = w.natural; bounded = w.bounded }
      one TaskNodeStatus.failed =
          let w = mark_terminal-Paid tn.node_key false s v in
          Frame-Paid [] _ _
            (skip_downstream-Frame extra_of dag input g tn.node_key (upstream_failed tn.node_key) _)
            (record { paid = w.paid; natural = w.natural; bounded = w.bounded })
      one TaskNodeStatus.skipped =
          Frame-Paid [] _ _
            (skip_downstream-Frame extra_of dag input g tn.node_key (upstream_skipped tn.node_key)
              _)
            (mark_terminal-Paid tn.node_key false s v)
      one TaskNodeStatus.pending = v
      one TaskNodeStatus.running = v
      one TaskNodeStatus.waiting = v
      one TaskNodeStatus.cancelled = v
      one (TaskNodeStatus.other w) = v

  handle_failure-Paid :
      (key message : String) (s : Run)
      → Paid [] s
      → Paid [] (handle_failure extra_of dag input key message s)
  unfolding handle_failure should_retry
  handle_failure-Paid key message s v =
      if_both (Paid []) (should_retry (policy_at extra_of dag input key) (retried s key))
        (λ more. record {
          paid = λ k. ground (
            arith,
            v.paid k,
            v.natural key,
            eq_iff key k,
            lookup-insert key k (inc (retried s key)) s.retry_count,
          );
          natural = λ k. ground (
            arith,
            v.natural k,
            v.natural key,
            lookup-insert key k (inc (retried s key)) s.retry_count,
          );
          bounded = λ k. ground (
            arith,
            v.bounded k,
            v.natural key,
            more,
            eq_iff key k,
            lookup-insert key k (inc (retried s key)) s.retry_count,
          );
        })
        (λ _.
          Frame-Paid [] _ _ (skip_downstream-Frame extra_of dag input g key (upstream_failed key) _)
            (record { paid = v.paid; natural = v.natural; bounded = v.bounded }))

  receive-Paid :
      (key : String) (outcome : Outcome) (s : Run)
      → Paid [] s
      → Paid [] (receive extra_of dag input key outcome s)
  unfolding receive handle_success
  receive-Paid key (succeeds output) s v =
      loop_head-Paid _ (record { paid = v.paid; natural = v.natural; bounded = v.bounded })
  receive-Paid key waits_for_approval s v =
      loop_head-Paid _ (record { paid = v.paid; natural = v.natural; bounded = v.bounded })
  receive-Paid key (fails message) s v = loop_head-Paid _ (
      handle_failure-Paid key message _
        (record { paid = v.paid; natural = v.natural; bounded = v.bounded }))

  fire_timer-Paid :
      (key : String) (ended : Bool) (s : Run)
      → 0 < count key s.retry_timers
      → Paid [] s
      → Paid [] (fire_timer extra_of dag input key ended s)
  unfolding fire_timer
  fire_timer-Paid key true s p v = record {
    paid = λ k. omega (arith, v.paid k, count-remove_one key k s.retry_timers p);
    natural = v.natural;
    bounded = v.bounded;
  }
  fire_timer-Paid key false s p v = submit_node-Paid key _ (record {
    paid = λ k. omega (
      arith,
      v.paid k,
      count-remove_one key k s.retry_timers p,
      attempts-append k s.effects (retries key (retried s key) ∷ []),
    );
    natural = v.natural;
    bounded = v.bounded;
  })

  cancel_open-Paid :
      (nodes : List (String × Node C)) (s : Run)
      → Paid [] s
      → Paid [] (cancel_open extra_of dag input nodes s)
  unfolding cancel_open
  cancel_open-Paid [] s v = v
  cancel_open-Paid ((key, n) ∷ nodes) s v = cancel_open-Paid nodes _ (
      if_both (Paid []) (flag s.submitted key) (λ _. v)
        (λ _. record {
          paid = λ k. ground (
            arith,
            v.paid k,
            flag-insert key k s.submitted,
            attempts-append k s.effects (cancels key n.node_type ∷ []),
          );
          natural = v.natural;
          bounded = v.bounded;
        }))

  new_run-Paid : (pool_closed : Bool) → Paid [] (new_run extra_of dag input pool_closed)
  unfolding new_run lookup
  new_run-Paid pool_closed = record {
    paid = λ k. omega arith;
    natural = λ k. refl;
    bounded = λ k. omega arith;
  }

  Reaches-Paid :
      (pool_closed : Bool) (nodes : List TaskNode) (ended : Bool) (s : Run)
      → Reaches extra_of dag input pool_closed nodes ended s
      → Paid [] s
  unfolding end_context
  Reaches-Paid pool_closed nodes _ _ starts =
      loop_head-Paid _ (resume-Paid nodes _ (new_run-Paid pool_closed))
  Reaches-Paid pool_closed nodes _ _ (receives ended key outcome s r w p) =
      receive-Paid key outcome s (Reaches-Paid pool_closed nodes ended s r)
  Reaches-Paid pool_closed nodes _ _ (fires ended key s r w p) =
      fire_timer-Paid key ended s p (Reaches-Paid pool_closed nodes ended s r)
  Reaches-Paid pool_closed nodes _ _ (shuts ended s r) =
      let v = Reaches-Paid pool_closed nodes ended s r in
      record { paid = v.paid; natural = v.natural; bounded = v.bounded }
  Reaches-Paid pool_closed nodes _ _ (expires s r) = Reaches-Paid pool_closed nodes false s r
  Reaches-Paid pool_closed nodes _ _ (aborts e s r w) =
      let v = Reaches-Paid pool_closed nodes true s r in
      let x =
        cancel_open-Paid dag.nodes
          (record s {
            first_err = or_error (abort e) s.first_err;
            aborted = true;
            remaining = pos 0;
          })
          (record { paid = v.paid; natural = v.natural; bounded = v.bounded }) in
      record { paid = x.paid; natural = x.natural; bounded = x.bounded }

-- Whatever happens in a run, and whatever earlier run it resumes, it gives no node to the pool more
-- often than once and the retries that the node's policy allows.
pub attempts_bound :
    {C : Type 0} (extra_of : C → List (String × ExtraValue)) (input : String)
    (ns : List (WorkflowNode C)) (es : List WorkflowEdge) (dag : Dag C)
    → build_dag ns es ≡ ok dag
    → (pool_closed : Bool) (nodes : List TaskNode) (ended : Bool) (s : Run)
    → Reaches extra_of dag input pool_closed nodes ended s
    → (k : String)
    → attempts k s.effects ≤ suc (pos_part (policy_at extra_of dag input k).max_retry)
attempts_bound extra_of input ns es dag built pool_closed nodes ended s r k =
    let v =
      Reaches-Paid extra_of dag input (build_dag-IsRunnable ns es dag built) pool_closed nodes ended
        s r in
    ground (arith, v.paid k, v.bounded k)
