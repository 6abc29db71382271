-- ===== src/Scheduler/Run/Steps.antt =====
-- The states that a run passes through, and what holds of each: the books are right, and the loop
-- never waits for nothing.
use nebula_flow.Prelude.{
  ◌<◌, String, ◌≡◌, refl, ◌∙◌, Bool, true, false, List, [], ◌∷◌, arith, string_eq, if◌then◌else◌,
  count, inl, inr, if_both, ◌⊎◌, remove_one, ◌++◌,
}
use nebula_flow.Prelude.Int.{pos, is_positive}
use nebula_flow.Prelude.Maps.{lookup, or_zero, insert}
use nebula_flow.Model.{TaskNode}
use nebula_flow.Model.Retry.{should_retry}
use nebula_flow.Scheduler.Dag.{Dag, Node, flag, is_some}
use nebula_flow.Scheduler.Dag.Runnable.{IsRunnable}
use nebula_flow.Scheduler.Completion.{AbortError}
use nebula_flow.Scheduler.Run.{
  Run, Outcome, RunEffect, or_error, node_failed, upstream_failed, resume, new_run, loop_head,
  submit_ready, handle, handle_failure, receive, fire_timer, end_context, cancel_open, policy_at,
  succeeds, waits_for_approval, fails, approval_waiting, cancels, abort,
}
use nebula_flow.Scheduler.Policy.{ExtraValue}
use nebula_flow.Scheduler.Run.Inv.{names, Inv}
use nebula_flow.Scheduler.Run.Skip.{skip_downstream-Inv}
use nebula_flow.Scheduler.Run.Moves.{
  drop-Inv, take_job-Inv, take_timer-Inv, set_timer-Inv, finish-Inv, some-or_error,
}
use nebula_flow.Scheduler.Run.Submit.{submit_node-Inv, submit_ready-Inv}
use nebula_flow.Scheduler.Run.Start.{IsCheckpoint, start-Inv}

module _ {C : Type 0} (extra_of : C → List (String × ExtraValue)) (dag : Dag C)
    (input : String) where
  -- The states of the run of a task whose nodes were stored as `nodes`. The index tells whether the
  -- run's context has ended. Only a loop that waits at its select takes part in a step.
  pub data Reaches (pool_closed : Bool) (nodes : List TaskNode) : Bool → Run → Type 0 where
    starts : Reaches pool_closed nodes false (
        loop_head extra_of dag input
          (resume extra_of dag input nodes (new_run extra_of dag input pool_closed)))
    receives :
        (ended : Bool) (key : String) (outcome : Outcome) (s : Run)
        → Reaches pool_closed nodes ended s
        → s.waits ≡ true
        → 0 < count key s.in_flight
        → Reaches pool_closed nodes ended (receive extra_of dag input key outcome s)
    fires :
        (ended : Bool) (key : String) (s : Run)
        → Reaches pool_closed nodes ended s
        → s.waits ≡ true
        → 0 < count key s.retry_timers
        → Reaches pool_closed nodes ended (fire_timer extra_of dag input key ended s)
    shuts :
        (ended : Bool) (s : Run)
        → Reaches pool_closed nodes ended s
        → Reaches pool_closed nodes ended (record s { pool_closed = true })
    expires : (s : Run) → Reaches pool_closed nodes false s → Reaches pool_closed nodes true s
    aborts :
        (e : AbortError) (s : Run)
        → Reaches pool_closed nodes true s
        → s.waits ≡ true
        → Reaches pool_closed nodes true (end_context extra_of dag input e s)

  pub cancel_open_kept :
      (nodes : List (String × Node C)) (s : Run)
      → let s' : Run = cancel_open extra_of dag input nodes s in
        (s'.remaining ≡ s.remaining) × (s'.first_err ≡ s.first_err) × (s'.aborted ≡ s.aborted)
  unfolding cancel_open
  cancel_open_kept [] s = (refl, refl, refl)
  cancel_open_kept ((key, n) ∷ nodes) s =
      let next : Run = if flag s.submitted key then s else record s {
        submitted = insert key true s.submitted;
        effects = s.effects ++ cancels key n.node_type ∷ [];
      } in
      let (a, b, c) = cancel_open_kept nodes next in
      let kept : (next.remaining ≡ s.remaining)
          × (next.first_err ≡ s.first_err)
          × (next.aborted ≡ s.aborted) =
        if_both
          (λ (s' : Run).
            (s'.remaining ≡ s.remaining) × (s'.first_err ≡ s.first_err) × (s'.aborted ≡ s.aborted))
          (flag s.submitted key) (λ _. (refl, refl, refl)) (λ _. (refl, refl, refl)) in
      (a ∙ kept.0, b ∙ kept.1, c ∙ kept.2)

  module _ (g : IsRunnable (names dag) dag.edges dag.in_degree dag.order) where
    -- The books are right, nodes whose timer fired after the context's end apart.
    abbrev pub Books : Bool → Run → Type 0
    Books ended s = (idle : List String) × (ended ≡ false → idle ≡ []) × Inv dag false [] idle [] s

    -- A run that is cut short ends with an error.
    abbrev pub Cut : Run → Type 0
    Cut s = (s.remaining ≡ pos 0) × (s.waits ≡ false) × (is_some s.first_err ≡ true)

    relabel-Inv :
        (idle : List String) (waits closed : Bool) (fx : List RunEffect) (s : Run)
        → Inv dag false [] idle [] s
        → Inv dag false [] idle [] (record s { waits = waits; pool_closed = closed; effects = fx })
    relabel-Inv idle waits closed fx s v = record {
      counted = v.counted;
      once = v.once;
      known = v.known;
      degrees = v.degrees;
      found = v.found;
      found_once = v.found_once;
      sources = v.sources;
      spread = v.spread;
      stacked = v.stacked;
      blamed = v.blamed;
    }

    loop_head-Inv :
        (idle : List String) (s : Run)
        → Inv dag false [] idle [] s
        → Inv dag false [] idle [] (loop_head extra_of dag input s)
    unfolding loop_head
    loop_head-Inv idle s v =
        let s' : Run = if is_positive s.remaining then submit_ready extra_of dag input s else s in
        relabel-Inv idle (is_positive s'.remaining) s'.pool_closed s'.effects s' (
          if_both (Inv dag false [] idle []) (is_positive s.remaining)
            (λ _. submit_ready-Inv extra_of dag input g false idle s v) (λ _. v))

    handle_failure-Inv :
        (idle : List String) (key message : String) (s : Run)
        → Inv dag false [] (key ∷ idle) [] s
        → Inv dag false [] idle [] (handle_failure extra_of dag input key message s)
    unfolding handle_failure
    handle_failure-Inv idle key message s v =
        if_both (Inv dag false [] idle [])
          (should_retry (policy_at extra_of dag input key)
            (or_zero (pos 0) (lookup key s.retry_count)))
          (λ _. set_timer-Inv dag g false [] idle key _ s v)
          (λ _.
            skip_downstream-Inv extra_of dag input g false [] idle key (upstream_failed key) _
              (drop-Inv dag g false [] idle key (node_failed key message) s v))

    -- One outcome, before the next head of the loop.
    pub handle-Books :
        (ended : Bool) (key : String) (outcome : Outcome) (s : Run)
        → 0 < count key s.in_flight
        → Books ended s
        → let s' : Run =
            handle extra_of dag input key outcome
              (record s { in_flight = remove_one key s.in_flight }) in
          Books ended s' ⊎ ((s'.remaining ≡ pos 0) × (is_some s'.first_err ≡ true))
    handle-Books ended key (succeeds output) s p (idle, e, v) = inl (
      idle,
      e,
      finish-Inv dag g false [] idle extra_of input key output _
          (take_job-Inv dag g false [] idle key s p v),
    )
    handle-Books ended key (fails message) s p (idle, e, v) = inl (
      idle,
      e,
      handle_failure-Inv idle key message _ (take_job-Inv dag g false [] idle key s p v),
    )
    handle-Books ended key waits_for_approval s p (idle, e, v) =
        inr (refl, some-or_error approval_waiting s.first_err)

    pub loop_head_over :
        (s : Run)
        → s.remaining ≡ pos 0
        → is_some s.first_err ≡ true
        → Cut (loop_head extra_of dag input s)
    unfolding loop_head
    loop_head_over s r e = ground arith

    receive-Books :
        (ended : Bool) (key : String) (outcome : Outcome) (s : Run)
        → 0 < count key s.in_flight
        → Books ended s
        → Books ended (receive extra_of dag input key outcome s)
          ⊎ Cut (receive extra_of dag input key outcome s)
    unfolding receive
    receive-Books ended key outcome s p v = elim (handle-Books ended key outcome s p v) [
      | inl (idle, e, w) ↦ inl (idle, e, loop_head-Inv idle _ w)
      | inr (r, e) ↦ inr (loop_head_over _ r e)
    ]

    fire_timer-Inv :
        (ended : Bool) (key : String) (s : Run)
        → 0 < count key s.retry_timers
        → Books ended s
        → Books ended (fire_timer extra_of dag input key ended s)
    unfolding fire_timer
    fire_timer-Inv true key s p (idle, e, v) =
        (key ∷ idle, λ h. cc, take_timer-Inv dag g false [] idle key s p v)
    fire_timer-Inv false key s p (idle, e, v) = (
      idle,
      e,
      submit_node-Inv extra_of dag input g false idle key _ (
          relabel-Inv (key ∷ idle) s.waits s.pool_closed _ _
            (take_timer-Inv dag g false [] idle key s p v)),
    )

    end_context-Cut : (e : AbortError) (s : Run) → Cut (end_context extra_of dag input e s)
    unfolding end_context
    end_context-Cut e s =
        let (a, b, _) = cancel_open_kept dag.nodes (record s {
          first_err = or_error (abort e) s.first_err;
          aborted = true;
          remaining = pos 0;
        }) in
        (a, rw a refl, rw b (some-or_error (abort e) s.first_err))

    pub Reaches-Books :
        (pool_closed : Bool) (nodes : List TaskNode)
        → IsCheckpoint dag nodes
        → (ended : Bool) (s : Run) → Reaches pool_closed nodes ended s
        → Books ended s ⊎ Cut s
    Reaches-Books pool_closed nodes c _ _ starts =
        inl ([], λ h. refl, loop_head-Inv [] _ (start-Inv extra_of dag input g pool_closed nodes c))
    Reaches-Books pool_closed nodes c _ _ (receives ended key outcome s r w p) =
        elim (Reaches-Books pool_closed nodes c ended s r) [
          | inl v ↦ receive-Books ended key outcome s p v
          | inr v ↦ absurd (ground (arith, v.1))
        ]
    Reaches-Books pool_closed nodes c _ _ (fires ended key s r w p) =
        elim (Reaches-Books pool_closed nodes c ended s r) [
          | inl v ↦ inl (fire_timer-Inv ended key s p v)
          | inr v ↦ absurd (ground (arith, v.1))
        ]
    Reaches-Books pool_closed nodes c _ _ (shuts ended s r) =
        elim (Reaches-Books pool_closed nodes c ended s r) [
          | inl (idle, e, v) ↦ inl (idle, e, relabel-Inv idle s.waits true s.effects s v)
          | inr v ↦ inr v
        ]
    Reaches-Books pool_closed nodes c _ _ (expires s r) =
        elim (Reaches-Books pool_closed nodes c false s r) [
          | inl (idle, e, v) ↦ inl (idle, λ h. cc, v)
          | inr v ↦ inr v
        ]
    Reaches-Books pool_closed nodes c _ _ (aborts e s r w) = inr (end_context-Cut e s)
