-- ===== src/Scheduler/Execute/Cancelling.antt =====
-- How a run ends whose context ends first, by what its loop had seen before.
use nebula_flow.Prelude.{
  ℕ, ◌≡◌, refl, ap, ◌∙◌, String, Bool, true, false, List, [], ◌∷◌, none, some,
}
use nebula_flow.Prelude.Int.{ℤ, pos}
use nebula_flow.Model.{TaskStatus}
use nebula_flow.Scheduler.Dag.{Dag}
use nebula_flow.Scheduler.Completion.{
  Effect, updates, publishes, acks, nacks, task_cancelled, task_failed, finish, AbortError,
  task_cancelled_error, task_timeout, task_aborted, classify_abort,
}
use nebula_flow.Scheduler.Run.{Run, RunError, or_error, node_failed, abort, end_context}
use nebula_flow.Scheduler.Policy.{ExtraValue}
use nebula_flow.Scheduler.Run.Steps.{cancel_open_kept}
use nebula_flow.Scheduler.Execute.{Settings, conclude, conclude_as, conclude_error}

module _ {C : Type 0} (extra_of : C → List (String × ExtraValue)) (dag : Dag C) (input : String)
    (s : Settings) (msg_id : String) (task : ℕ) where
  -- What a failed run leaves: the status, the event and the refusal of the message.
  abbrev pub failed_with : String → ℤ → List Effect
  failed_with e retry_left =
      updates task TaskStatus.failed "" e
      ∷ publishes task_failed task
      ∷ nacks msg_id e retry_left
      ∷ []

  end_context_error :
      (e : AbortError) (r : Run) (f : RunError)
      → or_error (abort e) r.first_err ≡ some f
      → conclude s msg_id task dag (end_context extra_of dag input e r)
        ≡ conclude_error s msg_id task true f
  unfolding conclude end_context
  end_context_error e r f h =
      let (_, err, cut) = cancel_open_kept extra_of dag input dag.nodes (record r {
        first_err = or_error (abort e) r.first_err;
        aborted = true;
        remaining = pos 0;
      }) in
      ap (conclude_as s msg_id task dag (end_context extra_of dag input e r)) (err ∙ h)
      ∙ ap (λ b. conclude_error s msg_id task b f) cut

  -- A run that has met no error when its context ends is recorded as cancelled, and its message
  -- acknowledged, where the registry says that its user cancelled it, whether or not its time is over
  -- too; otherwise it is recorded as failed, and its message is refused with all its retries, both
  -- where its time is over and where the process ends.
  pub abort_clean :
      (r : Run) (deadline_exceeded : Bool)
      → r.first_err ≡ none
      → (conclude s msg_id task dag
            (end_context extra_of dag input (classify_abort true deadline_exceeded) r)
          ≡ updates task TaskStatus.cancelled "" (s.run_message (abort task_cancelled_error))
            ∷ publishes task_cancelled task
            ∷ acks msg_id
            ∷ [])
        × (conclude s msg_id task dag (end_context extra_of dag input (classify_abort false true) r)
            ≡ failed_with (s.run_message (abort task_timeout)) s.default_max_retry)
        × (conclude s msg_id task dag
              (end_context extra_of dag input (classify_abort false false) r)
            ≡ failed_with (s.run_message (abort task_aborted)) s.default_max_retry)
  unfolding finish classify_abort
  abort_clean r deadline_exceeded h = (
    end_context_error task_cancelled_error r (abort task_cancelled_error) (rw h refl),
    end_context_error task_timeout r (abort task_timeout) (rw h refl),
    end_context_error task_aborted r (abort task_aborted) (rw h refl),
  )

  -- A run whose loop has received the failure of a node before it sees that its context ended is
  -- recorded as failed and its message is refused with all its retries, also where its user
  -- cancelled it, as the nodes report that a cancelled context stopped them.
  pub abort_late :
      (r : Run) (key m : String)
      → r.first_err ≡ some (node_failed key m)
      → (e : AbortError)
      → conclude s msg_id task dag (end_context extra_of dag input e r)
        ≡ failed_with (s.run_message (node_failed key m)) s.default_max_retry
  unfolding finish
  abort_late r key m h e = end_context_error e r (node_failed key m) (rw h refl)
