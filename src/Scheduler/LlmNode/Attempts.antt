-- ===== src/Scheduler/LlmNode/Attempts.antt =====
-- internal/scheduler/executor.go: which attempt of an LLM node counts.
use nebula_flow.Prelude.{
  ℕ, zero, suc, ◌+◌, ◌<◌, String, false, Option, none, some, Result, ok, err, ◌≡◌, true, ◌⊎◌, refl,
  sym, subst, inl, inr, arith, Bool-cases, Option-cases, Result-cases, List, ltb,
}
use nebula_flow.Scheduler.Prompt.{is_blank}
use nebula_flow.Scheduler.LlmNode.{
  NodeError, NodeResult, LlmConfig, LlmAnswers, TokenChunk, llm_attempt, wait, llm_loop,
  run_llm_node, agent_enabled, retries, streamed, chatted, is_streamed, failed_after,
}

module _ (cfg : LlmConfig) (input : String) (answers : LlmAnswers) where
  abbrev Failed : ℕ → Type 0
  Failed j = (wait answers j ≡ none) × (e : NodeError) × (llm_attempt cfg input answers j ≡ err e)

  -- How `total` attempts end: the first that does not fail answers, the context ends while the loop
  -- waits, or all fail and the last error is reported.
  pub data Outcome (total : ℕ) : Result NodeError NodeResult → Type 0 where
    answered :
        {r : NodeResult} (n : ℕ)
        → n < total
        → ((j : ℕ) → j < n → Failed j)
        → wait answers n ≡ none
        → llm_attempt cfg input answers n ≡ ok r
        → is_blank r.output ≡ false
        → Outcome total (ok r)
    interrupted :
        {e : NodeError} (n : ℕ)
        → n < total
        → ((j : ℕ) → j < n → Failed j)
        → wait answers n ≡ some e
        → Outcome total (err e)
    gave_up :
        {e : NodeError} (n : ℕ)
        → suc n ≡ total
        → ((j : ℕ) → j < total → Failed j)
        → llm_attempt cfg input answers n ≡ err e
        → Outcome total (err (failed_after total e))

  streamed_nonblank :
      (a : Result NodeError (List TokenChunk)) (r : NodeResult)
      → streamed cfg input a ≡ ok r
      → is_blank r.output ≡ false
  streamed_nonblank (err e) r h = cc
  streamed_nonblank (ok cs) r h = ground arith

  chatted_nonblank :
      (a : Result NodeError NodeResult) (r : NodeResult)
      → chatted a ≡ ok r
      → is_blank r.output ≡ false
  chatted_nonblank (err e) r h = cc
  chatted_nonblank (ok q) r h = ground arith

  attempt_nonblank :
      (k : ℕ) (r : NodeResult) → llm_attempt cfg input answers k ≡ ok r → is_blank r.output ≡ false
  unfolding llm_attempt
  attempt_nonblank k r h = elim (Bool-cases (is_streamed cfg)) [
    | inl s ↦ streamed_nonblank (answers.stream k) r (cc)
    | inr s ↦ chatted_nonblank (answers.chat k) r (cc)
  ]

  abbrev Last : ℕ → Option NodeError → Type 0
  Last zero last = Unit
  Last (suc k) last = (e : NodeError) × (llm_attempt cfg input answers k ≡ err e) × (last ≡ some e)

  earlier : (k : ℕ) → ((j : ℕ) → j < k → Failed j) → Failed k → (j : ℕ) → j < suc k → Failed j
  earlier k h now j l = elim (Bool-cases (ltb j k)) [
    | inl y ↦ h j (ground arith)
    | inr n ↦ let same : k ≡ j = ground arith in subst Failed same now
  ]

  llm_loop-Outcome :
      (total left k : ℕ) (last : Option NodeError)
      → total ≡ left + k
      → 0 < total
      → ((j : ℕ) → j < k → Failed j)
      → Last k last
      → Outcome total (llm_loop cfg input answers left k last)
  unfolding llm_loop
  llm_loop-Outcome total zero zero last whole some_ h l = ground arith
  llm_loop-Outcome total zero (suc k) none whole some_ h l = cc
  llm_loop-Outcome total zero (suc k) (some e) whole some_ h l =
      let all_made : suc k ≡ total = omega arith in
      subst (λ n. Outcome total (err (failed_after n e))) (sym all_made)
        (gave_up k all_made (λ j under. h j (omega arith)) (cc))
  llm_loop-Outcome total (suc left) k last whole some_ h l =
      let under : k < total = omega arith in
      elim (Option-cases (wait answers k)) [
        | inr (e, w) ↦ rw (llm_loop, w) (interrupted k under h w)
        | inl w ↦ elim (Result-cases (llm_attempt cfg input answers k)) [
          | inl (r, a) ↦ rw (llm_loop, w, a) (answered k under h w a (attempt_nonblank k r a))
          | inr (e, a) ↦
              rw (llm_loop, w, a)
                (llm_loop-Outcome total left (suc k) (some e) (omega arith) some_
                  (earlier k h (w, e, a)) (e, a, refl))
        ]
      ]

  -- An LLM node in agent mode comes to what the agent loop does. One that is not makes at most one
  -- attempt more than its retries, which are the scheduler's where its own are not positive. It comes
  -- to the answer of the first attempt that does not fail, whose content is not blank; or to the error
  -- of the context, if that ends before an attempt and all attempts before have failed; or, if all
  -- attempts fail, to the error of the last one with their number.
  pub run_llm_node-Outcome :
      (default_max_retry : ℕ) (agent : Result NodeError NodeResult)
      → ((agent_enabled cfg ≡ true)
          × (run_llm_node default_max_retry cfg input agent answers ≡ agent))
        ⊎ ((agent_enabled cfg ≡ false)
            × Outcome
                (suc (retries default_max_retry cfg.max_retry))
                (run_llm_node default_max_retry cfg input agent answers))
  unfolding run_llm_node
  run_llm_node-Outcome default_max_retry agent = elim (Bool-cases (agent_enabled cfg)) [
    | inl on ↦ rw on (inl (refl, refl))
    | inr off ↦ rw off (
        inr (
          refl,
          llm_loop-Outcome (suc (retries default_max_retry cfg.max_retry))
              (suc (retries default_max_retry cfg.max_retry)) 0 none (omega arith) (omega arith)
              (λ j under. ground arith) tt,
        ))
  ]
