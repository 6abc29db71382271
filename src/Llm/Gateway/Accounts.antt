-- ===== src/Llm/Gateway/Accounts.antt =====
-- What the result of `Chat` says of the providers, and what cancellations leave alone.
use nebula_flow.Prelude.{
  ℕ, ◌+◌, String, ◌≡◌, ◌↔◌, ◌⊎◌, inl, inr, refl, ap, ◌∙◌, List, [], ◌∷◌, ◌++◌, All, Option, none,
  some, arith, ◌==◌, string_eq, count, count-append, Bool-cases, Result, err,
}
use nebula_flow.Llm.Breaker
use nebula_flow.Llm.Registry.{CircuitBreakerRegistry, get_or_create}
use nebula_flow.Llm.Registry
use nebula_flow.Llm.Breaker.{asks}
use nebula_flow.Llm.Registry.Independence.{calls-step}
use text.Mathlib.TextEquality.{eq_iff}
use nebula_flow.Llm.Gateway.{
  ChatResponse, ProviderError, canceled, deadline_exceeded, Provider, Cause,
  all_providers_circuit_open, last_error, GatewayError, all_failed, attempt, chat_loop, chat,
}
use nebula_flow.Llm.Gateway.Failover.{
  names, refused, served, erred, round, loop_skips, loop_fails, loop_serves,
}

-- Each provider was passed over or asked; the cause is the sentinel exactly if nobody was asked.
pub record Accounts (all passed_before : List String) (last : Option ProviderError)
    (called : List String) (x : GatewayError) : Type 0 where
  pub passed : List String
  pub cause : Cause
  pub says : x ≡ all_failed passed cause
  pub each : (k : String) → count k passed + count k called ≡ count k passed_before + count k all
  pub nobody_asked : (cause ≡ all_providers_circuit_open) ↔ ((called ≡ []) × (last ≡ none))

loop_ends_empty :
    (model : String) (r : CircuitBreakerRegistry) (skips : List String)
    (last : Option ProviderError) (x : GatewayError)
    → (chat_loop model [] r skips last).result ≡ err x
    → Accounts [] skips last (chat_loop model [] r skips last).called x
unfolding chat_loop
loop_ends_empty model r skips none x h = record {
  passed = skips;
  cause = all_providers_circuit_open;
  says = cc;
  each = λ k. refl;
  nobody_asked = (λ e. (refl, refl), λ e. refl);
}
loop_ends_empty model r skips (some e) x h = record {
  passed = skips;
  cause = last_error e;
  says = cc;
  each = λ k. refl;
  nobody_asked = (λ p. cc, λ p. cc);
}

loop-Accounts :
    (model : String) (ps : List Provider) (r : CircuitBreakerRegistry) (skips : List String)
    (last : Option ProviderError) (x : GatewayError)
    → (chat_loop model ps r skips last).result ≡ err x
    → Accounts (names ps) skips last (chat_loop model ps r skips last).called x
loop-Accounts model [] r skips last x h = loop_ends_empty model r skips last x h
loop-Accounts model (p ∷ ps) r skips last x h = elim (round r p) [
  | refused e _ ↦
      let eq = loop_skips model p ps r skips last e in
      let a = loop-Accounts model ps (attempt r p).0 (skips ++ p.name ∷ []) last x (rw eq at h) in
      rw eq (record {
        passed = a.passed;
        cause = a.cause;
        says = a.says;
        each = λ k. omega (arith, a.each k, count-append k skips (p.name ∷ []));
        nobody_asked = a.nobody_asked;
      })
  | served resp e _ _ ↦ cc ((loop_serves model p ps r skips last resp e).0)
  | erred y e _ _ ↦
      let eq = loop_fails model p ps r skips last y e in
      let a = loop-Accounts model ps (attempt r p).0 skips (some y) x (rw eq at h) in
      rw eq (record {
        passed = a.passed;
        cause = a.cause;
        says = a.says;
        each = λ k. omega (arith, a.each k);
        nobody_asked = (λ c. cc ((a.nobody_asked.0 c).1), λ c. cc (c.0));
      })
]

-- A failed chat over some providers names those passed over; each provider was passed over or
-- asked, as often as it is listed, and the cause is the circuit-breaker sentinel exactly if nobody
-- was asked.
pub chat-err :
    (model : String) (p : Provider) (ps : List Provider) (r : CircuitBreakerRegistry)
    (x : GatewayError)
    → (chat model (p ∷ ps) r).result ≡ err x
    → Accounts (names (p ∷ ps)) [] none (chat model (p ∷ ps) r).called x
unfolding chat
chat-err model p ps r x h = loop-Accounts model (p ∷ ps) r [] none x h

-- The attempt's own cancellation or deadline.
abbrev pub IsAborted : Result ProviderError ChatResponse → Type 0
IsAborted m = (m ≡ err canceled) ⊎ (m ≡ err deadline_exceeded)

asks-failure_count :
    (now : ℕ) (cb : Breaker.CircuitBreaker)
    → (Breaker.step cb (asks now)).failure_count ≡ cb.failure_count
unfolding Breaker.step
asks-failure_count now cb = ground arith

asks_counts :
    (r : CircuitBreakerRegistry) (p : Provider) (name : String)
    → (get_or_create (Registry.allow r p.name p.asked_at).0 name).failure_count
      ≡ (get_or_create r name).failure_count
asks_counts r p name = elim (Bool-cases (p.name == name)) [
  | inl same ↦
      rw (calls-step r p.name name (asks p.asked_at), same)
        (asks-failure_count p.asked_at (get_or_create r p.name)
          ∙ ap (λ n. (get_or_create r n).failure_count) ((eq_iff p.name name).0 same))
  | inr other ↦ rw (calls-step r p.name name (asks p.asked_at), other) refl
]

attempt_aborted :
    (r : CircuitBreakerRegistry) (p : Provider) (name : String)
    → IsAborted p.answer
    → (get_or_create (attempt r p).0 name).failure_count ≡ (get_or_create r name).failure_count
unfolding attempt
attempt_aborted r p name h = ground (arith, asks_counts r p name)

loop_aborted :
    (model : String) (ps : List Provider) (r : CircuitBreakerRegistry) (skips : List String)
    (last : Option ProviderError) (name : String)
    → All (λ p. IsAborted p.answer) ps
    → (get_or_create (chat_loop model ps r skips last).registry name).failure_count
      ≡ (get_or_create r name).failure_count
unfolding chat_loop
loop_aborted model [] r skips last name h = refl
loop_aborted model (p ∷ ps) r skips last name h = elim (round r p) [
  | refused e _ ↦ rw (loop_skips model p ps r skips last e) (
      loop_aborted model ps (attempt r p).0 (skips ++ p.name ∷ []) last name h.1
      ∙ attempt_aborted r p name h.0)
  | served resp e _ _ ↦
      rw (loop_serves model p ps r skips last resp e).2 (attempt_aborted r p name h.0)
  | erred y e _ _ ↦
      rw (loop_fails model p ps r skips last y e) (
        loop_aborted model ps (attempt r p).0 skips (some y) name h.1
        ∙ attempt_aborted r p name h.0)
]

-- If every attempt ends by cancellation or by its deadline, no breaker counts a failure.
pub chat_aborted :
    (model : String) (ps : List Provider) (r : CircuitBreakerRegistry) (name : String)
    → All (λ p. IsAborted p.answer) ps
    → (get_or_create (chat model ps r).registry name).failure_count
      ≡ (get_or_create r name).failure_count
unfolding chat
chat_aborted model [] r name h = refl
chat_aborted model (p ∷ ps) r name h = loop_aborted model (p ∷ ps) r [] none name h
