-- ===== src/Llm/Breaker/Invariant.antt =====
-- What holds of a breaker between two calls, and when it trips.
use nebula_flow.Prelude.{ℕ, suc, ◌≤◌, ◌<◌, ◌≡◌, refl, ap, ◌∙◌, ◌≢◌, ◌↔◌, List, [], ◌∷◌, arith}
use nebula_flow.Prelude.Int.{ℤ}
use nebula_flow.Llm.Breaker.{
  state_closed, CircuitBreaker, new_circuit_breaker_with_config, Call, asks, reads, fails, succeeds,
  step, run,
}

pub record Inv (cb : CircuitBreaker) : Type 0 where
  pub threshold_pos : 0 < cb.failure_threshold
  pub cool_down_pos : 0 < cb.cool_down_duration
  pub closed_below : cb.state ≡ state_closed → cb.failure_count < cb.failure_threshold
  pub tripped_above : cb.state ≢ state_closed → cb.failure_threshold ≤ cb.failure_count

new-Inv : (threshold cool_down : ℤ) → Inv (new_circuit_breaker_with_config threshold cool_down)
unfolding new_circuit_breaker_with_config
new-Inv threshold cool_down = ground arith

closed_iff :
    (cb : CircuitBreaker) (row threshold : ℕ)
    → Inv cb
    → cb.failure_count ≡ row
    → cb.failure_threshold ≡ threshold
    → (cb.state ≡ state_closed) ↔ (row < threshold)
closed_iff cb row threshold v e f = ground arith

pub step-Inv : (cb : CircuitBreaker) (c : Call) → Inv cb → Inv (step cb c)
unfolding step
step-Inv cb (asks now) v = ground arith
step-Inv cb (reads now) v = ground arith
step-Inv cb (fails now) v = ground arith
step-Inv cb succeeds v = ground arith

run-Inv : (cb : CircuitBreaker) (cs : List Call) → Inv cb → Inv (run cb cs)
unfolding run
run-Inv cb [] v = v
run-Inv cb (c ∷ cs) v = run-Inv (step cb c) cs (step-Inv cb c v)

-- The failures reported since the last success, `n` of them before the calls.
abbrev pub in_a_row : ℕ → List Call → ℕ
in_a_row n [] = n
in_a_row n (fails now ∷ cs) = in_a_row (suc n) cs
in_a_row n (succeeds ∷ cs) = in_a_row 0 cs
in_a_row n (asks now ∷ cs) = in_a_row n cs
in_a_row n (reads now ∷ cs) = in_a_row n cs

step-row :
    (cb : CircuitBreaker) (c : Call) (cs : List Call)
    → in_a_row (step cb c).failure_count cs ≡ in_a_row cb.failure_count (c ∷ cs)
unfolding step
step-row cb (asks now) cs = ap (λ n. in_a_row n cs) (ground arith)
step-row cb (reads now) cs = ap (λ n. in_a_row n cs) (ground arith)
step-row cb (fails now) cs = ap (λ n. in_a_row n cs) (ground arith)
step-row cb succeeds cs = refl

run-row :
    (cb : CircuitBreaker) (cs : List Call)
    → (run cb cs).failure_count ≡ in_a_row cb.failure_count cs
unfolding run
run-row cb [] = refl
run-row cb (c ∷ cs) = run-row (step cb c) cs ∙ step-row cb c cs

step-threshold :
    (cb : CircuitBreaker) (c : Call) → (step cb c).failure_threshold ≡ cb.failure_threshold
unfolding step
step-threshold cb (asks now) = ground arith
step-threshold cb (reads now) = ground arith
step-threshold cb (fails now) = ground arith
step-threshold cb succeeds = refl

run-threshold :
    (cb : CircuitBreaker) (cs : List Call) → (run cb cs).failure_threshold ≡ cb.failure_threshold
unfolding run
run-threshold cb [] = refl
run-threshold cb (c ∷ cs) = run-threshold (step cb c) cs ∙ step-threshold cb c

-- After any calls a new breaker is closed exactly when the failures reported since the last
-- success are fewer than its threshold.
pub run-closed_iff :
    (threshold cool_down : ℤ) (cs : List Call)
    → let cb = new_circuit_breaker_with_config threshold cool_down in
      ((run cb cs).state ≡ state_closed) ↔ (in_a_row 0 cs < cb.failure_threshold)
unfolding new_circuit_breaker_with_config
run-closed_iff threshold cool_down cs =
    let cb = new_circuit_breaker_with_config threshold cool_down in
    closed_iff (run cb cs) (in_a_row 0 cs) cb.failure_threshold
      (run-Inv cb cs (new-Inv threshold cool_down)) (run-row cb cs) (run-threshold cb cs)
