-- ===== src/Llm/Breaker.antt =====
-- internal/llm/circuitbreaker.go: the breaker of one provider. The time of a call, in nanoseconds,
-- is an argument; the mutex makes each method one step.
pub mod Invariant
pub mod Cooling
use nebula_flow.Prelude.{ℕ, suc, ◌+◌, ◌*◌, Bool, true, false, List, [], ◌∷◌, leb, if◌then◌else◌}
use nebula_flow.Prelude.Int.{ℤ, pos_part, is_positive}

pub data CircuitState : Type 0 where
  state_closed state_open state_half_open : CircuitState

abbrev pub default_failure_threshold : ℕ
default_failure_threshold = 5

abbrev pub default_cool_down_duration : ℕ
default_cool_down_duration = 30 * 1_000_000_000

pub record CircuitBreaker : Type 0 where
  pub state : CircuitState
  pub failure_count : ℕ
  pub failure_threshold : ℕ
  pub cool_down_duration : ℕ
  pub open_at : ℕ

unfoldable pub new_circuit_breaker : CircuitBreaker
new_circuit_breaker = record {
  state = state_closed;
  failure_count = 0;
  failure_threshold = default_failure_threshold;
  cool_down_duration = default_cool_down_duration;
  open_at = 0;
}

-- A threshold or a duration that is not positive falls back to the default.
unfoldable pub new_circuit_breaker_with_config : ℤ → ℤ → CircuitBreaker
new_circuit_breaker_with_config threshold cool_down = record {
  state = state_closed;
  failure_count = 0;
  failure_threshold =
      if is_positive threshold then pos_part threshold else default_failure_threshold;
  cool_down_duration =
      if is_positive cool_down then pos_part cool_down else default_cool_down_duration;
  open_at = 0;
}

-- `time.Since(openAt) >= coolDownDuration`, written without a difference.
abbrev transition_from : CircuitState → ℕ → CircuitBreaker → CircuitBreaker
transition_from state_open now cb =
    if leb (cb.open_at + cb.cool_down_duration) now
    then record cb { state = state_half_open }
    else cb
transition_from state_closed now cb = cb
transition_from state_half_open now cb = cb

unfoldable pub maybe_transition : ℕ → CircuitBreaker → CircuitBreaker
maybe_transition now cb = transition_from cb.state now cb

abbrev is_open : CircuitState → Bool
is_open state_open = true
is_open state_closed = false
is_open state_half_open = false

-- A method returns the new state and its result.
unfoldable pub state : ℕ → CircuitBreaker → CircuitBreaker × CircuitState
unfolding maybe_transition
state now cb = let cb' = maybe_transition now cb in (cb', cb'.state)

unfoldable pub allow : ℕ → CircuitBreaker → CircuitBreaker × Bool
unfolding maybe_transition
allow now cb = let cb' = maybe_transition now cb in (cb', if is_open cb'.state then false else true)

unfoldable pub record_success : CircuitBreaker → CircuitBreaker
record_success cb = record cb { failure_count = 0; state = state_closed }

abbrev fail_in : CircuitState → ℕ → CircuitBreaker → CircuitBreaker
fail_in state_closed now cb =
    if leb cb.failure_threshold cb.failure_count
    then record cb { state = state_open; open_at = now }
    else cb
fail_in state_half_open now cb = record cb { state = state_open; open_at = now }
fail_in state_open now cb = record cb { open_at = now }

unfoldable pub record_failure : ℕ → CircuitBreaker → CircuitBreaker
record_failure now cb = fail_in cb.state now (record cb { failure_count = suc cb.failure_count })

-- A call of the breaker: by whom it is asked, and what is reported to it.
pub data Call : Type 0 where
  asks reads fails : ℕ → Call
  succeeds : Call

unfoldable pub step : CircuitBreaker → Call → CircuitBreaker
unfolding allow state record_failure record_success
step cb (asks now) = (allow now cb).0
step cb (reads now) = (state now cb).0
step cb (fails now) = record_failure now cb
step cb succeeds = record_success cb

unfoldable pub run : CircuitBreaker → List Call → CircuitBreaker
run cb [] = cb
run cb (c ∷ cs) = run (step cb c) cs
