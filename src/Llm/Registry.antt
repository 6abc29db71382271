-- ===== src/Llm/Registry.antt =====
-- internal/llm/circuitbreaker.go: the registry, a breaker for each provider's name. A breaker that
-- a method reaches through its pointer is written back.
pub mod Independence
use nebula_flow.Prelude.{
  ℕ, String, Bool, List, [], ◌∷◌, Option, none, some, string_eq, if◌then◌else◌,
}
use nebula_flow.Prelude.Int.{ℤ, pos, pos_part, is_positive}
use nebula_flow.Prelude.Maps.{lookup, insert}
use nebula_flow.Llm.Breaker.{
  CircuitBreaker, CircuitState, default_failure_threshold, default_cool_down_duration,
  new_circuit_breaker_with_config,
}
use nebula_flow.Llm.Breaker

pub record CircuitBreakerRegistry : Type 0 where
  pub breakers : List (String × CircuitBreaker)
  pub failure_threshold : ℕ
  pub cool_down_duration : ℕ

unfoldable pub new_circuit_breaker_registry : CircuitBreakerRegistry
new_circuit_breaker_registry = record {
  breakers = [];
  failure_threshold = default_failure_threshold;
  cool_down_duration = default_cool_down_duration;
}

unfoldable pub new_circuit_breaker_registry_with_config : ℤ → ℤ → CircuitBreakerRegistry
new_circuit_breaker_registry_with_config threshold cool_down = record {
  breakers = [];
  failure_threshold =
      if is_positive threshold then pos_part threshold else default_failure_threshold;
  cool_down_duration =
      if is_positive cool_down then pos_part cool_down else default_cool_down_duration;
}

abbrev found_or_new : CircuitBreakerRegistry → Option CircuitBreaker → CircuitBreaker
found_or_new r (some cb) = cb
found_or_new r none =
    new_circuit_breaker_with_config (pos r.failure_threshold) (pos r.cool_down_duration)

-- The breaker that `getOrCreate` returns; each method below stores it.
unfoldable pub get_or_create : CircuitBreakerRegistry → String → CircuitBreaker
get_or_create r name = found_or_new r (lookup name r.breakers)

abbrev put : CircuitBreakerRegistry → String → CircuitBreaker → CircuitBreakerRegistry
put r name cb = record r { breakers = insert name cb r.breakers }

unfoldable pub allow : CircuitBreakerRegistry → String → ℕ → CircuitBreakerRegistry × Bool
allow r name now =
    let (cb, admitted) = Breaker.allow now (get_or_create r name) in (put r name cb, admitted)

unfoldable pub record_success : CircuitBreakerRegistry → String → CircuitBreakerRegistry
record_success r name = put r name (Breaker.record_success (get_or_create r name))

unfoldable pub record_failure : CircuitBreakerRegistry → String → ℕ → CircuitBreakerRegistry
record_failure r name now = put r name (Breaker.record_failure now (get_or_create r name))

unfoldable pub state : CircuitBreakerRegistry → String → ℕ → CircuitBreakerRegistry × CircuitState
state r name now = let (cb, s) = Breaker.state now (get_or_create r name) in (put r name cb, s)

unfoldable pub failure_count : CircuitBreakerRegistry → String → CircuitBreakerRegistry × ℕ
failure_count r name = let cb = get_or_create r name in (put r name cb, cb.failure_count)
