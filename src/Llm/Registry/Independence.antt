-- ===== src/Llm/Registry/Independence.antt =====
-- A call for one provider is a call of its breaker, and of no other.
use nebula_flow.Prelude.{String, ◌≡◌, arith, ◌==◌, string_eq, if◌then◌else◌}
use nebula_flow.Prelude.Maps.{lookup-insert}
use nebula_flow.Llm.Breaker.{CircuitBreaker, Call, asks, reads, fails, succeeds}
use nebula_flow.Llm.Breaker
use nebula_flow.Llm.Registry.{
  CircuitBreakerRegistry, get_or_create, put, allow, record_success, record_failure, state,
}

-- The registry's method that makes a call of the breaker named.
abbrev pub calls : CircuitBreakerRegistry → String → Call → CircuitBreakerRegistry
calls r name (asks now) = (allow r name now).0
calls r name (reads now) = (state r name now).0
calls r name (fails now) = record_failure r name now
calls r name succeeds = record_success r name

pub get_or_create-put :
    (r : CircuitBreakerRegistry) (name other : String) (cb : CircuitBreaker)
    → get_or_create (put r name cb) other ≡ (if name == other then cb else get_or_create r other)
unfolding get_or_create
get_or_create-put r name other cb = ground (arith, lookup-insert name other cb r.breakers)

-- A method of the registry steps the breaker of its name, and leaves the breakers of all other
-- names as they were, also those not created yet.
pub calls-step :
    (r : CircuitBreakerRegistry) (name other : String) (c : Call)
    → get_or_create (calls r name c) other
      ≡ (if name == other then Breaker.step (get_or_create r name) c else get_or_create r other)
unfolding allow state record_success record_failure Breaker.step
calls-step r name other (asks now) = get_or_create-put r name other _
calls-step r name other (reads now) = get_or_create-put r name other _
calls-step r name other (fails now) = get_or_create-put r name other _
calls-step r name other succeeds = get_or_create-put r name other _
