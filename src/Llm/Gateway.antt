-- ===== src/Llm/Gateway.antt =====
-- internal/llm/gateway.go: `Chat` with failover over the providers in order. What each provider
-- would answer, and when it is asked and has answered, are given with the provider; `called` and
-- `usages` record the calls of providers and of the usage callback.
pub mod Failover
pub mod Accounts
pub mod Stream
pub mod Commit
use nebula_flow.Prelude.{
  ℕ, String, Bool, true, false, List, [], ◌∷◌, ◌++◌, Option, none, some, string_eq, if◌then◌else◌,
  Result, ok, err,
}
use nebula_flow.Llm.Registry.{CircuitBreakerRegistry}
use nebula_flow.Llm.Registry

pub record ChatResponse : Type 0 where
  pub content : String
  pub provider : String
  pub model : String
  pub input_tokens : ℕ
  pub output_tokens : ℕ
  pub latency_ms : ℕ

-- What `errors.Is` tells apart: the caller's own cancellation or deadline, and a failure.
-- `no_content` is the gateway's own error for a stream without content.
pub data ProviderError : Type 0 where
  canceled deadline_exceeded : ProviderError
  failure : String → ProviderError
  no_content : String → ProviderError

pub record Provider : Type 0 where
  pub name : String
  pub asked_at : ℕ
  pub answered_at : ℕ
  pub answer : Result ProviderError ChatResponse

pub record Usage : Type 0 where
  pub provider : String
  pub model : String
  pub input_tokens : ℕ
  pub output_tokens : ℕ
  pub latency_ms : ℕ
  pub error : Option ProviderError

-- The error wrapped by `%w`: the last real one, or the sentinel if no provider was asked.
pub data Cause : Type 0 where
  all_providers_circuit_open : Cause
  last_error : ProviderError → Cause

pub data GatewayError : Type 0 where
  no_provider_configured : GatewayError
  all_failed : List String → Cause → GatewayError

abbrev pub all_providers_failed_error : List String → Option ProviderError → GatewayError
all_providers_failed_error skipped none = all_failed skipped all_providers_circuit_open
all_providers_failed_error skipped (some e) = all_failed skipped (last_error e)

pub record ChatOutcome : Type 0 where
  pub registry : CircuitBreakerRegistry
  pub called : List String
  pub usages : List Usage
  pub result : Result GatewayError ChatResponse

-- How one round of the loop ends.
pub data Attempted : Type 0 where
  skipped : Attempted
  answered : ChatResponse → Attempted
  failed : ProviderError → Attempted

-- Cancellations do not count against the provider.
abbrev pub record_error : CircuitBreakerRegistry → Provider → ProviderError → CircuitBreakerRegistry
record_error r p canceled = r
record_error r p deadline_exceeded = r
record_error r p (failure msg) = Registry.record_failure r p.name p.answered_at
record_error r p (no_content name) = Registry.record_failure r p.name p.answered_at

abbrev pub ask :
    CircuitBreakerRegistry
    → Provider
    → Result ProviderError ChatResponse
    → CircuitBreakerRegistry × Attempted
ask r p (ok resp) = (Registry.record_success r p.name, answered resp)
ask r p (err e) = (record_error r p e, failed e)

unfoldable pub attempt : CircuitBreakerRegistry → Provider → CircuitBreakerRegistry × Attempted
attempt r p =
    let (r', admitted) = Registry.allow r p.name p.asked_at in
    if admitted then ask r' p p.answer else (r', skipped)

abbrev success_usage : ChatResponse → Usage
success_usage resp = record {
  provider = resp.provider;
  model = resp.model;
  input_tokens = resp.input_tokens;
  output_tokens = resp.output_tokens;
  latency_ms = resp.latency_ms;
  error = none;
}

abbrev error_usage : String → String → ProviderError → Usage
error_usage name model e = record {
  provider = name;
  model = model;
  input_tokens = 0;
  output_tokens = 0;
  latency_ms = 0;
  error = some e;
}

abbrev pub after_failure : String → String → ProviderError → ChatOutcome → ChatOutcome
after_failure name model e o = record o {
  called = name ∷ o.called;
  usages = error_usage name model e ∷ o.usages;
}

pub chat_loop :
    String
    → List Provider
    → CircuitBreakerRegistry
    → List String
    → Option ProviderError
    → ChatOutcome
chat_loop model [] r skips last = record {
  registry = r;
  called = [];
  usages = [];
  result = err (all_providers_failed_error skips last);
}
chat_loop model (p ∷ ps) r skips last = elim (attempt r p).1 [
  | skipped ↦ chat_loop model ps (attempt r p).0 (skips ++ p.name ∷ []) last
  | answered resp ↦ record {
    registry = (attempt r p).0;
    called = p.name ∷ [];
    usages = success_usage resp ∷ [];
    result = ok resp;
  }
  | failed e ↦ after_failure p.name model e (chat_loop model ps (attempt r p).0 skips (some e))
]

unfoldable pub chat : String → List Provider → CircuitBreakerRegistry → ChatOutcome
unfolding chat_loop
chat model [] r = record {
  registry = r;
  called = [];
  usages = [];
  result = err no_provider_configured;
}
chat model (p ∷ ps) r = chat_loop model (p ∷ ps) r [] none
