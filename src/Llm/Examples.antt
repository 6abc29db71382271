-- ===== src/Llm/Examples.antt =====
-- Breakers, a registry and a gateway at concrete calls.
use nebula_flow.Prelude.{
  ℕ, ◌+◌, ◌<◌, String, ◌≡◌, ◌↔◌, refl, true, false, List, [], ◌∷◌, All, none, arith, ◌==◌,
  string_eq, if◌then◌else◌, count, Result, ok, err, some,
}
use nebula_flow.Prelude.Int.{pos}
use nebula_flow.Prelude.Maps.{lookup, insert}
use nebula_flow.Llm.Breaker.{
  CircuitBreaker, state_closed, state_open, state_half_open, new_circuit_breaker_with_config, Call,
  asks, reads, fails, succeeds, allow, record_success, record_failure, step, run,
}
use nebula_flow.Llm.Breaker.Invariant.{in_a_row, run-closed_iff}
use nebula_flow.Llm.Breaker.Cooling.{answers, cooling_refuses}
use nebula_flow.Llm.Registry.{
  CircuitBreakerRegistry, new_circuit_breaker_registry_with_config, get_or_create,
}
use nebula_flow.Llm.Breaker
use nebula_flow.Llm.Registry
use nebula_flow.Llm.Registry.Independence.{calls, calls-step}
use nebula_flow.Llm.Gateway.{
  ChatResponse, ProviderError, canceled, failure, Provider, GatewayError, all_failed, last_error,
  chat,
}
use nebula_flow.Llm.Gateway
use nebula_flow.Llm.Gateway.Stream
use nebula_flow.Llm.Gateway.Failover.{chat_refused, chat_served}
use nebula_flow.Llm.Gateway.Accounts.{Accounts, chat-err}
use nebula_flow.Llm.Gateway.Stream.{
  Chunk, Signal, received, closed, StreamProvider, await_first_token, stream,
}
use nebula_flow.Llm.Gateway.Commit.{Delivers, stream-ok}

abbrev twice_failing : List Call
twice_failing = asks 1 ∷ fails 2 ∷ asks 3 ∷ fails 4 ∷ []

run-closed_iff_example :
    ((run (new_circuit_breaker_with_config (pos 2) (pos 100)) twice_failing).state ≡ state_closed)
    ↔ (in_a_row 0 twice_failing
        < (new_circuit_breaker_with_config (pos 2) (pos 100)).failure_threshold)
run-closed_iff_example = run-closed_iff (pos 2) (pos 100) twice_failing

abbrev tripped : CircuitBreaker
tripped = record {
  state = state_open;
  failure_count = 2;
  failure_threshold = 2;
  cool_down_duration = 100;
  open_at = 4;
}

tripped_runs : run (new_circuit_breaker_with_config (pos 2) (pos 100)) twice_failing ≡ tripped
unfolding run step new_circuit_breaker_with_config
tripped_runs = refl

cooling_refuses_example :
    All (λ b. b ≡ false) (answers tripped (asks 5 ∷ fails 50 ∷ asks 103 ∷ []))
    × ((run tripped (asks 5 ∷ fails 50 ∷ asks 103 ∷ [])).state ≡ state_open)
cooling_refuses_example =
    cooling_refuses tripped (asks 5 ∷ fails 50 ∷ asks 103 ∷ []) refl (omega arith)

abbrev half_open_breaker : CircuitBreaker
half_open_breaker = record tripped { state = state_half_open }

-- One tripped breaker, of the provider "a".
abbrev half_down : CircuitBreakerRegistry
half_down = record {
  breakers = ("a", tripped) ∷ [];
  failure_threshold = 2;
  cool_down_duration = 100;
}

calls-step_example : get_or_create (calls half_down "b" (fails 7)) "a" ≡ (
    if ◌==◌ {K = String} "b" "a"
    then Breaker.step (get_or_create half_down "b") (fails 7)
    else get_or_create half_down "a")
calls-step_example = calls-step half_down "b" "a" (fails 7)

abbrev hello : ChatResponse
hello = record {
  content = "hello";
  provider = "b";
  model = "m";
  input_tokens = 3;
  output_tokens = 1;
  latency_ms = 20;
}

abbrev provider_at : String → ℕ → Result ProviderError ChatResponse → Provider
provider_at name now answer = record {
  name = name;
  asked_at = now;
  answered_at = now + 1;
  answer = answer;
}

a_refused : (Registry.allow half_down "a" 5).1 ≡ false
unfolding Registry.allow get_or_create lookup Breaker.allow
a_refused = refl

b_admitted : (Registry.allow half_down "b" 6).1 ≡ true
unfolding Registry.allow get_or_create lookup Breaker.allow new_circuit_breaker_with_config
b_admitted = refl

chat_refused_example :
    let outcome =
      chat "m"
        (provider_at "a" 5 (ok hello)
          ∷ provider_at "c" 6 (err canceled)
          ∷ provider_at "b" 6 (ok hello)
          ∷ [])
        half_down in
    (count "a" outcome.called ≡ 0) × (got : ChatResponse) × (outcome.result ≡ ok got)
chat_refused_example =
    chat_refused "m" [] (provider_at "c" 6 (err canceled) ∷ []) [] (provider_at "a" 5 (ok hello))
      (provider_at "b" 6 (ok hello)) half_down hello refl a_refused refl b_admitted refl

chat_served_example :
    (got : ChatResponse) × ((chat "m"
        (provider_at "a" 5 (err canceled) ∷ provider_at "b" 6 (ok hello) ∷ [])
        half_down).result
      ≡ ok got)
chat_served_example =
    chat_served "m" (provider_at "a" 5 (err canceled) ∷ []) [] (provider_at "b" 6 (ok hello))
      half_down hello refl b_admitted refl

abbrev broken : ProviderError
broken = failure "503"

chat_fails :
    (chat "m" (provider_at "a" 5 (ok hello) ∷ provider_at "b" 6 (err broken) ∷ []) half_down).result
    ≡ err (all_failed ("a" ∷ []) (last_error broken))
unfolding chat Gateway.attempt Registry.allow Registry.record_failure get_or_create lookup insert
    Breaker.allow Breaker.record_failure new_circuit_breaker_with_config
chat_fails = refl

chat-err_example :
    Accounts
      ("a" ∷ "b" ∷ [])
      []
      none
      (chat "m"
        (provider_at "a" 5 (ok hello) ∷ provider_at "b" 6 (err broken) ∷ [])
        half_down).called
      (all_failed ("a" ∷ []) (last_error broken))
chat-err_example =
    chat-err "m" (provider_at "a" 5 (ok hello)) (provider_at "b" 6 (err broken) ∷ []) half_down
      (all_failed ("a" ∷ []) (last_error broken)) chat_fails

abbrev role_chunk : Chunk
role_chunk = record { content = ""; done = false }

abbrev hi_chunk : Chunk
hi_chunk = record { content = "hi"; done = false }

abbrev end_chunk : Chunk
end_chunk = record { content = ""; done = true }

abbrev signals : List Signal
signals = received role_chunk ∷ received hi_chunk ∷ received end_chunk ∷ closed ∷ []

abbrev streaming : StreamProvider
streaming = record {
  name = "b";
  asked_at = 6;
  answered_at = 8;
  opens = ok signals;
  caller_alive = true;
  stays_for = none;
}

stream_runs :
    (stream (streaming ∷ []) half_down).result ≡ ok (role_chunk ∷ hi_chunk ∷ end_chunk ∷ [])
unfolding stream Stream.stream_attempt await_first_token Stream.forward_all Registry.allow
    Registry.record_success get_or_create lookup insert Breaker.allow Breaker.record_success
    new_circuit_breaker_with_config
stream_runs = refl

cut_short :
    (stream (record streaming { stays_for = some 2 } ∷ []) half_down).result
    ≡ ok (role_chunk ∷ hi_chunk ∷ [])
unfolding stream Stream.stream_attempt await_first_token Stream.forward_all Registry.allow
    Registry.record_success get_or_create lookup insert Breaker.allow Breaker.record_success
    new_circuit_breaker_with_config
cut_short = refl

stream-ok_example :
    Delivers
      (streaming ∷ [])
      (role_chunk ∷ hi_chunk ∷ end_chunk ∷ [])
      (stream (streaming ∷ []) half_down).opened
stream-ok_example =
    stream-ok (streaming ∷ []) half_down (role_chunk ∷ hi_chunk ∷ end_chunk ∷ []) stream_runs
