-- ===== src/Llm/Gateway/Stream.antt =====
-- internal/llm/gateway.go: `Stream` with failover until the first content. A provider's stream is
-- given as the signals that the gateway's `select` meets, in their order; where they end, the
-- timer of the first token fires.
use nebula_flow.Prelude.{
  ℕ, zero, suc, String, Bool, true, false, not, ◌&&◌, List, [], ◌∷◌, ◌++◌, Option, none, some, ◌==◌,
  string_eq, if◌then◌else◌, Result, ok, err,
}
use nebula_flow.Llm.Registry.{CircuitBreakerRegistry}
use nebula_flow.Llm.Registry
use nebula_flow.Llm.Gateway.{
  ProviderError, canceled, deadline_exceeded, failure, no_content, GatewayError,
  no_provider_configured, all_providers_failed_error,
}

pub record Chunk : Type 0 where
  pub content : String
  pub done : Bool

pub data Signal : Type 0 where
  received : Chunk → Signal
  closed timed_out ctx_done : Signal

-- `caller_alive` is `ctx.Err() == nil` when the gateway gives up on the provider; `stays_for` is the
-- number of chunks that are forwarded before the select of `forward` takes the end of the caller's
-- context, and none where it never does.
pub record StreamProvider : Type 0 where
  pub name : String
  pub asked_at : ℕ
  pub answered_at : ℕ
  pub opens : Result ProviderError (List Signal)
  pub caller_alive : Bool
  pub stays_for : Option ℕ

abbrev pub is_empty : Chunk → Bool
is_empty c = c.content == ""

unfoldable pub has_content : List Chunk → Bool
has_content [] = false
has_content (c ∷ cs) = let rest = has_content cs in if not (is_empty c) then true else rest

abbrev pub is_nonempty : List Chunk → Bool
is_nonempty [] = false
is_nonempty (c ∷ cs) = true

pub record Awaited : Type 0 where
  pub buffered : List Chunk
  pub ok_ : Bool
  pub rest : List Signal

unfoldable pub await_first_token : List Signal → List Chunk → Awaited
unfolding has_content
await_first_token [] buf = record { buffered = buf; ok_ = has_content buf; rest = [] }
await_first_token (received c ∷ sigs) buf =
    let buf' = buf ++ c ∷ [] in
    let on = await_first_token sigs buf' in
    if not (is_empty c)
    then record { buffered = buf'; ok_ = true; rest = sigs }
    else if c.done
    then record { buffered = buf'; ok_ = has_content buf'; rest = sigs }
    else on
await_first_token (closed ∷ sigs) buf = record {
  buffered = buf;
  ok_ = is_nonempty buf && has_content buf;
  rest = closed ∷ sigs;
}
await_first_token (timed_out ∷ sigs) buf = record {
  buffered = buf;
  ok_ = has_content buf;
  rest = sigs;
}
await_first_token (ctx_done ∷ sigs) buf = record {
  buffered = buf;
  ok_ = has_content buf;
  rest = sigs;
}

-- What the forwarding goroutine reads of the source: the chunks until the channel is closed. It does
-- not look at the context, which `forward` does.
abbrev pub chunks_of : List Signal → List Chunk
chunks_of [] = []
chunks_of (received c ∷ sigs) = c ∷ chunks_of sigs
chunks_of (closed ∷ sigs) = []
chunks_of (timed_out ∷ sigs) = chunks_of sigs
chunks_of (ctx_done ∷ sigs) = chunks_of sigs

-- The goroutine's loops over `forward`: until a chunk is marked as the last, or the context of the
-- caller has ended.
unfoldable pub forward_all : Option ℕ → List Chunk → List Chunk
forward_all stays [] = []
forward_all none (c ∷ cs) = let more = forward_all none cs in if c.done then c ∷ [] else c ∷ more
forward_all (some zero) (c ∷ cs) = []
forward_all (some (suc n)) (c ∷ cs) =
    let more = forward_all (some n) cs in if c.done then c ∷ [] else c ∷ more

pub record StreamOutcome : Type 0 where
  pub registry : CircuitBreakerRegistry
  pub opened : List String
  pub result : Result GatewayError (List Chunk)

pub data StreamAttempted : Type 0 where
  skipped : StreamAttempted
  committed : List Chunk → StreamAttempted
  failed : ProviderError → StreamAttempted

abbrev pub open_error :
    CircuitBreakerRegistry → StreamProvider → ProviderError → CircuitBreakerRegistry
open_error r p canceled = r
open_error r p deadline_exceeded = r
open_error r p (failure msg) = Registry.record_failure r p.name p.answered_at
open_error r p (no_content name) = Registry.record_failure r p.name p.answered_at

abbrev pub commit :
    CircuitBreakerRegistry → StreamProvider → Awaited → CircuitBreakerRegistry × StreamAttempted
commit r p a =
    if a.ok_
    then (
      Registry.record_success r p.name,
      committed (forward_all p.stays_for (a.buffered ++ chunks_of a.rest)),
    )
    else (
      if p.caller_alive then Registry.record_failure r p.name p.answered_at else r,
      failed (no_content p.name),
    )

abbrev pub open_stream :
    CircuitBreakerRegistry
    → StreamProvider
    → Result ProviderError (List Signal)
    → CircuitBreakerRegistry × StreamAttempted
open_stream r p (err e) = (open_error r p e, failed e)
open_stream r p (ok sigs) = commit r p (await_first_token sigs [])

unfoldable pub stream_attempt :
    CircuitBreakerRegistry → StreamProvider → CircuitBreakerRegistry × StreamAttempted
stream_attempt r p =
    let (r', admitted) = Registry.allow r p.name p.asked_at in
    if admitted then open_stream r' p p.opens else (r', skipped)

abbrev pub also_opened : String → StreamOutcome → StreamOutcome
also_opened name o = record o { opened = name ∷ o.opened }

unfoldable pub stream_loop :
    List StreamProvider
    → CircuitBreakerRegistry
    → List String
    → Option ProviderError
    → StreamOutcome
stream_loop [] r skips last = record {
  registry = r;
  opened = [];
  result = err (all_providers_failed_error skips last);
}
stream_loop (p ∷ ps) r skips last = elim (stream_attempt r p).1 [
  | skipped ↦ stream_loop ps (stream_attempt r p).0 (skips ++ p.name ∷ []) last
  | committed out ↦ record {
    registry = (stream_attempt r p).0;
    opened = p.name ∷ [];
    result = ok out;
  }
  | failed e ↦ also_opened p.name (stream_loop ps (stream_attempt r p).0 skips (some e))
]

unfoldable pub stream : List StreamProvider → CircuitBreakerRegistry → StreamOutcome
unfolding stream_loop
stream [] r = record { registry = r; opened = []; result = err no_provider_configured }
stream (p ∷ ps) r = stream_loop (p ∷ ps) r [] none
