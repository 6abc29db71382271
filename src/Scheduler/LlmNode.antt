-- ===== src/Scheduler/LlmNode.antt =====
-- internal/scheduler/executor.go: the attempts of an LLM node, and agent.go for whether it is an agent
-- instead. What the gateway answers to each
-- attempt is an argument. Left out are the logs and the events of tokens and of fallbacks.
pub mod Attempts
mod Examples
use Prim.Native.String.{◌++◌ as ◌++ˢ◌}
use nebula_flow.Prelude.{
  ℕ, zero, suc, ◌-◌, ◌^◌, String, Bool, true, false, List, [], ◌∷◌, Option, none, some, Result, ok,
  err, string_eq, ◌==◌, if◌then◌else◌, ltb,
}
use nebula_flow.Prelude.Int.{ℤ, pos, negsuc}
use nebula_flow.Model.{NodeType}
use nebula_flow.Scheduler.Prompt.{build_llm_messages, estimate_tokens, is_blank}

pub record NodeResult : Type 0 where
  pub output : String
  pub provider : String
  pub model : String
  pub input_tokens : ℕ
  pub output_tokens : ℕ

-- `failed_after` wraps the last error, which `errors.Is` looks through, and `failed_without` a nil.
pub data NodeError : Type 0 where
  canceled deadline_exceeded approval_waiting node_cancelled : NodeError
  empty_llm_stream_response empty_llm_response : NodeError
  unknown_node_type : NodeType → NodeError
  failure : String → NodeError
  failed_after : ℕ → NodeError → NodeError
  failed_without : ℕ → NodeError

unfoldable pub is_canceled : NodeError → Bool
is_canceled canceled = true
is_canceled (failed_after n e) = is_canceled e
is_canceled e = false

unfoldable pub is_approval_waiting : NodeError → Bool
is_approval_waiting approval_waiting = true
is_approval_waiting (failed_after n e) = is_approval_waiting e
is_approval_waiting e = false

-- In seconds.
unfoldable pub backoff_for : ℕ → ℕ
backoff_for llm_attempt =
    let low = if ltb llm_attempt 1 then 1 else llm_attempt in
    let capped = if ltb 6 low then 6 else low in
    let d = 2 ^ (capped - 1) in if ltb 30 d then 30 else d

pub record TokenChunk : Type 0 where
  pub content : String
  pub done : Bool
  pub error : Option NodeError

-- The content and the number of its chunks, up to the end of the channel.
abbrev pub read_stream : List TokenChunk → String → ℕ → Result NodeError (String × ℕ)
read_stream [] content tokens = ok (content, tokens)
read_stream (c ∷ cs) content tokens =
    let rest = read_stream cs content tokens in
    let more = read_stream cs (content ++ˢ c.content) (suc tokens) in
    elim c.error [
      | some e ↦ err e
      | none ↦ if c.done then ok (content, tokens) else if c.content == "" then rest else more
    ]

-- The value of `agentic` in a node's settings.
pub data AgenticValue : Type 0 where
  bool : Bool → AgenticValue
  string : String → AgenticValue
  other : AgenticValue

-- `tools` are the names that can be read of the settings, none where they cannot be.
pub record LlmConfig : Type 0 where
  pub model : String
  pub system : String
  pub prompt : String
  pub max_retry : ℤ
  pub stream : Option Bool
  pub agentic : Option AgenticValue
  pub tools : List String

-- `strconv.ParseBool`.
abbrev is_one_of : String → List String → Bool
is_one_of s [] = false
is_one_of s (t ∷ ts) = let rest = is_one_of s ts in if s == t then true else rest

unfoldable pub parse_bool : String → Option Bool
parse_bool s =
    if is_one_of s ("1" ∷ "t" ∷ "T" ∷ "TRUE" ∷ "true" ∷ "True" ∷ [])
    then some true
    else if is_one_of s ("0" ∷ "f" ∷ "F" ∷ "FALSE" ∷ "false" ∷ "False" ∷ [])
    then some false
    else none

abbrev or_disabled : Option Bool → Bool
or_disabled none = false
or_disabled (some b) = b

abbrev is_agentic : Option AgenticValue → Bool
is_agentic (some (bool b)) = b
is_agentic (some (string s)) = or_disabled (parse_bool s)
is_agentic v = false

-- Whether the node runs in agent mode.
unfoldable pub agent_enabled : LlmConfig → Bool
agent_enabled cfg = elim cfg.tools [ [] ↦ is_agentic cfg.agentic | t ∷ ts ↦ true ]

-- The gateway's answers to the attempts, and the error of the context if it ends while the loop
-- waits for an attempt.
pub record LlmAnswers : Type 0 where
  pub stream : ℕ → Result NodeError (List TokenChunk)
  pub chat : ℕ → Result NodeError NodeResult
  pub waiting : ℕ → Option NodeError

abbrev pub model_name : LlmConfig → String
model_name cfg = if cfg.model == "" then "deepseek-chat" else cfg.model

abbrev pub is_streamed : LlmConfig → Bool
is_streamed cfg = elim cfg.stream [ none ↦ true | some v ↦ v ]

-- The retries; the scheduler's default is never negative.
abbrev pub retries : ℕ → ℤ → ℕ
retries default_max_retry (pos zero) = default_max_retry
retries default_max_retry (pos (suc n)) = suc n
retries default_max_retry (negsuc n) = default_max_retry

abbrev pub streamed :
    LlmConfig → String → Result NodeError (List TokenChunk) → Result NodeError NodeResult
streamed cfg input (err e) = err e
streamed cfg input (ok cs) = elim (read_stream cs "" 0) [
  | err e ↦ err e
  | ok r ↦
      if is_blank r.0
      then err empty_llm_stream_response
      else ok (record {
        output = r.0;
        provider = "llm";
        model = model_name cfg;
        input_tokens = estimate_tokens (build_llm_messages cfg.system cfg.prompt input);
        output_tokens = r.1;
      })
]

abbrev pub chatted : Result NodeError NodeResult → Result NodeError NodeResult
chatted (err e) = err e
chatted (ok r) = if is_blank r.output then err empty_llm_response else ok r

-- One attempt.
unfoldable pub llm_attempt : LlmConfig → String → LlmAnswers → ℕ → Result NodeError NodeResult
llm_attempt cfg input answers k =
    if is_streamed cfg then streamed cfg input (answers.stream k) else chatted (answers.chat k)

unfoldable pub wait : LlmAnswers → ℕ → Option NodeError
wait answers zero = none
wait answers (suc k) = answers.waiting (suc k)

abbrev pub exhausted : ℕ → Option NodeError → NodeError
exhausted n none = failed_without n
exhausted n (some e) = failed_after n e

-- `left` is how many attempts follow before `k` passes the retries.
unfoldable pub llm_loop :
    LlmConfig → String → LlmAnswers → ℕ → ℕ → Option NodeError → Result NodeError NodeResult
llm_loop cfg input answers zero k last = err (exhausted k last)
llm_loop cfg input answers (suc left) k last = elim (wait answers k) [
  | some e ↦ err e
  | none ↦ elim (llm_attempt cfg input answers k) [
    | ok r ↦ ok r
    | err e ↦ llm_loop cfg input answers left (suc k) (some e)
  ]
]

-- `agent` is what the agent loop comes to.
unfoldable pub run_llm_node :
    ℕ → LlmConfig → String → Result NodeError NodeResult → LlmAnswers → Result NodeError NodeResult
run_llm_node default_max_retry cfg input agent answers =
    if agent_enabled cfg
    then agent
    else llm_loop cfg input answers (suc (retries default_max_retry cfg.max_retry)) 0 none
