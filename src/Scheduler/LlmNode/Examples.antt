-- ===== src/Scheduler/LlmNode/Examples.antt =====
-- An LLM node whose first answer is blank and whose second one is not.
use nebula_flow.Prelude.{
  ℕ, zero, suc, String, false, [], ◌∷◌, none, some, Result, ok, err, ◌≡◌, true, ◌⊎◌, refl,
  string_eq,
}
use nebula_flow.Prelude.Int.{pos}
use nebula_flow.Scheduler.Prompt.{is_blank, is_space, build_llm_messages, estimate_tokens, fields}
use nebula_flow.Scheduler.LlmNode.{
  NodeError, NodeResult, LlmConfig, LlmAnswers, llm_attempt, wait, llm_loop, run_llm_node,
  agent_enabled, parse_bool, string, backoff_for, failure,
}
use nebula_flow.Scheduler.LlmNode.Attempts.{run_llm_node-Outcome, Outcome}

abbrev asks_once_more : LlmConfig
asks_once_more = record {
  model = "";
  system = "Be brief.";
  prompt = "Sum up";
  max_retry = pos 1;
  stream = some false;
  agentic = some (string "0");
  tools = [];
}

abbrev reply : String → NodeResult
reply s = record {
  output = s;
  provider = "deepseek";
  model = "deepseek-chat";
  input_tokens = 4;
  output_tokens = 1;
}

abbrev chats : ℕ → Result NodeError NodeResult
chats zero = ok (reply " \n")
chats (suc k) = ok (reply "done")

abbrev answers : LlmAnswers
answers = record { stream = λ k. err (failure "unused"); chat = chats; waiting = λ k. none }

abbrev agent : Result NodeError NodeResult
agent = err (failure "no agent")

agents : agent_enabled (record asks_once_more { agentic = some (string "true") }) ≡ true
unfolding agent_enabled parse_bool
agents = refl

second_counts : run_llm_node 3 asks_once_more "a text" agent answers ≡ ok (reply "done")
unfolding run_llm_node agent_enabled parse_bool llm_loop wait llm_attempt is_blank is_space
second_counts = refl

run_llm_node-Outcome_example :
    ((agent_enabled asks_once_more ≡ true)
      × (run_llm_node 3 asks_once_more "a text" agent answers ≡ agent))
    ⊎ ((agent_enabled asks_once_more ≡ false)
        × Outcome asks_once_more "a text" answers 2
            (run_llm_node 3 asks_once_more "a text" agent answers))
run_llm_node-Outcome_example = run_llm_node-Outcome asks_once_more "a text" answers 3 agent

backoffs : backoff_for 5 ∷ backoff_for 9 ∷ [] ≡ 16 ∷ 30 ∷ []
unfolding backoff_for
backoffs = refl

counts_words : estimate_tokens (build_llm_messages "Be brief." "" "one  two three") ≡ 5
unfolding estimate_tokens build_llm_messages fields is_space
counts_words = refl
