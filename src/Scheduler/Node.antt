-- ===== src/Scheduler/Node.antt =====
-- internal/scheduler/executor.go: the execution of one node. What a node of a type with a body of its
-- own comes to is an argument; LlmNode has that of an LLM node. Left out are the logs.
mod Examples
use nebula_flow.Prelude.{ℕ, String, List, [], ◌∷◌, ◌++◌, Option, none, some, if◌then◌else◌}
use nebula_flow.Model.{NodeType, TaskNodeStatus}
use nebula_flow.Task.Hub.{
  EventType, event_node_started, event_node_completed, event_node_failed, event_node_skipped,
  event_node_cancelled, event_node_waiting, event_log,
}
use nebula_flow.Scheduler.LlmNode.{
  NodeResult, NodeError, node_cancelled, unknown_node_type, is_canceled, is_approval_waiting,
}

unfoldable pub event_for_status : TaskNodeStatus → EventType
event_for_status TaskNodeStatus.running = event_node_started
event_for_status TaskNodeStatus.succeeded = event_node_completed
event_for_status TaskNodeStatus.failed = event_node_failed
event_for_status TaskNodeStatus.skipped = event_node_skipped
event_for_status TaskNodeStatus.cancelled = event_node_cancelled
event_for_status TaskNodeStatus.waiting = event_node_waiting
event_for_status s = event_log

-- `publishNode`: the state that is stored, and the event.
pub record Published : Type 0 where
  pub status : TaskNodeStatus
  pub event : EventType
  pub output : String
  pub error : Option NodeError
  pub tokens : ℕ × ℕ

abbrev pub publish_node : TaskNodeStatus → NodeResult → Option NodeError → Published
publish_node status res error = record {
  status = status;
  event = event_for_status status;
  output = res.output;
  error = error;
  tokens = (res.input_tokens, res.output_tokens);
}

abbrev pub plain_result : String → NodeResult
plain_result output = record {
  output = output;
  provider = "";
  model = "";
  input_tokens = 0;
  output_tokens = 0;
}

-- What a node's body publishes itself, returns and fails with.
pub record Ran : Type 0 where
  pub published : List Published
  pub result : NodeResult
  pub error : Option NodeError

-- The body of the switch, where `others` runs the remaining types.
unfoldable pub dispatch : NodeType → String → (NodeType → Ran) → Ran
dispatch NodeType.input input others = record {
  published = [];
  result = plain_result input;
  error = none;
}
dispatch NodeType.output input others = record {
  published = [];
  result = plain_result input;
  error = none;
}
dispatch NodeType.condition input others = record {
  published = [];
  result = plain_result "";
  error = some (unknown_node_type NodeType.condition);
}
dispatch (NodeType.other t) input others = record {
  published = [];
  result = plain_result "";
  error = some (unknown_node_type (NodeType.other t));
}
dispatch t input others = others t

abbrev pub ended : List Published → NodeResult → Option NodeError → Ran
ended before res none = record {
  published = before ++ publish_node TaskNodeStatus.succeeded res none ∷ [];
  result = res;
  error = none;
}
ended before res (some e) =
    if is_approval_waiting e
    then record { published = before; result = res; error = some e }
    else if is_canceled e
    then record {
      published = before ++ publish_node TaskNodeStatus.cancelled res (some node_cancelled) ∷ [];
      result = res;
      error = some node_cancelled;
    }
    else record {
      published = before ++ publish_node TaskNodeStatus.failed res (some e) ∷ [];
      result = res;
      error = some e;
    }

unfoldable pub execute_node : NodeType → String → (NodeType → Ran) → Ran
execute_node t input others =
    let ran = dispatch t input others in
    ended (publish_node TaskNodeStatus.running (plain_result "") none ∷ ran.published) ran.result
      ran.error
