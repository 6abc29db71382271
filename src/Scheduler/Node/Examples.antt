-- ===== src/Scheduler/Node/Examples.antt =====
-- The events of nodes that end in different ways.
use nebula_flow.Prelude.{List, [], ◌∷◌, some, ◌≡◌, refl, string_eq}
use nebula_flow.Model.{NodeType}
use nebula_flow.Task.Hub.{
  EventType, event_node_started, event_node_completed, event_node_failed, event_node_cancelled,
}
use nebula_flow.Scheduler.LlmNode.{
  NodeError, is_canceled, is_approval_waiting, failed_after, canceled,
}
use nebula_flow.Scheduler.Node.{
  Published, Ran, execute_node, dispatch, event_for_status, plain_result,
}

abbrev events : List Published → List EventType
events [] = []
events (p ∷ ps) = p.event ∷ events ps

abbrev fails_with : NodeError → NodeType → Ran
fails_with e t = record { published = []; result = plain_result ""; error = some e }

cancelled_after_retries :
    events (execute_node NodeType.llm "" (fails_with (failed_after 2 canceled))).published
    ≡ event_node_started ∷ event_node_cancelled ∷ []
unfolding execute_node dispatch event_for_status is_canceled is_approval_waiting
cancelled_after_retries = refl

condition_fails :
    events (execute_node NodeType.condition "" (fails_with canceled)).published
    ≡ event_node_started ∷ event_node_failed ∷ []
unfolding execute_node dispatch event_for_status is_canceled is_approval_waiting
condition_fails = refl

output_completes :
    events (execute_node NodeType.output "x" (fails_with canceled)).published
    ≡ event_node_started ∷ event_node_completed ∷ []
unfolding execute_node dispatch event_for_status is_canceled is_approval_waiting
output_completes = refl
