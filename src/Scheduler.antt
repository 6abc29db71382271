-- ===== src/Scheduler.antt =====
-- internal/scheduler: the workflow graph and the engine that runs it.
pub mod Dag
pub mod WorkflowLock
pub mod Completion
pub mod Policy
pub mod Prompt
pub mod LlmNode
pub mod Node
pub mod Run
pub mod Execute
mod Examples
