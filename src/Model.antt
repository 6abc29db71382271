-- ===== src/Model.antt =====
-- internal/model/model.go: the domain types that the components share.
pub mod Retry
mod Examples
use nebula_flow.Prelude.{ℕ, String, List, Option}

-- Go's string types: the declared constants, and any other string.
pub data NodeType : Type 0 where
  input llm rag tool condition approval supervisor output : NodeType
  other : String → NodeType

pub data TaskStatus : Type 0 where
  pending running waiting succeeded failed cancelled : TaskStatus
  other : String → TaskStatus

pub data TaskNodeStatus : Type 0 where
  pending running waiting succeeded failed skipped cancelled : TaskNodeStatus
  other : String → TaskNodeStatus

-- `C` stands for `NodeConfig`, which the graph only carries along. The canvas position and the
-- creation time, which nothing of the engine reads, are left out.
pub record WorkflowNode (C : Type 0) : Type 0 where
  pub id : ℕ
  pub workflow_id : ℕ
  pub node_key : String
  pub node_type : NodeType
  pub config : C

pub record WorkflowEdge : Type 0 where
  pub id : ℕ
  pub workflow_id : ℕ
  pub source_node : String
  pub target_node : String

pub record TaskNode : Type 0 where
  pub id : ℕ
  pub task_id : ℕ
  pub node_id : ℕ
  pub node_key : String
  pub node_type : NodeType
  pub status : TaskNodeStatus
  pub input : String
  pub output : String
  pub error : String
  pub duration_ms : ℕ
  pub retries : ℕ
  pub max_retry : ℕ
  pub retry_backoff : String
  pub tokens_in : ℕ
  pub tokens_out : ℕ
  pub started_at : Option ℕ
  pub finished_at : Option ℕ

pub record Task : Type 0 where
  pub id : ℕ
  pub workflow_id : ℕ
  pub user_id : ℕ
  pub status : TaskStatus
  pub priority : String
  pub input : String
  pub output : String
  pub error : String
  pub started_at : Option ℕ
  pub finished_at : Option ℕ
  pub created_at : ℕ
  pub nodes : List TaskNode

pub record TaskLog : Type 0 where
  pub id : ℕ
  pub task_id : ℕ
  pub node_key : String
  pub level : String
  pub message : String
  pub created_at : ℕ
