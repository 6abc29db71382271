-- ===== src/Queue.antt =====
-- internal/queue: the task queue. Its interface, as far as the priority queue calls it, and the
-- implementations in child modules.
pub mod Memory
pub mod Priority
mod Examples
use nebula_flow.Prelude.{ℕ, String, Result}
use nebula_flow.Prelude.Int.{ℤ}

pub record Job : Type 0 where
  pub task_id : ℕ
  pub attempt : ℕ
  pub trace_parent : String

-- The ids of messages are those of the in-memory queue: `mem-n` is the number n.
pub data QueueError : Type 0 where
  no_message context_done : QueueError
  unknown_message dropped_to_dlq : ℕ → QueueError
  other_error : String → QueueError

-- The interface Queue: a call takes the queue's state and returns the new one with its result. The
-- calls of Dequeue are those with a block of 0.
pub record QueueOps (S : Type 0) : Type 0 where
  pub enqueue : Job → S → S × Result QueueError (Unit {0})
  pub dequeue : S → S × Result QueueError (Job × ℕ)
  pub ack : ℕ → S → S × Result QueueError (Unit {0})
  pub nack : ℕ → ℤ → S → S × Result QueueError (Unit {0})
  pub recover : ℕ → S → S × Result QueueError ℕ
  pub len : S → Result QueueError ℕ
