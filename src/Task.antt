-- ===== src/Task.antt =====
-- internal/task: the hub that pushes a task's events to its subscribers.
pub mod Hub
pub mod Service
mod Examples
