-- ===== src/Store.antt =====
-- internal/store: the in-memory repositories.
pub mod Tasks
pub mod Workflows
pub mod CachedWorkflows
mod Examples
