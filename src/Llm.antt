-- ===== src/Llm.antt =====
-- internal/llm: circuit breakers, one for each provider, and the gateway that fails over.
pub mod Breaker
pub mod Registry
pub mod Gateway
mod Examples
