-- ===== src/Integration.antt =====
-- packages/crm-modules/integration-runtime/src: the business-neutral runtime for calls of third
-- parties. One module for each source file.
pub mod Errors
pub mod Breaker
pub mod RateLimit
pub mod Concurrency
pub mod Retry
pub mod Deadline
pub mod Executor
pub mod Webhook
