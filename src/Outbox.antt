-- ===== src/Outbox.antt =====
-- The transactional outbox: the worker of internal/outboxworker/worker.go.
pub mod Backoff
pub mod Worker
pub mod Dispatchers
mod Examples
