-- ===== src/Outbox.antt =====
-- internal/outbox/outbox.go: at-least-once dispatch of internal events.
pub mod Model
pub mod Retry
pub mod Dispatch
pub mod Backoff
pub mod Handling
mod Examples
