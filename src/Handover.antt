-- ===== src/Handover.antt =====
-- How the outbox entry of a recorded Run (internal/run/events.go) reads at the health handler
-- (internal/health/service.go).
pub mod Recorded
mod Examples
