-- ===== src/Health.antt =====
-- internal/health/health.go: evaluated Monitor health and its confirmation.
pub mod Model
pub mod Classify
pub mod Snapshot
pub mod Scheduled
pub mod Confirmation
pub mod Evaluate
pub mod Invariant
pub mod Safety
pub mod Transitions
pub mod History
pub mod Outcomes
pub mod Classification
mod Examples
pub mod Service
pub mod Sweeping
