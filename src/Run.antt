-- ===== src/Run.antt =====
-- internal/run: Runs, their slots and leases, and the scheduler.
pub mod Model
pub mod Lifecycle
pub mod Lease
pub mod Validity
pub mod Persistence
pub mod Leases
pub mod Schedule
pub mod FloorDiv
pub mod Slots
pub mod Missed
pub mod Observation
pub mod Events
pub mod Scheduler
pub mod Backfill
pub mod Protocol
pub mod Walked
pub mod Suppression
pub mod Manual
pub mod Settled
pub mod Requested
pub mod Confirming
pub mod Confirmed
mod Examples
mod RequestExamples
