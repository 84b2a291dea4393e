-- ===== src/Incident.antt =====
-- internal/incident and internal/postgres/incident.go: the automatic Incidents of a Monitor.
pub mod Model
pub mod Service
pub mod Rows
pub mod Projection
pub mod Acknowledgement
pub mod Cases
pub mod Views
pub mod Histories
pub mod Unresolved
pub mod Obstructed
pub mod Replay
pub mod Effects
pub mod Cursors
pub mod Followed
pub mod Delivered
pub mod Agreement
pub mod Ordering
pub mod Redelivery
mod Examples
