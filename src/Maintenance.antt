-- ===== src/Maintenance.antt =====
-- internal/maintenance: maintenance windows of a Monitor.
pub mod Window
pub mod Service
pub mod Laws
pub mod Restored
pub mod Requests
mod Examples
