-- ===== src/Store.antt =====
-- internal/postgres: the stores, as operations on the rows of a table.
pub mod Tables
pub mod Distinct
pub mod Rows
pub mod Runs
pub mod Cases
pub mod Histories
pub mod Slots
pub mod Finality
pub mod Exclusion
pub mod Atomic
pub mod Queue
mod Examples
