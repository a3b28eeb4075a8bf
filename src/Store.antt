-- ===== src/Store.antt =====
-- The run and job tables and the statements on them: src/store.rs with migrations/001_init.sql.
-- `Status` holds the two state machines, `Tables` the rows and the statements; the proofs are in
-- `Lifecycle` (what a statement can do to a job) and `RollUp` (what a run makes of its jobs).
pub mod Status
pub mod Rows
pub mod Tables
pub mod Updates
pub mod Lifecycle
pub mod RollUp
pub mod Cancel
pub mod Steps
pub mod Over
