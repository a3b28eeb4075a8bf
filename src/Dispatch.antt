-- ===== src/Dispatch.antt =====
-- The scheduler of src/dispatch.rs: where a job runs, whether it runs, and the pass that queues
-- what has become ready.
pub mod Place
pub mod Agreement
pub mod Guard
pub mod Advance
