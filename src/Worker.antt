-- ===== src/Worker.antt =====
-- A dispatcher at work on one job: `run_job` and what it calls in src/dispatch.rs, and `consume`,
-- which takes a job from a queue and answers the broker.
pub mod Errors
pub mod Machine
pub mod Calls
pub mod Machines
pub mod Images
pub mod Commands
pub mod Checkout
pub mod Scopes
pub mod Steps
pub mod Job
pub mod Deliver
pub mod Reason
pub mod Spared
pub mod Finished
pub mod Answered
pub mod HandedBack
pub mod Quoting
pub mod Raced
