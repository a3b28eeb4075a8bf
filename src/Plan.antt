-- ===== src/Plan.antt =====
-- Planning: src/plan.rs. `Jobs` holds its records and `Order` the order that a run takes its jobs in.
pub mod Jobs
pub mod Context
pub mod Order
pub mod Keys
pub mod Matrix
pub mod Build
