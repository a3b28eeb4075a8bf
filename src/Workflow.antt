-- ===== src/Workflow.antt =====
-- Workflow files once the YAML is read: src/workflow.rs.
pub mod Filter
pub mod Target
pub mod Jobs
pub mod Validate
