-- ===== src/Execution/Tests.antt =====
-- Runs of the model of lib/execution on small concrete data.
mod Samples
mod Jobs
mod Hosts
mod Limits
mod Grants
mod Creation
mod Paths
mod Tasks
