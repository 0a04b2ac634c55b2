-- ===== src/Execution/Worker.antt =====
-- The tasks of lib/execution/worker-runtime.ts.
pub mod Common
pub mod Diagnostic
pub mod Provision
pub mod Run
pub mod Collect
pub mod Finish
pub mod Sweep
pub mod Keeps
pub mod History
pub mod Tasks
pub mod Guarantees
