-- ===== src/Execution.antt =====
-- The execution kernel: lib/execution and the tables of db/execution-schema.ts.
pub mod Status
pub mod Errors
pub mod Schema
pub mod Db
pub mod Transition
pub mod Network
pub mod History
pub mod Moves
pub mod Events
pub mod Leases
pub mod Cancellation
pub mod Settings
pub mod Records
pub mod Quota
pub mod Validation
pub mod ToolRuns
pub mod Interleave
pub mod Machine
pub mod Creation
pub mod Grants
pub mod Worker
mod Tests
