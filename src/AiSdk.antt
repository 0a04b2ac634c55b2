-- ===== src/AiSdk.antt =====
-- The runs of agents and the approval of their tools: lib/ai-sdk.
pub mod Runs
pub mod Approvals
pub mod ApprovalPolicy
mod Tests
