-- ===== src/Orchestrator.antt =====
-- apps/orchestrator/src
pub mod Task
pub mod Run
pub mod Step
pub mod Approval
pub mod Events
pub mod Session
pub mod Repositories
pub mod Moves
pub mod Handlers
pub mod Cancellation
pub mod Execution
pub mod Dispatch
pub mod Sweeping
pub mod Recovery
pub mod ApprovalHandlers
pub mod Samples
mod Examples
