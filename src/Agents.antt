-- ===== src/Agents.antt =====
-- apps/agent-runtime/src
pub mod Invocation
pub mod Policy
pub mod Store
pub mod Tools
pub mod Contracts
pub mod Failures
pub mod Approvals
pub mod Calls
pub mod Loop
pub mod Handler
pub mod Gate
mod Examples
