-- ===== src/Sandboxes.antt =====
-- apps/execution-service/src
pub mod Contracts
pub mod Sandbox
pub mod Store
pub mod Tools
pub mod Execution
pub mod Recovery
pub mod Exclusion
pub mod Provisioning
mod Examples
