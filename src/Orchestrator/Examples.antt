-- ===== src/Orchestrator/Examples.antt =====
-- Each theorem of the manifest that has hypotheses, at a concrete input.
mod Executions
mod Sweeps
mod Commands
mod Entities
