-- ===== src/Artifacts.antt =====
-- apps/artifact-service/src
pub mod Lineage
pub mod Hex
pub mod Provenance
pub mod Artifact
pub mod Edge
pub mod Events
pub mod Store
pub mod Services
pub mod Upload
pub mod Routes
pub mod Histories
mod Examples
