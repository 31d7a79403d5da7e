-- ===== src/Orchestrator.antt =====
-- The orchestrator: execqueue/orchestrator.
pub mod Classification
pub mod Locking
pub mod Planning
pub mod Recovery
pub mod Context
pub mod Git
pub mod Candidates
pub mod Lookup
pub mod Preparation
pub mod RefName
