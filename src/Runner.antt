-- ===== src/Runner.antt =====
-- The runner: execqueue/runner.
pub mod Adoption
pub mod Claim
pub mod Commands
pub mod Dispatch
pub mod Errors
pub mod Inspection
pub mod Prompts
pub mod Recovery
pub mod Retry
pub mod Staleness
pub mod Stream
pub mod Watchdog
