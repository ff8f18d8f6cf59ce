-- ===== src/Loop.antt =====
-- crates/agent-loop: the state of a run and its step functions.
pub mod Types
pub mod Gate
pub mod State
pub mod Provider
pub mod Terminate
pub mod Directives
pub mod Verification
pub mod Claim
pub mod Batch
pub mod Ops
pub mod Grows
pub mod Rows
pub mod Invariant
pub mod Stopping
pub mod Admission
pub mod Retries
pub mod Draining
pub mod Open
pub mod Report
pub mod Request
pub mod Run
