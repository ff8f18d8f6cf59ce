-- ===== src/Log.antt =====
-- crates/agent-log: the durable log, one JSON item to a line.
pub mod Types
pub mod Writer
pub mod Reader
pub mod Validity
pub mod Recovery
