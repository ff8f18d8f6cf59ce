-- ===== src/Budget.antt =====
-- crates/agent-budget: the caps of a run, the counters, and the guard that compares them.
pub mod Config
pub mod Guard
pub mod Caps
pub mod History
