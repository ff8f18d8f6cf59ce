-- ===== src/Event.antt =====
-- crates/agent-event: the live event vocabulary, the emitter and the pairing check.
pub mod Types
pub mod Emitter
pub mod Delivery
pub mod Pairing
