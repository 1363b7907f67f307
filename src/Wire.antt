-- ===== src/Wire.antt =====
-- The wire formats: numbers in network byte order, market events, message headers, retransmit
-- requests, whole messages and the sequencer that numbers them.
pub mod Bytes
pub mod Event
pub mod Request
pub mod Message
pub mod Sequencer
mod Tests
