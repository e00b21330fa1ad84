-- ===== src/Voice.antt =====
-- The spoken voice (src/backend/src/voice.rs).
pub mod Synthesizer
pub mod Cache
pub mod Worker
pub mod Caller
pub mod Order
pub mod Files
pub mod Late
pub mod Control
mod Tests
