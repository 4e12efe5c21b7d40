-- ===== src/Voice.antt =====
-- The voice-order subsystem (app/voice).
pub mod Pending
