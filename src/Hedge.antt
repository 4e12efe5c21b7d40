-- ===== src/Hedge.antt =====
-- The hedge engines (app/hedge_core.py).
pub mod Escalate
pub mod Honest
pub mod Waits
pub mod Tunables
pub mod Band
mod Tests
