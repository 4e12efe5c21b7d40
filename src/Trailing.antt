-- ===== src/Trailing.antt =====
-- The trailing stop (app/trailing.py): positions by instrument token, and what a tick does to one.
pub mod Tick
pub mod Manager
pub mod Ratchet
pub mod Sessions
pub mod Update
pub mod Settled
mod Tests
