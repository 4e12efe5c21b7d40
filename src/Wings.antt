-- ===== src/Wings.antt =====
-- The protective wings of a straddle (app/entry_wings.py).
pub mod Place
pub mod Required
mod Tests
