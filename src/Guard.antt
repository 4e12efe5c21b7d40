-- ===== src/Guard.antt =====
-- The risk guard of the commodity agents (app/commodity_agents/risk_guard.py).
pub mod Verdict
pub mod Monotone
mod Tests
