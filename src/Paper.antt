-- ===== src/Paper.antt =====
-- Paper trading (app/paper_trading.py): simulated exits of paper positions.
pub mod Exits
pub mod Monitor
pub mod Once
pub mod Tests
