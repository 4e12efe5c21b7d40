-- ===== src/Risk.antt =====
-- Risk limits (app/risk.py): position sizes, the gates before an entry, and the results of trades.
pub mod Sizing
pub mod Exact
pub mod Gates
pub mod Results
pub mod Newest
pub mod Streak
pub mod Upsert
mod Tests
