-- ===== src/Orders.antt =====
-- The order layer (app/orders.py): retries, entry orders, GTT OCO brackets and square-offs.
pub mod Broker
pub mod Backoff
pub mod Retries
pub mod Throttle
pub mod Entry
pub mod Gtt
pub mod SquareOff
mod Tests
