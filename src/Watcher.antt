-- ===== src/Watcher.antt =====
-- The order watcher (app/watcher.py): entry orders that wait for their fill, and the ticker's
-- subscriptions.
mod Sets
pub mod Orders
pub mod Runs
pub mod Fills
pub mod Deliveries
pub mod Tokens
mod Tests
