-- ===== src/Expiry.antt =====
-- The choice of the expiry of a trade (app/expiry_resolver.py, and `list_expiries` of
-- app/symbol_mapper.py). A date is the number of its day, a time of day one of microseconds.
pub mod Dates
pub mod Resolve
pub mod Nearest
mod Tests
