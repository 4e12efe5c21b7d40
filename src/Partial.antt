-- ===== src/Partial.antt =====
-- Partial profit booking (app/partial_booking.py).
pub mod Slice
pub mod Rows
pub mod Booking
pub mod Job
pub mod Bounds
pub mod Ordering
pub mod Single
pub mod Latch
pub mod Loop
pub mod Once
mod Tests
