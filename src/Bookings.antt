-- ===== src/Bookings.antt =====
-- The bookings: app/services/booking_service.py.
pub mod Queries
pub mod Create
pub mod Cancel
pub mod Gifts
pub mod Consecutive
pub mod Concurrent
