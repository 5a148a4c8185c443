-- ===== src/Booking.antt =====
-- The bookings of a venue: the rows of prisma/schema.prisma that the booking services share, the
-- slot times of apps/api/src/utils/time.ts, and the conflict check of
-- apps/api/src/utils/booking-conflicts.ts.
pub mod Types
pub mod SlotTime
pub mod Conflicts
pub mod Results
