-- ===== src/Tests.antt =====
-- The concrete inputs at which the theorems are applied.
mod Engine
mod Booking
mod Holds
mod Reservations
mod Webhooks
mod Seating
mod Policy
mod Idempotency
mod RateLimit
mod Waitlist
mod Cleanup
