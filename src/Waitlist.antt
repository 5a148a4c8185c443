-- ===== src/Waitlist.antt =====
-- apps/api/src/waitlist/waitlist.service.ts: the offers of the waiting list.
pub mod Rows
pub mod Offer
pub mod Calls
pub mod Invariant
pub mod Holding
pub mod Consuming
