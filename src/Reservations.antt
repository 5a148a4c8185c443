-- ===== src/Reservations.antt =====
-- apps/api/src/reservations.service.ts, with apps/api/src/utils/sync-table-assignments.ts.
pub mod Status
pub mod Events
pub mod Tables
pub mod Create
pub mod Update
pub mod Guests
pub mod Exclusive
