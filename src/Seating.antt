-- ===== src/Seating.antt =====
-- apps/api/src/seating.service.ts: tables for a reservation, suggested and assigned.
pub mod Combos
pub mod Score
pub mod Suggest
pub mod Assign
