-- ===== src/Engine.antt =====
-- apps/api/src/availability/availability.engine.ts, the slots of a venue over a range of dates.
pub mod Types
pub mod Timeline
pub mod Rules
pub mod Occupancy
pub mod Pacing
pub mod Compute
