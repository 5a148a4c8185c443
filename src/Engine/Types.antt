-- ===== src/Engine/Types.antt =====
-- The inputs and outputs of the engine: the columns of the database's rows that it reads, and
-- `EngineInput`, `AvailabilitySlot`, `EngineOutput`. The database's `Int` columns that the code
-- uses as sizes and durations are natural numbers.
use restaurant_reservation_s.Prelude.{ℕ, Bool, Option, List, String}
use restaurant_reservation_s.Time.{Clock, Zone}

pub record Shift : Type 0 where
  pub id : String
  pub dow : ℕ
  pub starts_at_local : ℕ
  pub ends_at_local : ℕ
  pub is_active : Bool

pub record BlackoutDate : Type 0 where
  pub date : ℕ

pub record ServiceBuffer : Type 0 where
  pub before_minutes : ℕ
  pub after_minutes : ℕ

pub record PacingRule : Type 0 where
  pub window_minutes : ℕ
  pub max_reservations : Option ℕ
  pub max_covers : Option ℕ

pub record AvailabilityRule : Type 0 where
  pub min_party_size : ℕ
  pub max_party_size : ℕ
  pub slot_length_minutes : ℕ
  pub buffer_minutes : ℕ

pub record Table : Type 0 where
  pub id : String
  pub label : String
  pub capacity : ℕ
  pub area : Option String
  pub zone : Option String

pub record BookedReservation : Type 0 where
  pub id : String
  pub table_ids : List String
  pub slot_start_utc : ℕ
  pub duration_minutes : ℕ
  pub party_size : ℕ

pub record BookedHold : Type 0 where
  pub id : String
  pub table_id : Option String
  pub slot_start_utc : ℕ
  pub expires_at : ℕ
  pub party_size : ℕ

-- `endDate`, `slotIntervalMinutes` and the service buffer may be missing; `now` is what
-- `new Date()` answers.
pub record EngineInput : Type 0 where
  pub timezone : Zone
  pub turn_time_min : ℕ
  pub start_date : ℕ
  pub end_date : Option ℕ
  pub party_size : ℕ
  pub slot_interval_minutes : Option ℕ
  pub shifts : List Shift
  pub availability_rules : List AvailabilityRule
  pub blackout_dates : List BlackoutDate
  pub pacing_rules : List PacingRule
  pub service_buffer : Option ServiceBuffer
  pub tables : List Table
  pub reservations : List BookedReservation
  pub holds : List BookedHold
  pub now : ℕ

-- A slot after step 6 of `computeAvailability`.
pub record OccupancySlot : Type 0 where
  pub start_utc : ℕ
  pub duration_minutes : ℕ
  pub available_tables : List Table
  pub occupied_tables : List String
  pub slot_end : ℕ

-- A slot after step 7. `none` is the limit `Number.POSITIVE_INFINITY`.
pub record PacedSlot : Type 0 where
  pub start_utc : ℕ
  pub duration_minutes : ℕ
  pub available_tables : List Table
  pub is_pacing_constrained : Bool
  pub pacing_used : ℕ
  pub pacing_limit : Option ℕ

pub record AvailabilitySlot : Type 0 where
  pub start_utc : ℕ
  pub end_utc : ℕ
  pub local_date : ℕ
  pub local_time : Clock
  pub duration_minutes : ℕ
  pub capacity_total : ℕ
  pub capacity_available : ℕ
  pub available_tables : List Table
  pub is_pacing_constrained : Bool
  pub pacing_used : ℕ
  pub pacing_limit : Option ℕ

pub record EngineOutput : Type 0 where
  pub slots : List AvailabilitySlot
  pub total_slots : ℕ
  pub available_slots : ℕ
  pub blocked_slots : ℕ
