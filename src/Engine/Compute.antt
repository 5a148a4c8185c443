-- ===== src/Engine/Compute.antt =====
-- `computeAvailability`: the steps in the order of the source. `none` means that the loop over the
-- slots of a shift does not end.
pub mod Laws
use restaurant_reservation_s.Prelude.{
  ℕ, ◌+◌, ◌-◌, ◌*◌, Bool, true, false, Option, none, some, List, [], ◌∷◌, map, filter, length, ltb,
  leb, or_else,
}
use restaurant_reservation_s.Time.{Zone, minute_ms, from_utc}
use restaurant_reservation_s.Engine.Types.{
  Table, AvailabilityRule, EngineInput, OccupancySlot, PacedSlot, AvailabilitySlot, EngineOutput,
}
use restaurant_reservation_s.Engine.Timeline.{
  build_base_timeline, apply_blackouts, apply_service_buffer,
}
use restaurant_reservation_s.Engine.Rules.{pick_rule}
use restaurant_reservation_s.Engine.Occupancy.{occupancy_slot}
use restaurant_reservation_s.Engine.Pacing.{apply_pacing_rules}

abbrev pub no_slots : EngineOutput
no_slots = record { slots = []; total_slots = 0; available_slots = 0; blocked_slots = 0 }

-- Step 8 for one slot.
unfoldable pub format_slot : Zone → ℕ → PacedSlot → AvailabilitySlot
format_slot zone capacity_total slot = record {
  start_utc = slot.start_utc;
  end_utc = slot.start_utc + slot.duration_minutes * minute_ms;
  local_date = (from_utc slot.start_utc zone).date;
  local_time = (from_utc slot.start_utc zone).time;
  duration_minutes = slot.duration_minutes;
  capacity_total = capacity_total;
  capacity_available = length slot.available_tables;
  available_tables = slot.available_tables;
  is_pacing_constrained = slot.is_pacing_constrained;
  pacing_used = slot.pacing_used;
  pacing_limit = slot.pacing_limit;
}

abbrev pub is_available : AvailabilitySlot → Bool
is_available s = ltb 0 s.capacity_available

unfoldable pub summarise : List AvailabilitySlot → EngineOutput
summarise slots =
    let total = length slots in
    let available = length (filter is_available slots) in
    record {
      slots = slots;
      total_slots = total;
      available_slots = available;
      blocked_slots = total - available;
    }

-- Steps 6 to 8, for the rule and the tables that fit the party.
unfoldable pub offer_slots : EngineInput → List ℕ → AvailabilityRule → List Table → EngineOutput
unfolding summarise
offer_slots input after_buffer rule eligible_tables =
    let with_occupancy =
      map
        (occupancy_slot input.reservations input.holds input.availability_rules rule
          input.turn_time_min input.now eligible_tables)
        after_buffer in
    let final_slots =
      apply_pacing_rules with_occupancy input.pacing_rules input.reservations input.holds in
    summarise (map (format_slot input.timezone (length eligible_tables)) final_slots)

abbrev pub eligible : EngineInput → List Table
eligible input = filter (λ t. leb input.party_size t.capacity) input.tables

-- Steps 4 and 5.
unfoldable pub offer_for_party : EngineInput → List ℕ → EngineOutput
unfolding offer_slots
offer_for_party input after_buffer = elim (pick_rule input.availability_rules input.party_size) [
  | none ↦ no_slots
  | some rule ↦ elim (eligible input) [
    | [] ↦ no_slots
    | t ∷ ts ↦ offer_slots input after_buffer rule (t ∷ ts)
  ]
]

-- Steps 2 and 3.
abbrev pub open_times : EngineInput → List ℕ → List ℕ
open_times input base_slots =
    apply_service_buffer (apply_blackouts base_slots input.blackout_dates input.timezone)
      input.service_buffer input.now

abbrev pub base_timeline : EngineInput → Option (List ℕ)
base_timeline input =
    build_base_timeline input.timezone input.start_date (or_else input.end_date input.start_date)
      input.shifts (or_else input.slot_interval_minutes 15)

unfoldable pub compute_availability : EngineInput → Option EngineOutput
unfolding offer_for_party
compute_availability input = elim (base_timeline input) [
  | none ↦ none
  | some base_slots ↦ some (offer_for_party input (open_times input base_slots))
]
