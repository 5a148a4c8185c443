-- ===== src/Engine/Occupancy.antt =====
-- `computeOccupiedTables`, and step 6 of `computeAvailability`. A `Set` of table ids is a list
-- without repetition.
pub mod Laws
use restaurant_reservation_s.Prelude.{
  ℕ, ◌+◌, ◌*◌, Bool, ◌&&◌, not, Option, none, some, List, [], ◌∷◌, ◌++◌, map, String, filter,
  contains, add_to_set, set_from, truthy, or_else, ltb, string_eq, if◌then◌else◌,
}
use restaurant_reservation_s.Time.{minute_ms, overlaps}
use restaurant_reservation_s.Engine.Types.{
  AvailabilityRule, Table, BookedReservation, BookedHold, OccupancySlot,
}
use restaurant_reservation_s.Engine.Rules.{pick_rule}

-- When a reservation leaves its tables: its own duration, the turn time and the buffer of the
-- rule for its own party.
abbrev pub reservation_end : List AvailabilityRule → AvailabilityRule → ℕ → BookedReservation → ℕ
reservation_end rules default_rule turn_time res =
    let rule = or_else (pick_rule rules res.party_size) default_rule in
    res.slot_start_utc + (res.duration_minutes + turn_time + rule.buffer_minutes) * minute_ms

abbrev pub hold_end : AvailabilityRule → ℕ → BookedHold → ℕ
hold_end default_rule turn_time hold =
    hold.slot_start_utc
    + (default_rule.slot_length_minutes + turn_time + default_rule.buffer_minutes) * minute_ms

abbrev pub text_of : Option String → List String
text_of none = []
text_of (some s) = s ∷ []

module _ (slot_start slot_end : ℕ) (rules : List AvailabilityRule) (default_rule : AvailabilityRule)
    (turn_time now : ℕ) where
  unfoldable pub occupy_reservation : List String → BookedReservation → List String
  occupy_reservation occupied res =
      if overlaps res.slot_start_utc (reservation_end rules default_rule turn_time res) slot_start
        slot_end
      then set_from occupied res.table_ids
      else occupied

  -- The first two tests are the loop's two `continue`s.
  unfoldable pub occupy_hold : List String → BookedHold → List String
  occupy_hold occupied hold =
      if truthy hold.table_id
        && ltb now hold.expires_at
        && overlaps hold.slot_start_utc (hold_end default_rule turn_time hold) slot_start slot_end
      then set_from occupied (text_of hold.table_id)
      else occupied

  unfoldable pub occupy_reservations : List String → List BookedReservation → List String
  occupy_reservations occupied [] = occupied
  occupy_reservations occupied (res ∷ rest) =
      occupy_reservations (occupy_reservation occupied res) rest

  unfoldable pub occupy_holds : List String → List BookedHold → List String
  occupy_holds occupied [] = occupied
  occupy_holds occupied (hold ∷ rest) = occupy_holds (occupy_hold occupied hold) rest

  unfoldable pub compute_occupied_tables : List BookedReservation → List BookedHold → List String
  compute_occupied_tables reservations holds =
      occupy_holds (occupy_reservations [] reservations) holds

-- Step 6 for one slot.
unfoldable pub occupancy_slot :
    List BookedReservation
    → List BookedHold
    → List AvailabilityRule
    → AvailabilityRule
    → ℕ
    → ℕ
    → List Table
    → ℕ
    → OccupancySlot
occupancy_slot reservations holds rules rule turn_time now eligible_tables slot =
    let slot_end =
      slot + (rule.slot_length_minutes + turn_time + rule.buffer_minutes) * minute_ms in
    let occupied =
      compute_occupied_tables slot slot_end rules rule turn_time now reservations holds in
    record {
      start_utc = slot;
      duration_minutes = rule.slot_length_minutes;
      available_tables = filter (λ t. not (contains occupied t.id)) eligible_tables;
      occupied_tables = occupied;
      slot_end = slot_end;
    }
