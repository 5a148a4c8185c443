-- ===== src/Tests/Booking.antt =====
-- A request for a table at 19:00, and the bookings around it.
use restaurant_reservation_s.Prelude.{
  filter, refl, string_eq, ◌+◌, ◌*◌, ◌≡◌, ◌↔◌, false, none, some, [], ◌∷◌, String,
}
use restaurant_reservation_s.Booking.Types.{
  ReservationStatus, HoldStatus, ReservationRow, HoldRow, Store,
}
use restaurant_reservation_s.Booking.SlotTime.{Calendar}
use restaurant_reservation_s.Booking.Conflicts.{
  SlotConflictCheckInput, find_slot_conflicts, has_slot_conflicts,
}
use restaurant_reservation_s.Booking.Conflicts.Laws.{IsFreeSlot, has_slot_conflicts_iff}
use restaurant_reservation_s.Booking.Conflicts.Gaps.{
  holds_never_block, other_times_never_block, lasts_into, is_reservation_then, is_hold_then,
}

abbrev calendar : Calendar
calendar = record {
  date_utc = λ f. ((f.day * 24 + f.hour) * 60 + f.minute) * 60_000;
  to_locale = λ zone t. some (t + 7_200_000);
}

abbrev request : SlotConflictCheckInput
request = record {
  venue_id = "v";
  table_id = some "t1";
  table_ids = none;
  slot_local_date = "1970-01-02";
  slot_local_time = "19:00";
  slot_start_utc = 154_800_000;
  duration_minutes = 90;
  exclude_reservation_id = none;
  exclude_hold_id = none;
  now = 100_000_000;
}

abbrev seated_at : String → ReservationRow
seated_at time = record {
  id = "r1";
  venue_id = "v";
  table_id = some "t1";
  code = "RAAAAAA";
  status = ReservationStatus.confirmed;
  guest_name = "Ada";
  guest_phone = none;
  guest_email = none;
  party_size = 2;
  slot_local_date = "1970-01-02";
  slot_local_time = time;
  slot_start_utc = 153_000_000;
  duration_minutes = 90;
  notes = none;
  channel = none;
  created_by = none;
  tables = record { table_id = "t1"; assigned_order = 0 } ∷ [];
}

abbrev same_slot : HoldRow
same_slot = record {
  id = "h1";
  venue_id = "v";
  table_id = some "t1";
  reservation_id = none;
  status = HoldStatus.held;
  party_size = 2;
  slot_local_date = "1970-01-02";
  slot_local_time = "19:00";
  slot_start_utc = 154_800_000;
  expires_at = 100_600_000;
  created_by = none;
}

abbrev holding : Store
holding = record { tables = []; reservations = []; holds = same_slot ∷ [] }

abbrev earlier : Store
earlier = record { tables = []; reservations = seated_at "18:30" ∷ []; holds = [] }

has_slot_conflicts_iff_example :
    (has_slot_conflicts (find_slot_conflicts earlier request) ≡ false) ↔ IsFreeSlot earlier request
has_slot_conflicts_iff_example = has_slot_conflicts_iff earlier request

-- The hold for the very table and slot, and the booking half an hour before it.
abbrev crowded : Store
crowded = record { tables = []; reservations = seated_at "18:30" ∷ []; holds = same_slot ∷ [] }

holds_never_block_example :
    find_slot_conflicts
      (record crowded { holds = filter (lasts_into request) crowded.holds })
      request
    ≡ find_slot_conflicts crowded request
holds_never_block_example = holds_never_block crowded request

hold_is_dropped : filter (lasts_into request) crowded.holds ≡ []
hold_is_dropped = refl

other_times_never_block_example :
    find_slot_conflicts
      (record crowded {
        reservations = filter (is_reservation_then request) crowded.reservations;
        holds = filter (is_hold_then request) crowded.holds;
      })
      request
    ≡ find_slot_conflicts crowded request
other_times_never_block_example = other_times_never_block crowded request
