-- ===== src/Tests/Holds.antt =====
-- A hold for a table at 19:00, and its life.
use restaurant_reservation_s.Prelude.{◌↔◌, In, ◌+◌, ◌*◌, ◌≡◌, none, some, [], ◌∷◌}
use restaurant_reservation_s.Booking.Types.{HoldStatus, VenueRow, HoldRow, Store}
use restaurant_reservation_s.Booking.SlotTime.{Calendar}
use restaurant_reservation_s.Booking.Results.{ok}
use restaurant_reservation_s.Holds.{
  HoldInput, insert_hold, new_hold, check_input, assert_table_in_venue,
}
use restaurant_reservation_s.Booking.Conflicts.Laws.{IsFreeSlot}
use restaurant_reservation_s.Holds.Insertion.{AtSamePlace, insert_hold_iff}

abbrev calendar : Calendar
calendar = record {
  date_utc = λ f. ((f.day * 24 + f.hour) * 60 + f.minute) * 60_000;
  to_locale = λ zone t. some t;
}

abbrev trattoria : VenueRow
trattoria = record {
  id = "v";
  timezone = "Europe/Rome";
  hold_ttl_min = 10;
  default_duration_min = 90;
  cancellation_window_min = 60;
  guest_can_modify_until_min = 60;
}

abbrev wish : HoldInput
wish = record {
  date = "1970-01-02";
  time = "7:00 pm";
  party_size = 2;
  table_id = none;
  ttl_sec = some 300;
  created_by = none;
}

abbrev nothing : Store
nothing = record { tables = []; reservations = []; holds = [] }

abbrev made : HoldRow
made = record {
  id = "h1";
  venue_id = "v";
  table_id = none;
  reservation_id = none;
  status = HoldStatus.held;
  party_size = 2;
  slot_local_date = "1970-01-02";
  slot_local_time = "19:00";
  slot_start_utc = 241_200_000;
  expires_at = 1_300_000;
  created_by = some "staff";
}

abbrev held : Store
held = record { tables = []; reservations = []; holds = made ∷ [] }

-- A hold of table t1 that has run out.
abbrev gone : HoldRow
gone = record made { table_id = some "t1"; status = HoldStatus.expired }

abbrev used : Store
used = record { tables = []; reservations = []; holds = gone ∷ [] }

abbrev again : HoldInput
again = record wish { table_id = some "t1" }

insert_hold_iff_example :
    ((row : HoldRow) × (s' : Store) × (insert_hold used trattoria again "19:00" 241_200_000
          9_000_000 "h2"
        ≡ ok (row, s')))
    ↔ ((assert_table_in_venue used "v" (some "t1") ≡ ok tt)
        × IsFreeSlot used (check_input trattoria again "19:00" 241_200_000 9_000_000)
        × ((old : HoldRow)
            → In old used.holds
            → ¬ AtSamePlace (new_hold trattoria again "19:00" 241_200_000 9_000_000 "h2") old))
insert_hold_iff_example = insert_hold_iff used trattoria again "19:00" 241_200_000 9_000_000 "h2"
