-- ===== src/Tests/Reservations.antt =====
-- An evening's reservations at one table.
use restaurant_reservation_s.Reservations.Update.{ensure_guest_cancel_window}
use restaurant_reservation_s.Reservations.Create.{normalize_party_size}
use restaurant_reservation_s.Reservations.Update.{
  update_found, check_guest, assert_guest_update_payload, ensure_guest_modify_window, target_slot,
  write_update,
}
use restaurant_reservation_s.Reservations.Status.{normalize_status}
use restaurant_reservation_s.Booking.Conflicts.{has_slot_conflicts, find_slot_conflicts, hold_where}
use restaurant_reservation_s.Prelude.{In, trim}
use restaurant_reservation_s.Reservations.Create.{
  ensure_venue, check_hold, hold_table, convert_hold, assert_table_in_venue, assert_slot_is_free,
  resolve_duration_minutes,
}
use restaurant_reservation_s.Prelude.{
  ◌+◌, ◌*◌, ◌≡◌, ◌≢◌, refl, ◌↔◌, ◌⊎◌, true, none, some, List, [], ◌∷◌, String, In,
}
use restaurant_reservation_s.Booking.Types.{
  ReservationStatus, reservation_status_eq, HoldStatus, VenueRow, TableRow, ReservationRow, HoldRow,
  Store, Assignment,
}
use restaurant_reservation_s.Booking.SlotTime.{Calendar}
use restaurant_reservation_s.Booking.Results.{ok}
use restaurant_reservation_s.Reservations.Status.{ensure_transition}
use restaurant_reservation_s.Reservations.Status.Laws.{Step, Course, ensure_transition_iff}
use restaurant_reservation_s.Reservations.Tables.{sync_assignments, is_named}
use restaurant_reservation_s.Reservations.Tables.Laws.{ids, sync_assignments_iff}
use restaurant_reservation_s.Reservations.Create.{
  assert_given_table, Context, CreateReservationDto, NewReservation, create_from_hold,
  insert_reservation, new_reservation, creation_check, hold_reservation,
}
use restaurant_reservation_s.Reservations.Update.{
  UpdateReservationDto, ReservationActor, update, update_status, find_reservation, venue_of,
}
use restaurant_reservation_s.Reservations.Guests.{
  IsOpen, Untouched, guest_update-Untouched, guest_cancel-IsOpen,
}
use restaurant_reservation_s.Reservations.Exclusive.{IsSound}
use restaurant_reservation_s.Booking.Conflicts.Laws.{IsFreeSlot}
use restaurant_reservation_s.Reservations.Exclusive.Insertion.{AreApart, insert_reservation_iff}
use restaurant_reservation_s.Reservations.Exclusive.Once.{create_from_hold_once}
use restaurant_reservation_s.Reservations.Exclusive.Course.{Call, run, run-IsSound}

abbrev calendar : Calendar
calendar = record {
  date_utc = λ f. ((f.day * 24 + f.hour) * 60 + f.minute) * 60_000;
  to_locale = λ zone t. some t;
}

abbrev trattoria : VenueRow
trattoria = record {
  id = "v";
  timezone = "Europe/Rome";
  hold_ttl_min = 10;
  default_duration_min = 90;
  cancellation_window_min = 60;
  guest_can_modify_until_min = 60;
}

abbrev around : String → String → Context
around id code = record {
  calendar = calendar;
  venues = trattoria ∷ [];
  default_venue_id = "v";
  default_venue = trattoria;
  now = 1_000_000;
  new_id = id;
  new_code = code;
}

abbrev window : TableRow
window = record {
  id = "t1";
  venue_id = "v";
  label = "T1";
  capacity = 4;
  join_group_id = none;
  area = none;
  zone = none;
}

abbrev held : HoldRow
held = record {
  id = "h1";
  venue_id = "v";
  table_id = some "t1";
  reservation_id = none;
  status = HoldStatus.held;
  party_size = 2;
  slot_local_date = "1970-01-02";
  slot_local_time = "19:00";
  slot_start_utc = 241_200_000;
  expires_at = 1_300_000;
  created_by = none;
}

abbrev before : Store
before = record { tables = window ∷ []; reservations = []; holds = held ∷ [] }

abbrev asked : CreateReservationDto
asked = record {
  hold_id = some "h1";
  venue_id = none;
  table_id = none;
  guest_name = some "Ada";
  guest_phone = none;
  guest_email = none;
  party_size = some 2;
  date = none;
  time = none;
  duration_minutes = none;
  status = none;
  notes = none;
  channel = none;
  created_by = none;
}

abbrev booked : ReservationRow
booked = record {
  id = "r1";
  venue_id = "v";
  table_id = some "t1";
  code = "RAAAAAA";
  status = ReservationStatus.confirmed;
  guest_name = "Ada";
  guest_phone = none;
  guest_email = none;
  party_size = 2;
  slot_local_date = "1970-01-02";
  slot_local_time = "19:00";
  slot_start_utc = 241_200_000;
  duration_minutes = 90;
  notes = none;
  channel = some "hold-convert";
  created_by = some "system";
  tables = record { table_id = "t1"; assigned_order = 0 } ∷ [];
}

abbrev converted : Store
converted = record {
  tables = window ∷ [];
  reservations = booked ∷ [];
  holds = record held { status = HoldStatus.consumed; reservation_id = some "r1" } ∷ [];
}

booked_is : create_from_hold (around "r1" "RAAAAAA") before "h1" asked ≡ ok (booked, converted)
unfolding create_from_hold ensure_venue trim check_hold hold_table convert_hold insert_reservation
    assert_table_in_venue assert_slot_is_free has_slot_conflicts find_slot_conflicts hold_where
    new_reservation normalize_status resolve_duration_minutes
booked_is = refl

-- After the conversion the reservation is cancelled and removed.
abbrev undone : List Call
undone =
    Call.sets_status (around "r1" "RAAAAAA") "r1" (some "CANCELLED") ReservationActor.staff
    ∷ Call.removes "r1"
    ∷ []

create_from_hold_once_example : ¬ (
    create_from_hold (around "r2" "RBBBBBB") (run converted undone) "h1" asked
    ≡ ok (booked, before))
create_from_hold_once_example =
    create_from_hold_once (around "r1" "RAAAAAA") (around "r2" "RBBBBBB") before "h1" asked asked
      undone booked_is

abbrev unchanged : UpdateReservationDto
unchanged = record {
  guest_name = none;
  guest_phone = none;
  guest_email = none;
  party_size = none;
  date = none;
  time = none;
  table_id = none;
  status = none;
  duration_minutes = none;
  notes = none;
  channel = none;
}

abbrev three : UpdateReservationDto
three = record unchanged { party_size = some (some 3) }

abbrev for_three : Store
for_three = record converted { reservations = record booked { party_size = 3 } ∷ [] }

three_is :
    update (around "" "") converted "r1" three ReservationActor.guest
    ≡ ok (record booked { party_size = 3 }, for_three)
unfolding update update_found check_guest assert_guest_update_payload ensure_guest_modify_window
    normalize_party_size ensure_transition target_slot write_update assert_table_in_venue
three_is = refl

guest_update-Untouched_example :
    (r : ReservationRow) × (venue : VenueRow) × (find_reservation converted "r1" ≡ some r)
    × (venue_of (around "" "") r ≡ ok venue)
    × (r.status ≢ ReservationStatus.cancelled)
    × IsOpen venue.guest_can_modify_until_min 1_000_000 r.slot_start_utc
    × Untouched r (record booked { party_size = 3 })
guest_update-Untouched_example =
    guest_update-Untouched (around "" "") converted "r1" three refl three_is

abbrev off : ReservationRow
off = record booked { status = ReservationStatus.cancelled }

abbrev called_off : Store
called_off = record converted { reservations = off ∷ [] }

off_is :
    update_status (around "" "") converted "r1" (some "cancelled") ReservationActor.guest
    ≡ ok (off, called_off)
unfolding update_status ensure_transition normalize_status ensure_guest_cancel_window
off_is = refl

guest_cancel-IsOpen_example :
    (r : ReservationRow) × (venue : VenueRow) × (find_reservation converted "r1" ≡ some r)
    × (venue_of (around "" "") r ≡ ok venue)
    × (ensure_transition r.status ReservationStatus.cancelled ≡ ok tt)
    × IsOpen venue.cancellation_window_min 1_000_000 r.slot_start_utc
guest_cancel-IsOpen_example =
    guest_cancel-IsOpen (around "" "") converted "r1" (some "cancelled") off_is refl

-- The slot of the cancelled reservation, asked for again.
abbrev anew : NewReservation
anew = hold_reservation trattoria asked held "t1"

abbrev again : Context
again = around "r2" "RBBBBBB"

insert_reservation_iff_example :
    ((row : ReservationRow) × (s' : Store) × (insert_reservation again called_off asked anew
          (creation_check again anew)
        ≡ ok (row, s')))
    ↔ ((assert_given_table called_off "v" (some "t1") ≡ ok tt)
        × IsFreeSlot called_off (creation_check again anew)
        × ((old : ReservationRow)
            → In old called_off.reservations
            → AreApart (new_reservation again asked anew) old))
insert_reservation_iff_example =
    insert_reservation_iff again called_off asked anew (creation_check again anew)

ensure_transition_iff_example :
    (ensure_transition ReservationStatus.seated ReservationStatus.confirmed ≡ ok tt) ↔ (
      (ReservationStatus.seated ≡ ReservationStatus.confirmed)
      ⊎ Step ReservationStatus.seated ReservationStatus.confirmed)
ensure_transition_iff_example =
    ensure_transition_iff ReservationStatus.seated ReservationStatus.confirmed

stays : Course ReservationStatus.completed ReservationStatus.completed
stays = Course.here

abbrev two_tables : List Assignment
two_tables =
    record { table_id = "t1"; assigned_order = 0 }
    ∷ record { table_id = "t2"; assigned_order = 1 }
    ∷ []

sync_assignments_iff_example :
    In {A = String} "t2" (ids (sync_assignments two_tables ("t3" ∷ "t1" ∷ [])))
    ↔ (In {A = String} "t2" ("t3" ∷ "t1" ∷ []) × (is_named "t2" ≡ true))
sync_assignments_iff_example = sync_assignments_iff two_tables ("t3" ∷ "t1" ∷ []) "t2"

empty-IsSound : IsSound []
empty-IsSound = record { once = tt; exclusive = λ a b i. elim i [ ]; single = λ r i. elim i [ ] }

abbrev evening : List Call
evening =
    Call.creates (around "r1" "RAAAAAA") asked
    ∷ Call.creates (around "r2" "RBBBBBB") asked
    ∷ Call.updates (around "" "") "r1" three ReservationActor.guest
    ∷ Call.sets_status (around "" "") "r1" (some "SEATED") ReservationActor.staff
    ∷ Call.removes "r2"
    ∷ []

run-IsSound_example : IsSound (run before evening).reservations
run-IsSound_example = run-IsSound before evening empty-IsSound
