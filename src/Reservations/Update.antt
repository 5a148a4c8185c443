-- ===== src/Reservations/Update.antt =====
-- `update`, `updateStatus` and `remove` of apps/api/src/reservations.service.ts, with the helpers
-- for a guest's change. A field of a request is `none` where it is undefined, `some none` where it
-- is null.
use restaurant_reservation_s.Prelude.{
  ℕ, ◌+◌, ◌*◌, Bool, true, false, ◌&&◌, ◌||◌, not, Option, none, some, List, map, String, any, find,
  filter, truthy, ltb, ◌==◌, ◌!=◌, nat_eq, string_eq, option_eq, if◌then◌else◌, is_some, or_else,
}
use restaurant_reservation_s.Booking.Types.{
  ReservationStatus, reservation_status_eq, VenueRow, ReservationRow, Store,
}
use restaurant_reservation_s.Booking.SlotTime.{normalize_time_to_24h}
use restaurant_reservation_s.Booking.Conflicts.{SlotConflictCheckInput, or_number}
use restaurant_reservation_s.Booking.Results.{
  Result, ok, ◌>>=◌, ◌>>◌, require, or_throw, bad_request, not_found, forbidden, internal,
}
use restaurant_reservation_s.Reservations.Status.{normalize_status, ensure_transition}
use restaurant_reservation_s.Reservations.Tables.{sync_assignments}
use restaurant_reservation_s.Reservations.Create.{
  Context, Slot, non_blank, normalize_party_size, resolve_duration_minutes, build_slot,
  assert_given_table, assert_slot_is_free, violates_index, table_list,
}

pub record UpdateReservationDto : Type 0 where
  pub guest_name : Option (Option String)
  pub guest_phone : Option (Option String)
  pub guest_email : Option (Option String)
  pub party_size : Option (Option ℕ)
  pub date : Option (Option String)
  pub time : Option (Option String)
  pub table_id : Option (Option String)
  pub status : Option (Option String)
  pub duration_minutes : Option (Option ℕ)
  pub notes : Option (Option String)
  pub channel : Option (Option String)

pub data ReservationActor : Type 0 where
  staff guest : ReservationActor

abbrev pub is_guest : ReservationActor → Bool
is_guest staff = false
is_guest guest = true

-- `normalizeWindow` of a column that is a natural number is that number.
unfoldable pub ensure_guest_window : ℕ → ℕ → ℕ → String → Result (Unit {0})
ensure_guest_window window now slot_start_utc message =
    require (window == 0 || not (ltb slot_start_utc (now + window * 60_000))) (forbidden message)

unfoldable pub ensure_guest_modify_window : VenueRow → ℕ → ℕ → Result (Unit {0})
unfolding ensure_guest_window
ensure_guest_modify_window venue now slot_start_utc =
    ensure_guest_window venue.guest_can_modify_until_min now slot_start_utc
      "Reservation can no longer be modified online"

unfoldable pub ensure_guest_cancel_window : VenueRow → ℕ → ℕ → Result (Unit {0})
unfolding ensure_guest_window
ensure_guest_cancel_window venue now slot_start_utc =
    ensure_guest_window venue.cancellation_window_min now slot_start_utc
      "Reservation can no longer be cancelled online"

unfoldable pub assert_guest_update_payload : UpdateReservationDto → Result (Unit {0})
assert_guest_update_payload dto =
    require
      (not (
        is_some dto.status
        || is_some dto.table_id
        || is_some dto.duration_minutes
        || is_some dto.channel))
      (forbidden "Guests may only update contact information, party size, date, time, and notes")

abbrev pub is_empty_dto : UpdateReservationDto → Bool
is_empty_dto dto = not (
    is_some dto.guest_name
    || is_some dto.guest_phone
    || is_some dto.guest_email
    || is_some dto.party_size
    || is_some dto.date
    || is_some dto.time
    || is_some dto.table_id
    || is_some dto.status
    || is_some dto.duration_minutes
    || is_some dto.notes
    || is_some dto.channel)

-- `if (dto.f !== undefined) payload.f = dto.f?.trim() || null;`
abbrev pub patched : Option (Option String) → Option String → Option String
patched none old = old
patched (some v) old = non_blank v

abbrev pub patched_name : Option (Option String) → String → String
patched_name none old = old
patched_name (some v) old = or_else (non_blank v) old

abbrev pub patched_party_size : Option (Option ℕ) → ℕ → Result ℕ
patched_party_size none old = ok old
patched_party_size (some v) old = normalize_party_size v

abbrev pub updated_status : Option (Option String) → ReservationStatus → ReservationStatus
updated_status none old = old
updated_status (some v) old = normalize_status v old

abbrev pub next_table_id : Option (Option String) → Option String → Option String
next_table_id none old = old
next_table_id (some v) old = if truthy v then v else none

unfoldable pub next_duration_minutes : VenueRow → Option (Option ℕ) → ℕ → ℕ
next_duration_minutes venue none old = or_number old (resolve_duration_minutes venue none)
next_duration_minutes venue (some v) old = resolve_duration_minutes venue v

abbrev pub slot_time : Option (Option String) → String → Result String
slot_time none old = ok old
slot_time (some v) old = or_throw (normalize_time_to_24h v) (bad_request "Invalid time format")

abbrev pub current_slot : ReservationRow → Slot
current_slot r = record {
  date = r.slot_local_date;
  time = r.slot_local_time;
  utc = r.slot_start_utc;
}

-- The slot that the request asks for: that of the row, unless a date or a time is given.
unfoldable pub target_slot :
    Context → VenueRow → UpdateReservationDto → ReservationRow → Result Slot
target_slot ctx venue dto r = do
  time ← slot_time dto.time r.slot_local_time
  (if is_some dto.date || is_some dto.time
      then build_slot ctx.calendar venue (some (or_else (or_else dto.date none) r.slot_local_date))
          (some time)
      else ok (current_slot r))

abbrev pub needs_conflict_check : UpdateReservationDto → Bool
needs_conflict_check dto =
    (is_some dto.date || is_some dto.time) || is_some dto.table_id || is_some dto.duration_minutes

abbrev pub update_check :
    Context → ReservationRow → Slot → Option String → ℕ → SlotConflictCheckInput
update_check ctx r slot table_id duration = record {
  venue_id = r.venue_id;
  table_id = table_id;
  table_ids = none;
  slot_local_date = slot.date;
  slot_local_time = slot.time;
  slot_start_utc = slot.utc;
  duration_minutes = duration;
  exclude_reservation_id = some r.id;
  exclude_hold_id = none;
  now = ctx.now;
}

-- The row after `update`, and after the table assignments that go with a given table.
unfoldable pub patched_row : UpdateReservationDto → ReservationRow → ℕ → Slot → ℕ → ReservationRow
patched_row dto r party_size slot duration = record r {
  guest_name = patched_name dto.guest_name r.guest_name;
  guest_phone = patched dto.guest_phone r.guest_phone;
  guest_email = patched dto.guest_email r.guest_email;
  party_size = party_size;
  notes = patched dto.notes r.notes;
  channel = patched dto.channel r.channel;
  status = updated_status dto.status r.status;
  table_id = next_table_id dto.table_id r.table_id;
  duration_minutes = if is_some dto.duration_minutes then duration else r.duration_minutes;
  slot_local_date = slot.date;
  slot_local_time = slot.time;
  slot_start_utc = slot.utc;
  tables =
      if is_some dto.table_id
      then sync_assignments r.tables (table_list (next_table_id dto.table_id r.table_id))
      else r.tables;
}

abbrev pub find_reservation : Store → String → Option ReservationRow
find_reservation s id = find (λ r. r.id == id) s.reservations

-- `reservation.update({ where: { id }, data })`
abbrev pub put_row : ReservationRow → List ReservationRow → List ReservationRow
put_row row = map (λ r. if r.id == row.id then row else r)

-- The relation `venue` of a row; the foreign key says that it is there.
abbrev pub venue_of : Context → ReservationRow → Result VenueRow
venue_of ctx r = or_throw (find (λ v. v.id == r.venue_id) ctx.venues) (internal "venue")

-- The three tests of a guest's request.
unfoldable pub check_guest :
    Context
    → ReservationActor
    → UpdateReservationDto
    → VenueRow
    → ReservationRow
    → Result (Unit {0})
check_guest ctx staff dto venue r = ok tt
check_guest ctx guest dto venue r = do
  assert_guest_update_payload dto
  ensure_guest_modify_window venue ctx.now r.slot_start_utc
  require (r.status != ReservationStatus.cancelled)
      (forbidden "Reservation has already been cancelled")

-- `if (test) action;`
abbrev pub guarded : Bool → Result (Unit {0}) → Result (Unit {0})
guarded test action = if test then action else ok tt

-- The transaction of `update`; no handler catches a violated index here.
unfoldable pub write_update :
    Context
    → Store
    → UpdateReservationDto
    → ReservationRow
    → ℕ
    → Slot
    → ℕ
    → Result (ReservationRow × Store)
unfolding patched_row
write_update ctx s dto r party_size slot duration = do
  let table_id = next_table_id dto.table_id r.table_id
  let row = patched_row dto r party_size slot duration
  assert_given_table s r.venue_id table_id
  guarded (needs_conflict_check dto)
      (assert_slot_is_free s (update_check ctx r slot table_id duration))
  require (not (any (λ o. o.id != r.id && violates_index row o) s.reservations))
      (internal "Unique constraint failed")
  ok (row, record s { reservations = put_row row s.reservations })

-- `update` of a row that it has found, by a request that is not empty.
unfoldable pub update_found :
    Context
    → Store
    → UpdateReservationDto
    → ReservationActor
    → ReservationRow
    → Result (ReservationRow × Store)
update_found ctx s dto actor r = do
  venue ← venue_of ctx r
  check_guest ctx actor dto venue r
  party_size ← patched_party_size dto.party_size r.party_size
  ensure_transition r.status (updated_status dto.status r.status)
  slot ← target_slot ctx venue dto r
  write_update ctx s dto r party_size slot
      (next_duration_minutes venue dto.duration_minutes r.duration_minutes)

unfoldable pub update :
    Context
    → Store
    → String
    → UpdateReservationDto
    → ReservationActor
    → Result (ReservationRow × Store)
update ctx s id dto actor = do
  r ← or_throw (find_reservation s id) (not_found "Reservation not found")
  (if is_empty_dto dto then ok (r, s) else update_found ctx s dto actor r)

abbrev pub with_status : ReservationStatus → ReservationRow → ReservationRow
with_status status r = record r { status = status }

unfoldable pub update_status :
    Context → Store → String → Option String → ReservationActor → Result (ReservationRow × Store)
update_status ctx s id status actor = do
  r ← or_throw (find_reservation s id) (not_found "Reservation not found")
  let next = normalize_status status r.status
  ensure_transition r.status next
  venue ← venue_of ctx r
  guarded (is_guest actor && next == ReservationStatus.cancelled)
      (ensure_guest_cancel_window venue ctx.now r.slot_start_utc)
  ok (with_status next r, record s { reservations = put_row (with_status next r) s.reservations })

-- The hold's `reservationId` is set to null when its reservation goes.
unfoldable pub remove : Store → String → Result Store
remove s id = do
  r ← or_throw (find_reservation s id) (not_found "Reservation not found")
  ok (record s {
    reservations = filter (λ o. o.id != id) s.reservations;
    holds =
        map (λ h. if h.reservation_id == some id then record h { reservation_id = none } else h)
          s.holds;
  })
