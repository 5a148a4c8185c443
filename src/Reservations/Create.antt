-- ===== src/Reservations/Create.antt =====
-- `create` and `createFromHold` of apps/api/src/reservations.service.ts, with the helpers that
-- build a slot and check it. Each transaction holds the advisory lock of its slot. The messages
-- to the guest, the cache and the waitlist row of a hold are not part of the model.
use restaurant_reservation_s.Prelude.{
  ℕ, Bool, ◌&&◌, ◌||◌, not, Option, none, some, List, [], ◌∷◌, String, any, find, is_empty, truthy,
  ltb, ◌==◌, nat_eq, string_eq, option_eq, if◌then◌else◌, is_some, or_else,
}
use restaurant_reservation_s.Booking.Types.{
  HoldStatus, hold_status_eq, ReservationStatus, VenueRow, ReservationRow, HoldRow, Store,
}
use restaurant_reservation_s.Booking.SlotTime.{Calendar, normalize_time_to_24h, to_utc_instant}
use restaurant_reservation_s.Booking.Conflicts.{
  SlotConflictCheckInput, find_slot_conflicts, has_slot_conflicts,
}
use restaurant_reservation_s.Booking.Results.{
  Result, ok, err, ◌>>=◌, ◌>>◌, require, or_throw, bad_request, not_found, slot_conflict,
}
use restaurant_reservation_s.Holds.{trimmed_or, update_hold, find_hold, consume_row}
use restaurant_reservation_s.Reservations.Status.{normalize_status}
use restaurant_reservation_s.Reservations.Events.{normalize_nullable_string}
use restaurant_reservation_s.Reservations.Tables.{sync_assignments}

pub record CreateReservationDto : Type 0 where
  pub hold_id : Option String
  pub venue_id : Option String
  pub table_id : Option String
  pub guest_name : Option String
  pub guest_phone : Option String
  pub guest_email : Option String
  pub party_size : Option ℕ
  pub date : Option String
  pub time : Option String
  pub duration_minutes : Option ℕ
  pub status : Option String
  pub notes : Option String
  pub channel : Option String
  pub created_by : Option String

-- What a call takes from its surroundings: the venues, what `ensureDefaultVenue` answers, the
-- time, the id that the database makes and the code that `generateCode` draws.
pub record Context : Type 0 where
  pub calendar : Calendar
  pub venues : List VenueRow
  pub default_venue_id : String
  pub default_venue : VenueRow
  pub now : ℕ
  pub new_id : String
  pub new_code : String

pub record Slot : Type 0 where
  pub date : String
  pub time : String
  pub utc : ℕ

unfoldable pub ensure_venue : Context → Option String → Result VenueRow
ensure_venue ctx venue_id =
    let id = trimmed_or venue_id ctx.default_venue_id in
    if id == ctx.default_venue_id
    then ok ctx.default_venue
    else or_throw (find (λ v. v.id == id) ctx.venues) (not_found "Venue not found")

-- `value?.trim() || null`
abbrev pub non_blank : Option String → Option String
non_blank = normalize_nullable_string

unfoldable pub normalize_party_size : Option ℕ → Result ℕ
normalize_party_size none = err (bad_request "Invalid party size")
normalize_party_size (some n) = if n == 0 then err (bad_request "Invalid party size") else ok n

unfoldable pub resolve_duration_minutes : VenueRow → Option ℕ → ℕ
resolve_duration_minutes venue requested =
    if ltb 0 (or_else requested 0)
    then or_else requested 0
    else if ltb 0 venue.default_duration_min
    then venue.default_duration_min
    else 120

unfoldable pub build_slot : Calendar → VenueRow → Option String → Option String → Result Slot
build_slot calendar venue date time = do
  require (truthy date) (bad_request "date is required")
  require (truthy time) (bad_request "time is required")
  normalized ← or_throw (normalize_time_to_24h time) (bad_request "Invalid time format")
  utc ←
      or_throw (to_utc_instant calendar venue.timezone (or_else date "") normalized)
        (bad_request "Invalid date/time")
  ok (record { date = or_else date ""; time = normalized; utc = utc })

unfoldable pub assert_table_in_venue : Store → String → String → Result (Unit {0})
assert_table_in_venue s venue_id table_id =
    require (any (λ row. row.id == table_id && row.venue_id == venue_id) s.tables)
      (bad_request "Table does not belong to venue")

-- `if (tableId) await this.assertTableInVenue(…)`
abbrev pub assert_given_table : Store → String → Option String → Result (Unit {0})
assert_given_table s venue_id none = ok tt
assert_given_table s venue_id (some t) = assert_table_in_venue s venue_id t

unfoldable pub assert_slot_is_free : Store → SlotConflictCheckInput → Result (Unit {0})
assert_slot_is_free s p =
    let conflicts = find_slot_conflicts s p in
    require (not (has_slot_conflicts conflicts)) (slot_conflict conflicts)

-- The index `uniq_reservation_venue_table_slot`, in which two missing tables are not equal; it
-- does not look at the status.
unfoldable pub is_same_place : ReservationRow → ReservationRow → Bool
is_same_place a b =
    is_some a.table_id
    && a.venue_id == b.venue_id
    && a.table_id == b.table_id
    && a.slot_local_date == b.slot_local_date
    && a.slot_local_time == b.slot_local_time

-- Two rows that no index allows together.
unfoldable pub violates_index : ReservationRow → ReservationRow → Bool
unfolding is_same_place
violates_index a b = a.id == b.id || a.code == b.code || is_same_place a b

-- `[tableId]`, or no table.
abbrev pub table_list : Option String → List String
table_list none = []
table_list (some t) = if is_empty t then [] else t ∷ []

-- The parts of a new row that the two ways of creation find differently.
pub record NewReservation : Type 0 where
  pub venue : VenueRow
  pub table_id : Option String
  pub party_size : ℕ
  pub slot : Slot
  pub duration_minutes : ℕ
  pub default_channel : String
  pub exclude_hold_id : Option String

abbrev pub creation_check : Context → NewReservation → SlotConflictCheckInput
creation_check ctx n = record {
  venue_id = n.venue.id;
  table_id = n.table_id;
  table_ids = none;
  slot_local_date = n.slot.date;
  slot_local_time = n.slot.time;
  slot_start_utc = n.slot.utc;
  duration_minutes = n.duration_minutes;
  exclude_reservation_id = none;
  exclude_hold_id = n.exclude_hold_id;
  now = ctx.now;
}

unfoldable pub new_reservation : Context → CreateReservationDto → NewReservation → ReservationRow
unfolding sync_assignments
new_reservation ctx dto n = record {
  id = ctx.new_id;
  venue_id = n.venue.id;
  table_id = n.table_id;
  code = ctx.new_code;
  status = normalize_status dto.status ReservationStatus.confirmed;
  guest_name = trimmed_or dto.guest_name "Walk-in";
  guest_phone = non_blank dto.guest_phone;
  guest_email = non_blank dto.guest_email;
  party_size = n.party_size;
  slot_local_date = n.slot.date;
  slot_local_time = n.slot.time;
  slot_start_utc = n.slot.utc;
  duration_minutes = n.duration_minutes;
  notes = non_blank dto.notes;
  channel = some (trimmed_or dto.channel n.default_channel);
  created_by = some (trimmed_or dto.created_by "system");
  tables = sync_assignments [] (table_list n.table_id);
}

-- The statements that the two transactions share: the table's check, the slot's, and the insertion
-- under the database's unique indexes, whose violation answers the conflicts that `found` names.
unfoldable pub insert_reservation :
    Context
    → Store
    → CreateReservationDto
    → NewReservation
    → SlotConflictCheckInput
    → Result (ReservationRow × Store)
insert_reservation ctx s dto n found = do
  assert_given_table s n.venue.id n.table_id
  assert_slot_is_free s (creation_check ctx n)
  let row = new_reservation ctx dto n
  require (not (any (violates_index row) s.reservations))
      (slot_conflict (find_slot_conflicts s found))
  ok (row, record s { reservations = row ∷ s.reservations })

-- `create` of a request that names no hold.
unfoldable pub create_directly :
    Context → Store → CreateReservationDto → Result (ReservationRow × Store)
create_directly ctx s dto = do
  venue ← ensure_venue ctx dto.venue_id
  party_size ← normalize_party_size dto.party_size
  slot ← build_slot ctx.calendar venue dto.date dto.time
  let n : NewReservation = record {
    venue = venue;
    table_id = non_blank dto.table_id;
    party_size = party_size;
    slot = slot;
    duration_minutes = resolve_duration_minutes venue dto.duration_minutes;
    default_channel = "staff-console";
    exclude_hold_id = none;
  }
  insert_reservation ctx s dto n (creation_check ctx n)

-- `if (dto.time) { … }`
abbrev pub check_hold_time : Option String → String → Result (Unit {0})
check_hold_time time slot_local_time =
    if truthy time
    then (do
      normalized ← or_throw (normalize_time_to_24h time) (bad_request "Invalid time format")
      require (normalized == slot_local_time) (bad_request "Hold time mismatch"))
    else ok tt

-- The tests of the hold, in the code's order. The exception undoes the update that marks an
-- expired hold, since both stand in one transaction.
unfoldable pub check_hold : ℕ → CreateReservationDto → VenueRow → HoldRow → Result (Unit {0})
check_hold now dto venue hold = do
  require (hold.venue_id == venue.id) (bad_request "Hold belongs to a different venue")
  require (hold.status == HoldStatus.held) (bad_request "Hold already consumed or expired")
  require (ltb now hold.expires_at) (bad_request "Hold expired")
  require (not (truthy dto.date) || dto.date == some hold.slot_local_date)
      (bad_request "Hold date mismatch")
  check_hold_time dto.time hold.slot_local_time

-- `overrideTableId || hold.tableId`, where that is not empty.
unfoldable pub hold_table : Option String → Option String → Option String
hold_table requested held = elim (non_blank requested) [
  | some t ↦ some t
  | none ↦ if truthy held then held else none
]

-- `dto.tableId ?? hold.tableId ?? null`
abbrev pub reported_table : Option String → Option String → Option String
reported_table none held = held
reported_table (some t) held = some t

abbrev pub hold_reservation : VenueRow → CreateReservationDto → HoldRow → String → NewReservation
hold_reservation venue dto hold table_id = record {
  venue = venue;
  table_id = some table_id;
  party_size = hold.party_size;
  slot = record {
    date = hold.slot_local_date;
    time = hold.slot_local_time;
    utc = hold.slot_start_utc;
  };
  duration_minutes = resolve_duration_minutes venue dto.duration_minutes;
  default_channel = "hold-convert";
  exclude_hold_id = some hold.id;
}

abbrev pub mark_consumed : HoldRow → ReservationRow × Store → ReservationRow × Store
mark_consumed hold (row, s) =
    (row, record s { holds = update_hold hold.id (consume_row row.id) s.holds })

-- The transaction's statements after its tests.
unfoldable pub convert_hold :
    Context
    → Store
    → CreateReservationDto
    → VenueRow
    → HoldRow
    → String
    → Result (ReservationRow × Store)
convert_hold ctx s dto venue hold table_id = do
  let n = hold_reservation venue dto hold table_id
  made ←
      insert_reservation ctx s dto n
        (record (creation_check ctx n) { table_id = reported_table dto.table_id hold.table_id })
  ok (mark_consumed hold made)

unfoldable pub create_from_hold :
    Context → Store → String → CreateReservationDto → Result (ReservationRow × Store)
create_from_hold ctx s hold_id dto = do
  hold ← or_throw (find_hold s hold_id) (not_found "Hold not found")
  require (not (is_some (non_blank dto.venue_id)) || non_blank dto.venue_id == some hold.venue_id)
      (bad_request "Hold belongs to a different venue")
  venue ← ensure_venue ctx (some hold.venue_id)
  check_hold ctx.now dto venue hold
  table_id ←
      or_throw (hold_table dto.table_id hold.table_id)
        (bad_request "Hold does not specify a table; provide tableId to convert")
  convert_hold ctx s dto venue hold table_id

unfoldable pub create : Context → Store → CreateReservationDto → Result (ReservationRow × Store)
create ctx s dto = elim (non_blank dto.hold_id) [
  | some hold_id ↦ create_from_hold ctx s hold_id dto
  | none ↦ create_directly ctx s dto
]
