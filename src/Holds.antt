-- ===== src/Holds.antt =====
-- apps/api/src/holds.service.ts. A call gets the venue that its id finds, the time, the database
-- and the id that a new row will have; the advisory lock makes the transactions of one slot run one
-- after another, and the cache is not part of the model.
pub mod Laws
pub mod Insertion
pub mod Lifecycle
pub mod Cleanup
use Prim.Native.String.{compare}
use text.Mathlib.Text.{is_le}
use restaurant_reservation_s.Prelude.{
  ℕ, ◌+◌, ◌*◌, min, max, Bool, true, false, ◌&&◌, ◌||◌, not, Option, none, some, List, [], ◌∷◌, map,
  String, filter, any, find, is_empty, truthy, is_some, ltb, leb, ◌==◌, ◌!=◌, nat_eq, string_eq,
  option_eq, if◌then◌else◌, sort, trim, or_else,
}
use restaurant_reservation_s.Booking.Types.{
  HoldStatus, hold_status_eq, VenueRow, TableRow, HoldRow, Store,
}
use restaurant_reservation_s.Booking.SlotTime.{Calendar, normalize_time_to_24h, to_utc_instant}
use restaurant_reservation_s.Booking.Conflicts.{
  SlotConflictCheckInput, find_slot_conflicts, has_slot_conflicts, none_left,
}
use restaurant_reservation_s.Booking.Results.{
  Error, Result, ok, err, ◌>>=◌, ◌>>◌, require, or_throw, bad_request, not_found, conflict,
  internal, slot_conflict,
}

pub record HoldInput : Type 0 where
  pub date : String
  pub time : String
  pub party_size : ℕ
  pub table_id : Option String
  pub ttl_sec : Option ℕ
  pub created_by : Option String

-- `clampTtlSeconds`; a missing `ttl` is not a finite number.
unfoldable pub clamp_ttl_seconds : Option ℕ → ℕ → ℕ
clamp_ttl_seconds none fallback = fallback
clamp_ttl_seconds (some ttl) fallback = max 60 (min 3600 ttl)

unfoldable pub fallback_ttl_seconds : VenueRow → ℕ
fallback_ttl_seconds venue = if ltb 0 venue.hold_ttl_min then venue.hold_ttl_min * 60 else 600

unfoldable pub resolve_duration_minutes : VenueRow → ℕ
resolve_duration_minutes venue =
    if ltb 0 venue.default_duration_min then venue.default_duration_min else 120

-- The index `uniq_hold_venue_table_slot`, in which two missing tables are not equal.
unfoldable pub is_same_place : HoldRow → HoldRow → Bool
is_same_place a b =
    is_some a.table_id
    && a.venue_id == b.venue_id
    && a.table_id == b.table_id
    && a.slot_local_date == b.slot_local_date
    && a.slot_local_time == b.slot_local_time

unfoldable pub assert_table_in_venue : Store → String → Option String → Result (Unit {0})
assert_table_in_venue s venue_id none = ok tt
assert_table_in_venue s venue_id (some t) =
    require (is_empty t || any (λ row. row.id == t && row.venue_id == venue_id) s.tables)
      (conflict "Table does not belong to venue")

-- `if (tableId) data.table = …`
abbrev pub connected : Option String → Option String
connected none = none
connected (some t) = if is_empty t then none else some t

-- `value?.trim() || fallback`
abbrev pub trimmed_or : Option String → String → String
trimmed_or none fallback = fallback
trimmed_or (some s) fallback = if is_empty (trim s) then fallback else trim s

abbrev pub check_input : VenueRow → HoldInput → String → ℕ → ℕ → SlotConflictCheckInput
check_input venue input time utc now = record {
  venue_id = venue.id;
  table_id = input.table_id;
  table_ids = none;
  slot_local_date = input.date;
  slot_local_time = time;
  slot_start_utc = utc;
  duration_minutes = resolve_duration_minutes venue;
  exclude_reservation_id = none;
  exclude_hold_id = none;
  now = now;
}

unfoldable pub new_hold : VenueRow → HoldInput → String → ℕ → ℕ → String → HoldRow
new_hold venue input time utc now id = record {
  id = id;
  venue_id = venue.id;
  table_id = connected input.table_id;
  reservation_id = none;
  status = HoldStatus.held;
  party_size = input.party_size;
  slot_local_date = input.date;
  slot_local_time = time;
  slot_start_utc = utc;
  expires_at = now + clamp_ttl_seconds input.ttl_sec (fallback_ttl_seconds venue) * 1000;
  created_by = some (trimmed_or input.created_by "staff");
}

-- The transaction of `create`, and its handler of a violated index.
unfoldable pub insert_hold :
    Store → VenueRow → HoldInput → String → ℕ → ℕ → String → Result (HoldRow × Store)
unfolding new_hold
insert_hold s venue input time utc now id = do
  assert_table_in_venue s venue.id input.table_id
  let p = check_input venue input time utc now
  let conflicts = find_slot_conflicts s p
  let row = new_hold venue input time utc now id
  require (not (has_slot_conflicts conflicts)) (slot_conflict conflicts)
  require (not (any (is_same_place row) s.holds)) (slot_conflict conflicts)
  ok (row, record s { holds = row ∷ s.holds })

unfoldable pub create :
    Calendar → Store → Option VenueRow → HoldInput → ℕ → String → Result (HoldRow × Store)
create calendar s found input now id = do
  venue ← or_throw found (not_found "Venue not found")
  time ← or_throw (normalize_time_to_24h (some input.time)) (conflict "Invalid time format")
  require (not (is_empty input.date)) (conflict "date is required")
  require (ltb 0 input.party_size) (conflict "Invalid party size")
  utc ← or_throw (to_utc_instant calendar venue.timezone input.date time) (internal "Invalid slot")
  insert_hold s venue input time utc now id

-- `hold.update({ where: { id }, data })`
abbrev pub update_hold : String → (HoldRow → HoldRow) → List HoldRow → List HoldRow
update_hold id f = map (λ h. if h.id == id then f h else h)

abbrev pub find_hold : Store → String → Option HoldRow
find_hold s id = find (λ h. h.id == id) s.holds

abbrev pub expire : HoldRow → HoldRow
expire h = record h { status = HoldStatus.expired }

abbrev pub expire_hold : Store → HoldRow → Store
expire_hold s h = record s { holds = update_hold h.id expire s.holds }

unfoldable pub get_valid : Store → ℕ → String → Option HoldRow × Store
get_valid s now id = elim (find_hold s id) [
  | none ↦ (none, s)
  | some h ↦
      if h.status != HoldStatus.held
      then (none, s)
      else if leb h.expires_at now
      then (none, expire_hold s h)
      else (some h, s)
]

abbrev pub consume_row : String → HoldRow → HoldRow
consume_row reservation_id h = record h {
  status = HoldStatus.consumed;
  reservation_id = some reservation_id;
}

-- The update that consumes the hold: it throws where the reservation is not there, or where another
-- hold has it, since `reservationId` is unique.
unfoldable pub connect_reservation : Store → HoldRow → String → Result (HoldRow × Store)
connect_reservation s h reservation_id = do
  require (any (λ r. r.id == reservation_id) s.reservations)
      (internal "Record to connect not found")
  require (not (any (λ o. o.id != h.id && o.reservation_id == some reservation_id) s.holds))
      (internal "Unique constraint failed")
  ok (
    consume_row reservation_id h,
    record s { holds = update_hold h.id (consume_row reservation_id) s.holds },
  )

-- `consume` of a hold that it has found.
unfoldable pub consume_found : Store → ℕ → HoldRow → String → Result (HoldRow × Store)
unfolding connect_reservation
consume_found s now h reservation_id =
    if h.status != HoldStatus.held
    then ok (h, s)
    else if leb h.expires_at now
    then ok (expire h, expire_hold s h)
    else connect_reservation s h reservation_id

unfoldable pub consume : Store → ℕ → String → String → Result (HoldRow × Store)
unfolding consume_found
consume s now id reservation_id = do
  h ← or_throw (find_hold s id) (not_found "Hold not found")
  consume_found s now h reservation_id

unfoldable pub cancel : Store → String → Result (HoldRow × Store)
cancel s id = do
  h ← or_throw (find_hold s id) (not_found "Hold not found")
  ok (if h.status != HoldStatus.held then (h, s) else (expire h, expire_hold s h))

abbrev pub is_overdue : String → ℕ → HoldRow → Bool
is_overdue venue_id now h =
    h.venue_id == venue_id && h.status == HoldStatus.held && leb h.expires_at now

abbrev pub is_listed : String → Option String → ℕ → HoldRow → Bool
is_listed venue_id date now h =
    h.venue_id == venue_id
    && h.status == HoldStatus.held
    && ltb now h.expires_at
    && (not (truthy date) || some h.slot_local_date == date)

-- `orderBy` the slot's date, then its time.
abbrev pub by_slot : HoldRow → HoldRow → Bool
by_slot a b =
    if a.slot_local_date == b.slot_local_date
    then is_le (compare a.slot_local_time b.slot_local_time)
    else is_le (compare a.slot_local_date b.slot_local_date)

unfoldable pub list : Store → ℕ → String → Option String → List HoldRow × Store
list s now venue_id date =
    let swept = map (λ h. if is_overdue venue_id now h then expire h else h) s.holds in
    (sort by_slot (filter (is_listed venue_id date now) swept), record s { holds = swept })
