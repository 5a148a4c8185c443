-- ===== src/Seating/Assign.antt =====
-- `assignTables` of apps/api/src/seating.service.ts. The advisory locks of its transaction change
-- no row.
pub mod Laws
pub mod Seated
use restaurant_reservation_s.Prelude.{
  ℕ, Bool, ◌&&◌, not, Option, none, some, List, [], ◌∷◌, map, String, filter, any, find, sum_by,
  length, sort, contains, set_from, is_empty, trim, ltb, leb, ◌==◌, ◌!=◌, nat_eq, string_eq,
  option_eq, if◌then◌else◌, truthy,
}
use restaurant_reservation_s.Booking.Types.{TableRow, ReservationRow, Store}
use restaurant_reservation_s.Booking.Conflicts.{find_slot_conflicts, has_slot_conflicts}
use restaurant_reservation_s.Booking.Results.{
  Result, ok, ◌>>=◌, ◌>>◌, require, or_throw, bad_request, not_found, conflict, internal,
}
use restaurant_reservation_s.Reservations.Tables.{sync_assignments}
use restaurant_reservation_s.Reservations.Events.{text_le}
use restaurant_reservation_s.Reservations.Create.{violates_index}
use restaurant_reservation_s.Reservations.Update.{put_row, find_reservation}
use restaurant_reservation_s.Seating.Suggest.{seating_check}

-- `normalizeTableIds` of the service; a value that is null is none of the list.
unfoldable pub normalize_ids : List String → List String
normalize_ids table_ids =
    sort text_le (set_from [] (filter (λ t. not (is_empty t)) (map trim table_ids)))

unfoldable pub tables_named : Store → String → List String → List TableRow
tables_named s venue_id ids = filter (λ t. t.venue_id == venue_id && contains ids t.id) s.tables

-- More than one table: the first must have a join group, and all have the same.
unfoldable pub check_joined : List TableRow → Result (Unit {0})
check_joined [] = ok tt
check_joined (first ∷ rest) = do
  require (truthy first.join_group_id) (bad_request "Selected tables cannot be joined")
  require (not (any (λ t. t.join_group_id != first.join_group_id) (first ∷ rest)))
      (bad_request "Joined tables must share the same joinGroupId")

abbrev pub first_of : List String → Option String
first_of [] = none
first_of (t ∷ ts) = some t

-- The row with the first table as its own and assignments of all.
unfoldable pub assigned_row : ReservationRow → List String → ReservationRow
assigned_row r ids = record r { table_id = first_of ids; tables = sync_assignments r.tables ids }

-- The transaction. An index that the update violates is no exception of the service's own.
unfoldable pub write_tables :
    ℕ → Store → ReservationRow → List String → Result (ReservationRow × Store)
unfolding assigned_row
write_tables now s r ids = do
  require
      (not (
        has_slot_conflicts (find_slot_conflicts s (seating_check now r (first_of ids) (some ids)))))
      (conflict "Requested tables are no longer available")
  let row = assigned_row r ids
  require (not (any (λ o. o.id != r.id && violates_index row o) s.reservations))
      (internal "Unique constraint failed")
  ok (row, record s { reservations = put_row row s.reservations })

unfoldable pub check_tables : ReservationRow → List String → List TableRow → Result (Unit {0})
unfolding check_joined
check_tables r ids tables = do
  require (length tables == length ids) (bad_request "One or more tables do not belong to venue")
  if ltb 1 (length ids) then check_joined tables else ok tt
  require (leb r.party_size (sum_by (λ (t : TableRow). t.capacity) tables))
      (bad_request "Selected tables do not meet party size capacity")

unfoldable pub assign_tables : ℕ → Store → String → List String → Result (ReservationRow × Store)
unfolding normalize_ids tables_named check_tables write_tables
assign_tables now s reservation_id table_ids = do
  let ids = normalize_ids table_ids
  require (ltb 0 (length ids)) (bad_request "tableIds array is required")
  r ← or_throw (find_reservation s reservation_id) (not_found "Reservation not found")
  check_tables r ids (tables_named s r.venue_id ids)
  write_tables now s r ids
