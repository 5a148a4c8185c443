-- ===== src/Seating/Suggest.antt =====
-- `suggest` of apps/api/src/seating.service.ts: the tables of the venue, singly or joined, scored
-- for a reservation.
pub mod Laws
pub mod Seated
pub mod Ranking
use restaurant_reservation_s.Prelude.{
  ℕ, suc, ◌+◌, ◌-◌, ◌*◌, max, Bool, true, false, ◌&&◌, not, Option, none, some, List, [], ◌∷◌, ◌++◌,
  map, String, filter, sum_by, length, take, sort, contains, truthy, is_empty, ltb, leb, ◌==◌, ◌!=◌,
  nat_eq, string_eq, if◌then◌else◌, find,
}
use restaurant_reservation_s.Booking.Types.{reservation_status_eq, TableRow, ReservationRow, Store}
use restaurant_reservation_s.Booking.Conflicts.{
  SlotConflictCheckInput, find_slot_conflicts, has_slot_conflicts, blocking_reservation_statuses,
  assigned,
}
use restaurant_reservation_s.Booking.Results.{Result, ok, ◌>>=◌, or_throw, not_found}
use restaurant_reservation_s.Seating.Combos.{find_minimal_combos}
use restaurant_reservation_s.Seating.Score.{
  Collation, TableEntry, SeatingSuggestion, usage_of, count_rows, build_suggestion, suggestion_le,
  join_ids,
}

pub record AvailableTable : Type 0 where
  pub table : TableRow
  pub available : Bool

abbrev pub assigned_all : List ReservationRow → List String
assigned_all [] = []
assigned_all (r ∷ rs) = assigned r ++ assigned_all rs

unfoldable pub count_table_usage : Store → ReservationRow → String → List (String × ℕ)
count_table_usage s r exclude = count_rows [] (
    assigned_all (
      filter
        (λ o.
          o.id != exclude
          && o.venue_id == r.venue_id
          && o.slot_local_date == r.slot_local_date
          && contains blocking_reservation_statuses o.status)
        s.reservations))

abbrev pub seating_duration : ReservationRow → ℕ
seating_duration r = if ltb 0 r.duration_minutes then r.duration_minutes else 120

abbrev pub seating_check :
    ℕ → ReservationRow → Option String → Option (List String) → SlotConflictCheckInput
seating_check now r table_id table_ids = record {
  venue_id = r.venue_id;
  table_id = table_id;
  table_ids = table_ids;
  slot_local_date = r.slot_local_date;
  slot_local_time = r.slot_local_time;
  slot_start_utc = r.slot_start_utc;
  duration_minutes = seating_duration r;
  exclude_reservation_id = some r.id;
  exclude_hold_id = none;
  now = now;
}

unfoldable pub is_table_free : ℕ → Store → ReservationRow → TableRow → Bool
is_table_free now s r t =
    not (has_slot_conflicts (find_slot_conflicts s (seating_check now r (some t.id) none)))

-- `computeAvailability` of the service.
unfoldable pub compute_table_availability :
    ℕ → Store → ReservationRow → List TableRow → List AvailableTable
unfolding is_table_free
compute_table_availability now s r tables =
    map (λ t. record { table = t; available = is_table_free now s r t }) tables

abbrev pub table_capacity : TableEntry → ℕ
table_capacity entry = entry.table.capacity

-- A map of lists in the order in which its keys came.
abbrev pub push_group :
    String → TableEntry → List (String × List TableEntry) → List (String × List TableEntry)
push_group key entry [] = (key, entry ∷ []) ∷ []
push_group key entry ((k, list) ∷ groups) =
    let rest = push_group key entry groups in
    if k == key then (k, list ++ entry ∷ []) ∷ groups else (k, list) ∷ rest

-- A table without a group, or with an empty one, is passed over.
abbrev pub push_keyed :
    Option String → TableEntry → List (String × List TableEntry) → List (String × List TableEntry)
push_keyed none entry groups = groups
push_keyed (some key) entry groups = if is_empty key then groups else push_group key entry groups

abbrev pub push_table :
    List (String × ℕ)
    → AvailableTable
    → List (String × List TableEntry)
    → List (String × List TableEntry)
push_table usage a groups =
    if a.available
    then push_keyed a.table.join_group_id
        (record { table = a.table; wear = usage_of usage a.table.id }) groups
    else groups

abbrev pub group_tables :
    List (String × ℕ)
    → List (String × List TableEntry)
    → List AvailableTable
    → List (String × List TableEntry)
group_tables usage groups [] = groups
group_tables usage groups (a ∷ rest) = group_tables usage (push_table usage a groups) rest

unfoldable pub entry_le : Collation → TableEntry → TableEntry → Bool
entry_le order a b =
    if a.table.capacity != b.table.capacity
    then leb a.table.capacity b.table.capacity
    else order.locale_le a.table.label b.table.label

unfoldable pub group_combos : Collation → ℕ → List TableEntry → List (List TableEntry)
unfolding find_minimal_combos
group_combos order party_size tables =
    if ltb (length tables) 2
    then []
    else find_minimal_combos table_capacity (sort (entry_le order) tables) party_size

abbrev pub combos_of_groups :
    Collation → ℕ → List (String × List TableEntry) → List (List TableEntry)
combos_of_groups order party_size [] = []
combos_of_groups order party_size ((key, tables) ∷ groups) =
    group_combos order party_size tables ++ combos_of_groups order party_size groups

unfoldable pub build_join_group_combos :
    Collation → ReservationRow → List AvailableTable → List (String × ℕ) → List SeatingSuggestion
unfolding build_suggestion
build_join_group_combos order r availability usage =
    map (build_suggestion r.party_size usage)
      (combos_of_groups order r.party_size (group_tables usage [] availability))

abbrev pub row_le : Collation → TableRow → TableRow → Bool
row_le order a b =
    if a.capacity != b.capacity then leb a.capacity b.capacity else order.column_le a.label b.label

-- `table.findMany` for a venue, by capacity and label.
unfoldable pub venue_tables : Collation → Store → String → List TableRow
venue_tables order s venue_id = sort (row_le order) (filter (λ t. t.venue_id == venue_id) s.tables)

unfoldable pub single_candidates :
    ℕ → List (String × ℕ) → List AvailableTable → List SeatingSuggestion
unfolding build_suggestion
single_candidates party_size usage availability =
    map
      (λ a.
        build_suggestion party_size usage
          (record { table = a.table; wear = usage_of usage a.table.id } ∷ []))
      (filter (λ a. a.available && leb party_size a.table.capacity) availability)

unfoldable pub candidates : Collation → ℕ → Store → ReservationRow → List SeatingSuggestion
candidates order now s r =
    let usage = count_table_usage s r r.id in
    let availability = compute_table_availability now s r (venue_tables order s r.venue_id) in
    single_candidates r.party_size usage availability
    ++ build_join_group_combos order r availability usage

-- `suggest`: of no tables there are no candidates.
unfoldable pub suggest : Collation → ℕ → Store → String → ℕ → Result (List SeatingSuggestion)
unfolding candidates
suggest order now s reservation_id limit = do
  r ←
      or_throw (find (λ o. o.id == reservation_id) s.reservations)
        (not_found "Reservation not found")
  ok (take (max 1 limit) (sort (suggestion_le order) (candidates order now s r)))
