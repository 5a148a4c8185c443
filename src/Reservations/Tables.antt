-- ===== src/Reservations/Tables.antt =====
-- apps/api/src/utils/sync-table-assignments.ts: the rows of a reservation's table assignments after
-- the call. `tx` is the list of the rows of that reservation.
pub mod Laws
use restaurant_reservation_s.Prelude.{
  ℕ, suc, ◌+◌, ◌≡◌, refl, ap, ◌∙◌, Bool, true, false, not, Option, none, some, List, [], ◌∷◌, ◌++◌,
  map, String, filter, any, contains, set_from, is_empty, trim, ◌==◌, string_eq, if◌then◌else◌,
  arith,
}
use restaurant_reservation_s.Booking.Types.{Assignment}

abbrev pub is_named : String → Bool
is_named t = not (is_empty (trim t))

-- `normalizeTableIds`
unfoldable pub normalize_table_ids : List String → List String
normalize_table_ids input = set_from [] (filter is_named input)

abbrev pub upsert : String → ℕ → List Assignment → List Assignment
upsert t index [] = record { table_id = t; assigned_order = index } ∷ []
upsert t index (a ∷ rows) =
    let rest = upsert t index rows in
    if a.table_id == t then record { table_id = t; assigned_order = index } ∷ rows else a ∷ rest

-- The loop of the upserts, from an index on.
abbrev pub upsert_all : List String → ℕ → List Assignment → List Assignment
upsert_all [] index rows = rows
upsert_all (t ∷ ts) index rows = upsert_all ts (suc index) (upsert t index rows)

-- `syncReservationTableAssignments`
unfoldable pub sync_assignments : List Assignment → List String → List Assignment
unfolding normalize_table_ids
sync_assignments existing table_ids =
    let normalized = normalize_table_ids table_ids in
    upsert_all normalized 0 (filter (λ a. contains normalized a.table_id) existing)
