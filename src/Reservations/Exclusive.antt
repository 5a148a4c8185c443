-- ===== src/Reservations/Exclusive.antt =====
-- No double booking: what it means for the table of reservations, and what a slot that the conflict
-- check finds free gives for a new row.
pub mod Creation
pub mod Conversion
pub mod Change
pub mod Updating
pub mod Closing
pub mod Course
pub mod Once
pub mod Insertion
use restaurant_reservation_s.Prelude.{
  ℕ, ◌+◌, ◌*◌, ◌≤◌, ◌<◌, ◌≡◌, ◌≢◌, refl, sym, ap, ◌∙◌, subst, ◌⊎◌, inl, inr, Bool, true, false,
  Option, none, some, List, [], ◌∷◌, map, String, contains, contains-In, is_empty, trim, ◌==◌,
  string_eq, if◌then◌else◌, arith, In, Bool-cases, Option-cases, IsNodup, or_else, filter, set_from,
}
use restaurant_reservation_s.Booking.Types.{
  ReservationStatus, reservation_status_eq, Assignment, ReservationRow, Store,
}
use restaurant_reservation_s.Booking.Conflicts.{
  blocking_reservation_statuses, SlotConflictCheckInput, assigned, requested_tables, target_end,
  or_number, slot_minute_ms, is_kept,
}
use restaurant_reservation_s.Booking.Conflicts.Laws.{SharesTable, Clashes}
use restaurant_reservation_s.Reservations.Status.Laws.{IsBlocking}

-- A table that a reservation occupies: its column, or one of the assignments.
abbrev pub Uses : ReservationRow → String → Type 0
Uses r t = (r.table_id ≡ some t) ⊎ In t (assigned r)

-- Two reservations that cannot both be honoured: both still count, they are of the same venue and
-- local slot, their times overlap, and they occupy a table in common; one without a table may
-- take any.
pub record DoubleBooked (a b : ReservationRow) : Type 0 where
  pub a_blocks : IsBlocking a.status
  pub b_blocks : IsBlocking b.status
  pub same_venue : a.venue_id ≡ b.venue_id
  pub same_date : a.slot_local_date ≡ b.slot_local_date
  pub same_time : a.slot_local_time ≡ b.slot_local_time
  pub a_before : a.slot_start_utc < b.slot_start_utc + b.duration_minutes * slot_minute_ms
  pub b_before : b.slot_start_utc < a.slot_start_utc + a.duration_minutes * slot_minute_ms
  pub shares : (a.table_id ≡ none) ⊎ (b.table_id ≡ none) ⊎ ((t : String) × Uses a t × Uses b t)

pub DoubleBooked-comm : {a b : ReservationRow} → DoubleBooked a b → DoubleBooked b a
DoubleBooked-comm d = record {
  a_blocks = d.b_blocks;
  b_blocks = d.a_blocks;
  same_venue = sym d.same_venue;
  same_date = sym d.same_date;
  same_time = sym d.same_time;
  a_before = d.b_before;
  b_before = d.a_before;
  shares = elim d.shares [
    | inl e ↦ inr (inl e)
    | inr (inl e) ↦ inl e
    | inr (inr (t, u, v)) ↦ inr (inr (t, v, u))
  ];
}

-- The assignments of a reservation are at most its own table.
abbrev pub IsSingle : ReservationRow → Type 0
IsSingle r = (t : String) → In t (assigned r) → r.table_id ≡ some t

abbrev pub ids : List ReservationRow → List String
ids rows = map (λ r. r.id) rows

-- The invariant of the table of reservations: an id stands once, no two reservations are double
-- booked, and each occupies at most one table.
pub record IsSound (rows : List ReservationRow) : Type 0 where
  pub once : IsNodup (ids rows)
  pub exclusive : (a b : ReservationRow) → In a rows → In b rows → a.id ≢ b.id → ¬ DoubleBooked a b
  pub single : (r : ReservationRow) → In r rows → IsSingle r

-- Without the last part: also of reservations of several tables.
pub record IsExclusive (rows : List ReservationRow) : Type 0 where
  pub once : IsNodup (ids rows)
  pub exclusive : (a b : ReservationRow) → In a rows → In b rows → a.id ≢ b.id → ¬ DoubleBooked a b

-- A row of the venue, the slot and at most the time of a check.
pub record IsPlaced (p : SlotConflictCheckInput) (row : ReservationRow) : Type 0 where
  pub venue : row.venue_id ≡ p.venue_id
  pub date : row.slot_local_date ≡ p.slot_local_date
  pub time : row.slot_local_time ≡ p.slot_local_time
  pub start : row.slot_start_utc ≡ p.slot_start_utc
  pub duration : row.duration_minutes ≤ p.duration_minutes

-- A row that a check covers: the check is of its venue, its slot, its table and at least its time.
pub record IsChecked (p : SlotConflictCheckInput) (row : ReservationRow) : Type 0 where
  pub venue : row.venue_id ≡ p.venue_id
  pub date : row.slot_local_date ≡ p.slot_local_date
  pub time : row.slot_local_time ≡ p.slot_local_time
  pub start : row.slot_start_utc ≡ p.slot_start_utc
  pub duration : row.duration_minutes ≤ p.duration_minutes
  pub table : row.table_id ≡ p.table_id
  pub column_only : p.table_ids ≡ none

requested-Shares :
    (p : SlotConflictCheckInput) (row r : ReservationRow)
    → IsSingle row
    → IsChecked p row
    → DoubleBooked row r
    → SharesTable (requested_tables p) r.table_id (assigned r)
unfolding requested_tables
requested-Shares p row r single c d = elim d.shares [
  | inl e ↦ inl (no_table (sym c.table ∙ e))
  | inr (inl e) ↦ inr (inl e)
  | inr (inr (t, inl u, v)) ↦ with_table t (sym c.table ∙ u) v
  | inr (inr (t, inr u, v)) ↦ with_table t (sym c.table ∙ single t u) v
]
  where
    no_table : p.table_id ≡ none → requested_tables p ≡ []
    no_table e = rw (c.column_only, e) refl

    with_table :
        (t : String)
        → p.table_id ≡ some t
        → Uses r t
        → SharesTable (requested_tables p) r.table_id (assigned r)
    with_table t e v = elim (Bool-cases (is_empty t)) [
      | inl blank ↦ inl (rw (c.column_only, e, blank) refl)
      | inr full ↦
          let q : requested_tables p ≡ t ∷ [] = rw (c.column_only, e, full) (rw full refl) in
          inr (inr (t, rw q (inl refl), v))
    ]

pub or_number-le : (n k : ℕ) → n ≤ or_number n k
or_number-le n k = ground arith

-- A reservation that such a row is double booked with clashes with the check, if the check asks for
-- a table that stands in the way.
pub DoubleBooked-Clashes :
    (p : SlotConflictCheckInput) (row r : ReservationRow)
    → IsPlaced p row
    → SharesTable (requested_tables p) r.table_id (assigned r)
    → is_kept p.exclude_reservation_id r.id ≡ true
    → DoubleBooked row r
    → Clashes p r
DoubleBooked-Clashes p row r c shares kept d = record {
  same_venue = sym d.same_venue ∙ c.venue;
  blocking = (contains-In r.status blocking_reservation_statuses).0 d.b_blocks;
  same_date = sym d.same_date ∙ c.date;
  same_time = sym d.same_time ∙ c.time;
  not_excluded = kept;
  shares = shares;
  starts_before_end =
      before r.slot_start_utc row.slot_start_utc p.slot_start_utc row.duration_minutes
        p.duration_minutes d.b_before c.start c.duration;
  ends_after_start =
      after p.slot_start_utc row.slot_start_utc r.slot_start_utc r.duration_minutes
        (or_number r.duration_minutes p.duration_minutes) d.a_before c.start
        (or_number-le r.duration_minutes p.duration_minutes);
}
  where
    before : (x s s' d d' : ℕ) → x < s + d * 60_000 → s ≡ s' → d ≤ d' → x < s' + d' * 60_000
    before x s s' d d' h e l = omega arith

    after : (s s' x d d' : ℕ) → s' < x + d * 60_000 → s' ≡ s → d ≤ d' → s < x + d' * 60_000
    after s s' x d d' h e l = omega arith

-- A row whose check finds no clash is not double booked with any row that the check looks at.
pub checked-exclusive :
    (p : SlotConflictCheckInput) (row r : ReservationRow)
    → IsSingle row
    → IsChecked p row
    → is_kept p.exclude_reservation_id r.id ≡ true
    → ¬ Clashes p r
    → ¬ DoubleBooked row r
checked-exclusive p row r single c kept free d =
    free (DoubleBooked-Clashes p row r placed (requested-Shares p row r single c d) kept d)
  where
    placed : IsPlaced p row
    placed = record {
      venue = c.venue;
      date = c.date;
      time = c.time;
      start = c.start;
      duration = c.duration;
    }
