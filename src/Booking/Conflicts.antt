-- ===== src/Booking/Conflicts.antt =====
-- apps/api/src/utils/booking-conflicts.ts. A `where` object is the test that it states of a row.
pub mod Laws
pub mod Gaps
use restaurant_reservation_s.Prelude.{
  ℕ, ◌+◌, ◌*◌, Bool, true, false, ◌&&◌, ◌||◌, not, Option, none, some, List, [], ◌∷◌, ◌++◌, map,
  String, filter, any, contains, set_from, truthy, is_empty, or_else, ltb, ◌==◌, ◌!=◌, nat_eq,
  string_eq, option_eq, if◌then◌else◌, length, is_some,
}
use restaurant_reservation_s.Booking.Types.{
  ReservationStatus, HoldStatus, reservation_status_eq, hold_status_eq, Assignment, ReservationRow,
  HoldRow, Store,
}

abbrev pub slot_minute_ms : ℕ
slot_minute_ms = 60_000

abbrev pub blocking_reservation_statuses : List ReservationStatus
blocking_reservation_statuses =
    ReservationStatus.pending ∷ ReservationStatus.confirmed ∷ ReservationStatus.seated ∷ []

-- `SlotConflictCheckInput`; `now` is its `now`, or what `new Date()` answers.
pub record SlotConflictCheckInput : Type 0 where
  pub venue_id : String
  pub table_id : Option String
  pub table_ids : Option (List String)
  pub slot_local_date : String
  pub slot_local_time : String
  pub slot_start_utc : ℕ
  pub duration_minutes : ℕ
  pub exclude_reservation_id : Option String
  pub exclude_hold_id : Option String
  pub now : ℕ

pub record ConflictReservation : Type 0 where
  pub id : String
  pub code : String
  pub status : ReservationStatus
  pub table_id : Option String
  pub table_ids : List String
  pub slot_local_date : String
  pub slot_local_time : String
  pub slot_start_utc : ℕ
  pub duration_minutes : ℕ

pub record ConflictHold : Type 0 where
  pub id : String
  pub table_id : Option String
  pub status : HoldStatus
  pub slot_local_date : String
  pub slot_local_time : String
  pub slot_start_utc : ℕ
  pub expires_at : ℕ

pub record SlotConflicts : Type 0 where
  pub reservations : List ConflictReservation
  pub holds : List ConflictHold

-- `xs.size === 0`
abbrev pub none_left {ℓ} : {A : Type ℓ} → List A → Bool
none_left [] = true
none_left (x ∷ xs) = false

abbrev pub is_requested : List String → Option String → Bool
is_requested requested none = false
is_requested requested (some t) = contains requested t

unfoldable pub table_matches : List String → List (Option String) → Bool
table_matches requested existing =
    if none_left requested
    then true
    else if none_left existing
    then true
    else if any (λ v. not (is_some v)) existing
    then true
    else any (is_requested requested) existing

abbrev pub one_table : Option String → List String
one_table none = []
one_table (some t) = if is_empty t then [] else t ∷ []

unfoldable pub requested_tables : SlotConflictCheckInput → List String
requested_tables p =
    set_from [] (filter (λ t. not (is_empty t)) (or_else p.table_ids (one_table p.table_id)))

-- `id: { not: excluded }`, where one is given.
abbrev pub is_kept : Option String → String → Bool
is_kept excluded id = not (truthy excluded && option_is excluded id)
  where
    option_is : Option String → String → Bool
    option_is none i = false
    option_is (some e) i = i == e

abbrev pub assigned : ReservationRow → List String
assigned r = map (λ a. a.table_id) r.tables

-- The `OR` of `reservationWhere`.
unfoldable pub reservation_or : List String → ReservationRow → Bool
reservation_or requested r =
    none_left requested
    || is_requested requested r.table_id
    || any (contains requested) (assigned r)
    || not (is_some r.table_id)

unfoldable pub reservation_where : SlotConflictCheckInput → ReservationRow → Bool
reservation_where p r =
    r.venue_id == p.venue_id
    && contains blocking_reservation_statuses r.status
    && r.slot_local_date == p.slot_local_date
    && r.slot_local_time == p.slot_local_time
    && is_kept p.exclude_reservation_id r.id

unfoldable pub hold_where : SlotConflictCheckInput → HoldRow → Bool
hold_where p h =
    h.venue_id == p.venue_id
    && h.status == HoldStatus.held
    && h.slot_local_date == p.slot_local_date
    && h.slot_local_time == p.slot_local_time
    && ltb p.now h.expires_at
    && is_kept p.exclude_hold_id h.id

-- The `OR` of `holdWhere`.
unfoldable pub hold_or : List String → HoldRow → Bool
hold_or requested h =
    none_left requested || is_requested requested h.table_id || not (is_some h.table_id)

abbrev pub target_end : SlotConflictCheckInput → ℕ
target_end p = p.slot_start_utc + p.duration_minutes * slot_minute_ms

-- `Number(n) || fallback`
abbrev pub or_number : ℕ → ℕ → ℕ
or_number n fallback = if n == 0 then fallback else n

unfoldable pub reservation_conflicts : SlotConflictCheckInput → ReservationRow → Bool
unfolding table_matches requested_tables
reservation_conflicts p r =
    table_matches (requested_tables p) (r.table_id ∷ map some (assigned r))
    && ltb r.slot_start_utc (target_end p)
    && ltb p.slot_start_utc
        (r.slot_start_utc + or_number r.duration_minutes p.duration_minutes * slot_minute_ms)

unfoldable pub hold_conflicts : SlotConflictCheckInput → HoldRow → Bool
unfolding table_matches requested_tables
hold_conflicts p h =
    table_matches (requested_tables p) (h.table_id ∷ [])
    && ltb h.slot_start_utc (target_end p)
    && ltb p.slot_start_utc h.expires_at

abbrev pub texts_of : List (Option String) → List String
texts_of [] = []
texts_of (none ∷ xs) = texts_of xs
texts_of (some t ∷ xs) = if is_empty t then texts_of xs else t ∷ texts_of xs

unfoldable pub to_conflict_reservation : ReservationRow → ConflictReservation
to_conflict_reservation r = record {
  id = r.id;
  code = r.code;
  status = r.status;
  table_id = r.table_id;
  table_ids = set_from [] (texts_of (r.table_id ∷ map some (assigned r)));
  slot_local_date = r.slot_local_date;
  slot_local_time = r.slot_local_time;
  slot_start_utc = r.slot_start_utc;
  duration_minutes = r.duration_minutes;
}

unfoldable pub to_conflict_hold : HoldRow → ConflictHold
to_conflict_hold h = record {
  id = h.id;
  table_id = h.table_id;
  status = h.status;
  slot_local_date = h.slot_local_date;
  slot_local_time = h.slot_local_time;
  slot_start_utc = h.slot_start_utc;
  expires_at = h.expires_at;
}

-- The two queries, each followed by the filter of the code.
unfoldable pub find_slot_conflicts : Store → SlotConflictCheckInput → SlotConflicts
find_slot_conflicts s p =
    let requested = requested_tables p in
    record {
      reservations = map to_conflict_reservation (
          filter (reservation_conflicts p)
            (filter (λ r. reservation_where p r && reservation_or requested r) s.reservations));
      holds =
          map to_conflict_hold (
            filter (hold_conflicts p)
              (filter (λ h. hold_where p h && hold_or requested h) s.holds));
    }

unfoldable pub has_slot_conflicts : SlotConflicts → Bool
has_slot_conflicts c = ltb 0 (length c.reservations) || ltb 0 (length c.holds)
