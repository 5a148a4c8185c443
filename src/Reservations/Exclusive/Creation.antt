-- ===== src/Reservations/Exclusive/Creation.antt =====
-- Creation and double booking.
use restaurant_reservation_s.Prelude.{
  ◌≡◌, ◌≢◌, refl, sym, ap, ◌∙◌, subst, inl, inr, false, not, Option, none, some, List, [], ◌∷◌,
  String, any, is_empty, ◌==◌, nat_eq, string_eq, option_eq, arith, In, of_In-map, of_any-false,
  any-false, Bool-cases,
}
use restaurant_reservation_s.Booking.Types.{hold_status_eq, ReservationRow, Store}
use restaurant_reservation_s.Booking.Conflicts.{
  SlotConflictCheckInput, find_slot_conflicts, has_slot_conflicts,
}
use restaurant_reservation_s.Booking.Conflicts.Laws.{IsFreeSlot, has_slot_conflicts_iff}
use restaurant_reservation_s.Booking.Results.{ok, require, >>=-eq-ok, require-eq-ok}
use restaurant_reservation_s.Reservations.Tables.Laws.{sync_assignments_iff}
use restaurant_reservation_s.Reservations.Create.{
  Context, CreateReservationDto, NewReservation, ensure_venue, build_slot, normalize_party_size,
  assert_given_table, assert_slot_is_free, violates_index, table_list, creation_check,
  new_reservation, insert_reservation, create_directly,
}
use restaurant_reservation_s.Reservations.Exclusive.{
  DoubleBooked, DoubleBooked-comm, IsSingle, ids, IsSound, IsChecked, checked-exclusive,
}

-- A table's assignments after a call for at most one table.
pub table_list-single : (o : Option String) (t : String) → In t (table_list o) → o ≡ some t
table_list-single none t i = elim i [ ]
table_list-single (some u) t i = elim (Bool-cases (is_empty u)) [
  | inl e ↦ elim (rw e at i) [ ]
  | inr e ↦ ap some (sym (only (rw e at i)))
]
  where
    only : In t (u ∷ []) → t ≡ u
    only (inl e) = e
    only (inr j) = elim j [ ]

-- What an insertion that succeeds has found and done.
pub record Inserted (ctx : Context) (s : Store) (dto : CreateReservationDto) (n : NewReservation)
    (row : ReservationRow) (s' : Store) : Type 0 where
  pub row_is : row ≡ new_reservation ctx dto n
  pub added : s' ≡ record s { reservations = row ∷ s.reservations }
  pub was_free : IsFreeSlot s (creation_check ctx n)
  pub no_index : (o : ReservationRow) → In o s.reservations → violates_index row o ≡ false

pub free_of-assert_slot_is_free :
    (s : Store) (p : SlotConflictCheckInput) {u : Unit {0}}
    → assert_slot_is_free s p ≡ ok u
    → IsFreeSlot s p
unfolding assert_slot_is_free
free_of-assert_slot_is_free s p h =
    let q = require-eq-ok (not (has_slot_conflicts (find_slot_conflicts s p))) _ h in
    (has_slot_conflicts_iff s p).0 (ground arith)

pub insert_reservation-Inserted :
    (ctx : Context) (s : Store) (dto : CreateReservationDto) (n : NewReservation)
    (found : SlotConflictCheckInput) {row : ReservationRow} {s' : Store}
    → insert_reservation ctx s dto n found ≡ ok (row, s')
    → Inserted ctx s dto n row s'
unfolding insert_reservation
insert_reservation-Inserted ctx s dto n found {row} {s'} h =
    let a = >>=-eq-ok (assert_given_table s n.venue.id n.table_id) _ h in
    let b = >>=-eq-ok (assert_slot_is_free s (creation_check ctx n)) _ a.2 in
    let c =
      >>=-eq-ok (require (not (any (violates_index (new_reservation ctx dto n)) s.reservations)) _)
        _ b.2 in
    let first = require-eq-ok _ _ c.1 in
    let same : row ≡ new_reservation ctx dto n = ground (arith, c.2) in
    record {
      row_is = same;
      added = ground (arith, c.2);
      was_free = free_of-assert_slot_is_free s (creation_check ctx n) b.1;
      no_index = λ o i.
          of_any-false (violates_index row) o s.reservations (rw same (ground (arith, first))) i;
    }

new_reservation-IsSingle :
    (ctx : Context) (dto : CreateReservationDto) (n : NewReservation)
    → IsSingle (new_reservation ctx dto n)
unfolding new_reservation
new_reservation-IsSingle ctx dto n t i =
    table_list-single n.table_id t ((sync_assignments_iff [] (table_list n.table_id) t).0 i).0

new_reservation-IsChecked :
    (ctx : Context) (dto : CreateReservationDto) (n : NewReservation)
    → IsChecked (creation_check ctx n) (new_reservation ctx dto n)
unfolding new_reservation
new_reservation-IsChecked ctx dto n = record {
  venue = refl;
  date = refl;
  time = refl;
  start = refl;
  duration = omega arith;
  table = refl;
  column_only = refl;
}

-- A new row at the head, apart from all others by its id and never double booked with them.
cons-IsSound :
    (row : ReservationRow) (rows : List ReservationRow)
    → ((o : ReservationRow) → In o rows → (row.id == o.id) ≡ false)
    → ((o : ReservationRow) → In o rows → ¬ DoubleBooked row o)
    → IsSingle row
    → IsSound rows
    → IsSound (row ∷ rows)
cons-IsSound row rows fresh apart single sound = record {
  once = (any-false (λ i. row.id == i) (ids rows) (λ i m. new_id i m), sound.once);
  exclusive = λ a b i j n d. pairs a b i j n d;
  single = λ r i. each r i;
}
  where
    new_id : (i : String) → In i (ids rows) → (row.id == i) ≡ false
    new_id i m =
        let w = of_In-map (λ (r : ReservationRow). r.id) i rows m in
        ap (λ j. row.id == j) w.2 ∙ fresh w.0 w.1

    pairs :
        (a b : ReservationRow)
        → In a (row ∷ rows)
        → In b (row ∷ rows)
        → a.id ≢ b.id
        → ¬ DoubleBooked a b
    pairs a b (inl e) (inl f) n d = n (ap (λ (r : ReservationRow). r.id) (e ∙ sym f))
    pairs a b (inl e) (inr j) n d = apart b j (subst (λ r. DoubleBooked r b) e d)
    pairs a b (inr i) (inl f) n d =
        apart a i (DoubleBooked-comm (subst (λ r. DoubleBooked a r) f d))
    pairs a b (inr i) (inr j) n d = sound.exclusive a b i j n d

    each : (r : ReservationRow) → In r (row ∷ rows) → IsSingle r
    each r (inl e) = subst IsSingle (sym e) single
    each r (inr i) = sound.single r i

-- Inserting a reservation keeps the table sound: the slot check rules out a double booking.
pub Inserted-IsSound :
    {ctx : Context} {s : Store} {dto : CreateReservationDto} {n : NewReservation}
    {row : ReservationRow} {s' : Store}
    → Inserted ctx s dto n row s'
    → IsSound s.reservations
    → IsSound s'.reservations
unfolding violates_index
Inserted-IsSound {ctx} {s} {dto} {n} {row} {s'} made sound =
    let p = creation_check ctx n in
    let single : IsSingle row =
      subst IsSingle (sym made.row_is) (new_reservation-IsSingle ctx dto n) in
    let checked : IsChecked p row =
      subst (IsChecked p) (sym made.row_is) (new_reservation-IsChecked ctx dto n) in
    rw made.added (
      cons-IsSound row s.reservations (λ o i. ground (arith, made.no_index o i))
        (λ o i. checked-exclusive p row o single checked refl (made.was_free.0 o i)) single sound)

pub create_directly-IsSound :
    (ctx : Context) (s : Store) (dto : CreateReservationDto) {row : ReservationRow} {s' : Store}
    → create_directly ctx s dto ≡ ok (row, s')
    → IsSound s.reservations
    → IsSound s'.reservations
unfolding create_directly
create_directly-IsSound ctx s dto h sound =
    let a = >>=-eq-ok (ensure_venue ctx dto.venue_id) _ h in
    let b = >>=-eq-ok (normalize_party_size dto.party_size) _ a.2 in
    let c = >>=-eq-ok (build_slot ctx.calendar a.0 dto.date dto.time) _ b.2 in
    Inserted-IsSound (insert_reservation-Inserted ctx s dto _ _ c.2) sound
