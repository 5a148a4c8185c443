-- ===== src/Reservations/Exclusive/Insertion.antt =====
-- When the insertion of a reservation succeeds.
use restaurant_reservation_s.Prelude.{
  ◌≡◌, ◌≢◌, ◌↔◌, refl, sym, ap, ◌∙◌, inl, inr, Bool, true, false, some, ◌∷◌, String, any-false,
  ◌==◌, string_eq, option_eq, is_some, arith, In, Option-cases, eq_of_==, ==_of_eq,
}
use restaurant_reservation_s.Booking.Types.{ReservationRow, Store}
use restaurant_reservation_s.Booking.Conflicts.{SlotConflictCheckInput}
use restaurant_reservation_s.Booking.Conflicts.Laws.{IsFreeSlot, has_slot_conflicts_iff}
use restaurant_reservation_s.Booking.Results.{ok, >>=-eq-ok}
use restaurant_reservation_s.Reservations.Create.{
  Context, CreateReservationDto, NewReservation, assert_given_table, assert_slot_is_free,
  creation_check, is_same_place, violates_index, new_reservation, insert_reservation,
}
use restaurant_reservation_s.Reservations.Exclusive.Creation.{insert_reservation-Inserted}

-- Two rows for one table and local slot of a venue.
pub record AtSamePlace (a b : ReservationRow) : Type 0 where
  pub table : (t : String) × (a.table_id ≡ some t)
  pub same_venue : a.venue_id ≡ b.venue_id
  pub same_table : a.table_id ≡ b.table_id
  pub same_date : a.slot_local_date ≡ b.slot_local_date
  pub same_time : a.slot_local_time ≡ b.slot_local_time

-- Two rows that the indexes of the table of reservations allow side by side.
pub record AreApart (a b : ReservationRow) : Type 0 where
  pub ids : a.id ≢ b.id
  pub codes : a.code ≢ b.code
  pub places : ¬ AtSamePlace a b

is_same_place_iff : (a b : ReservationRow) → (is_same_place a b ≡ true) ↔ AtSamePlace a b
unfolding is_same_place
is_same_place_iff a b = (there, back)
  where
    there : is_same_place a b ≡ true → AtSamePlace a b
    there h = elim (Option-cases a.table_id) [
      | inl e ↦ absurd (let q = rw e at h in cc)
      | inr (t, e) ↦ record {
        table = (t, e);
        same_venue = eq_of_== a.venue_id b.venue_id (ground arith);
        same_table = eq_of_== a.table_id b.table_id (ground arith);
        same_date = eq_of_== a.slot_local_date b.slot_local_date (ground arith);
        same_time = eq_of_== a.slot_local_time b.slot_local_time (ground arith);
      }
    ]

    back : AtSamePlace a b → is_same_place a b ≡ true
    back w =
        let some_table : is_some a.table_id ≡ true = rw w.table.1 refl in
        let v = ==_of_eq a.venue_id b.venue_id w.same_venue in
        let t = ==_of_eq a.table_id b.table_id w.same_table in
        let d = ==_of_eq a.slot_local_date b.slot_local_date w.same_date in
        let m = ==_of_eq a.slot_local_time b.slot_local_time w.same_time in ground arith

is_off : (b : Bool) → ¬ (b ≡ true) → b ≡ false
is_off true n = absurd (n refl)
is_off false n = refl

violates_index-AreApart : (a b : ReservationRow) → (violates_index a b ≡ false) ↔ AreApart a b
unfolding violates_index
violates_index-AreApart a b = (there, back)
  where
    there : violates_index a b ≡ false → AreApart a b
    there h = record {
      ids = λ e. let q = ==_of_eq a.id b.id e in absurd (ground arith);
      codes = λ e. let q = ==_of_eq a.code b.code e in absurd (ground arith);
      places = λ w. let q = (is_same_place_iff a b).1 w in absurd (ground arith);
    }

    back : AreApart a b → violates_index a b ≡ false
    back w =
        let i = is_off (a.id == b.id) (λ e. w.ids (eq_of_== a.id b.id e)) in
        let c = is_off (a.code == b.code) (λ e. w.codes (eq_of_== a.code b.code e)) in
        let p = is_off (is_same_place a b) (λ e. w.places ((is_same_place_iff a b).0 e)) in
        ground arith

-- The insertion of a reservation succeeds exactly where the table asked for belongs to the venue, no
-- reservation and no hold clashes with the request, and each row of the table of reservations,
-- cancelled and completed ones included, has another id and another code and is not for the table and
-- the local slot of the new one.
pub insert_reservation_iff :
    (ctx : Context) (s : Store) (dto : CreateReservationDto) (n : NewReservation)
    (found : SlotConflictCheckInput)
    → ((row : ReservationRow) × (s' : Store) × (insert_reservation ctx s dto n found
          ≡ ok (row, s')))
      ↔ ((assert_given_table s n.venue.id n.table_id ≡ ok tt)
          × IsFreeSlot s (creation_check ctx n)
          × ((old : ReservationRow)
              → In old s.reservations
              → AreApart (new_reservation ctx dto n) old))
unfolding insert_reservation assert_slot_is_free
insert_reservation_iff ctx s dto n found = (there, back)
  where
    new : ReservationRow
    new = new_reservation ctx dto n

    there :
        (row : ReservationRow) × (s' : Store) × (insert_reservation ctx s dto n found
            ≡ ok (row, s'))
        → (assert_given_table s n.venue.id n.table_id ≡ ok tt)
          × IsFreeSlot s (creation_check ctx n)
          × ((old : ReservationRow) → In old s.reservations → AreApart new old)
    there (row, s', h) =
        let made = insert_reservation-Inserted ctx s dto n found h in
        let a = >>=-eq-ok (assert_given_table s n.venue.id n.table_id) _ h in
        (
          a.1,
          made.was_free,
          λ old i.
              (violates_index-AreApart new old).0
                (ap (λ r. violates_index r old) (sym made.row_is) ∙ made.no_index old i),
        )

    back :
        (assert_given_table s n.venue.id n.table_id ≡ ok tt)
          × IsFreeSlot s (creation_check ctx n)
          × ((old : ReservationRow) → In old s.reservations → AreApart new old)
        → (row : ReservationRow) × (s' : Store) × (insert_reservation ctx s dto n found
            ≡ ok (row, s'))
    back (fits, free, apart) =
        let quiet = (has_slot_conflicts_iff s (creation_check ctx n)).1 free in
        let alone =
          any-false (violates_index new) s.reservations
            (λ o i. (violates_index-AreApart new o).1 (apart o i)) in
        (
          new,
          record s { reservations = new ∷ s.reservations },
          rw (fits, quiet, alone, insert_reservation) refl,
        )
