-- ===== src/Holds/Insertion.antt =====
-- When the insertion of a hold succeeds.
use restaurant_reservation_s.Prelude.{
  ◌↔◌, refl, sym, Bool-cases, eq_of_==, ==_of_eq, is_some, option_eq, List, [], ℕ, ◌≡◌, ap, ◌∙◌,
  inl, inr, inl, inr, Option-cases, true, false, some, ◌∷◌, String, arith, any, nat_eq, string_eq,
  In,
}
use restaurant_reservation_s.Booking.Types.{VenueRow, HoldRow, Store}
use restaurant_reservation_s.Booking.Conflicts.{SlotConflictCheckInput}
use restaurant_reservation_s.Booking.Conflicts.Laws.{IsFreeSlot, has_slot_conflicts_iff}
use restaurant_reservation_s.Booking.Results.{ok, >>=-eq-ok}
use restaurant_reservation_s.Holds.{
  HoldInput, is_same_place, assert_table_in_venue, check_input, new_hold, insert_hold,
}
use restaurant_reservation_s.Holds.Laws.{insert_hold-Created}

-- Two rows for one table and local slot of a venue.
pub record AtSamePlace (a b : HoldRow) : Type 0 where
  pub table : (t : String) × (a.table_id ≡ some t)
  pub same_venue : a.venue_id ≡ b.venue_id
  pub same_table : a.table_id ≡ b.table_id
  pub same_date : a.slot_local_date ≡ b.slot_local_date
  pub same_time : a.slot_local_time ≡ b.slot_local_time

is_same_place_iff : (a b : HoldRow) → (is_same_place a b ≡ true) ↔ AtSamePlace a b
unfolding is_same_place
is_same_place_iff a b = (there, back)
  where
    there : is_same_place a b ≡ true → AtSamePlace a b
    there h = elim (Option-cases a.table_id) [
      | inl e ↦ absurd (let q = rw e at h in cc)
      | inr (t, e) ↦ record {
        table = (t, e);
        same_venue = eq_of_== a.venue_id b.venue_id (ground arith);
        same_table = eq_of_== a.table_id b.table_id (ground arith);
        same_date = eq_of_== a.slot_local_date b.slot_local_date (ground arith);
        same_time = eq_of_== a.slot_local_time b.slot_local_time (ground arith);
      }
    ]

    back : AtSamePlace a b → is_same_place a b ≡ true
    back w =
        let some_table : is_some a.table_id ≡ true = rw w.table.1 refl in
        let v = ==_of_eq a.venue_id b.venue_id w.same_venue in
        let t = ==_of_eq a.table_id b.table_id w.same_table in
        let d = ==_of_eq a.slot_local_date b.slot_local_date w.same_date in
        let m = ==_of_eq a.slot_local_time b.slot_local_time w.same_time in ground arith

none_there :
    (row : HoldRow) (hs : List HoldRow)
    → ((h : HoldRow) → In h hs → ¬ AtSamePlace row h)
    → any (is_same_place row) hs ≡ false
none_there row [] f = refl
none_there row (h ∷ hs) f = elim (Bool-cases (is_same_place row h)) [
  | inl e ↦ absurd (f h (inl refl) ((is_same_place_iff row h).0 e))
  | inr e ↦ rw e (none_there row hs (λ k i. f k (inr i)))
]

-- The insertion of a hold succeeds exactly where the table asked for belongs to the venue, no
-- reservation and no hold of the database clashes with the request, and no row of the table of holds,
-- expired and consumed ones included, is for the table and the local slot of the new one.
pub insert_hold_iff :
    (s : Store) (venue : VenueRow) (input : HoldInput) (time : String) (utc now : ℕ) (id : String)
    → ((row : HoldRow) × (s' : Store) × (insert_hold s venue input time utc now id ≡ ok (row, s')))
      ↔ ((assert_table_in_venue s venue.id input.table_id ≡ ok tt)
          × IsFreeSlot s (check_input venue input time utc now)
          × ((old : HoldRow)
              → In old s.holds
              → ¬ AtSamePlace (new_hold venue input time utc now id) old))
unfolding insert_hold
insert_hold_iff s venue input time utc now id = (there, back)
  where
    p : SlotConflictCheckInput
    p = check_input venue input time utc now

    new : HoldRow
    new = new_hold venue input time utc now id

    there :
        (row : HoldRow) × (s' : Store) × (insert_hold s venue input time utc now id ≡ ok (row, s'))
        → (assert_table_in_venue s venue.id input.table_id ≡ ok tt)
          × IsFreeSlot s p
          × ((old : HoldRow) → In old s.holds → ¬ AtSamePlace new old)
    there (row, s', h) =
        let made = insert_hold-Created s venue input time utc now id h in
        let a = >>=-eq-ok (assert_table_in_venue s venue.id input.table_id) _ h in
        (
          a.1,
          made.was_free,
          λ old i same.
              let taken = (is_same_place_iff new old).1 same in
              let free = made.first_here old i in
              let at_new : is_same_place new old ≡ false =
                ap (λ r. is_same_place r old) (sym made.row_is) ∙ free in
              cc,
        )

    back :
        (assert_table_in_venue s venue.id input.table_id ≡ ok tt)
          × IsFreeSlot s p
          × ((old : HoldRow) → In old s.holds → ¬ AtSamePlace new old)
        → (row : HoldRow) × (s' : Store) × (insert_hold s venue input time utc now id
            ≡ ok (row, s'))
    back (fits, free, first) =
        let quiet = (has_slot_conflicts_iff s p).1 free in
        let alone = none_there new s.holds first in
        (new, record s { holds = new ∷ s.holds }, rw (fits, quiet, alone, insert_hold) refl)
