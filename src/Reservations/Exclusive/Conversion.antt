-- ===== src/Reservations/Exclusive/Conversion.antt =====
-- The conversion of a hold into a reservation, and `create` as a whole.
use mathlib.Core.Option
use restaurant_reservation_s.Prelude.{
  ℕ, ◌<◌, ◌≡◌, refl, sym, ap, ◌∙◌, subst, inl, inr, ◌||◌, not, some, String, ◌==◌, nat_eq,
  string_eq, option_eq, if◌then◌else◌, arith, ltb, find, Option-cases, is_some, ==_refl, eq_of_==,
}
use restaurant_reservation_s.Booking.Types.{
  HoldStatus, hold_status_eq, VenueRow, ReservationRow, HoldRow, Store,
}
use restaurant_reservation_s.Booking.Results.{
  ok, require, or_throw, >>=-eq-ok, require-eq-ok, or_throw-eq-ok, ok_inj,
}
use restaurant_reservation_s.Holds.Lifecycle.{find-update}
use restaurant_reservation_s.Holds.{update_hold, find_hold, consume_row}
use restaurant_reservation_s.Reservations.Create.{
  Context, CreateReservationDto, ensure_venue, non_blank, hold_table, check_hold,
  insert_reservation, create_from_hold, create, hold_reservation, mark_consumed, convert_hold,
}
use restaurant_reservation_s.Reservations.Exclusive.{IsSound}
use restaurant_reservation_s.Reservations.Exclusive.Creation.{
  Inserted, insert_reservation-Inserted, Inserted-IsSound, create_directly-IsSound,
}

-- What a conversion that succeeds has found and done. `middle` is the database after the insertion,
-- before the hold is marked.
pub record Converted (ctx : Context) (s : Store) (hold_id : String) (dto : CreateReservationDto)
    (row : ReservationRow) (s' : Store) : Type 0 where
  pub hold : HoldRow
  pub venue : VenueRow
  pub table_id : String
  pub middle : Store
  pub found : find_hold s hold_id ≡ some hold
  pub was_held : hold.status ≡ HoldStatus.held
  pub was_live : ctx.now < hold.expires_at
  pub same_venue : hold.venue_id ≡ venue.id
  pub chosen_table : hold_table dto.table_id hold.table_id ≡ some table_id
  pub inserted : Inserted ctx s dto (hold_reservation venue dto hold table_id) row middle
  pub result : s' ≡ (mark_consumed hold (row, middle)).1

check_hold-eq-ok :
    (now : ℕ) (dto : CreateReservationDto) (venue : VenueRow) (hold : HoldRow) {u : Unit {0}}
    → check_hold now dto venue hold ≡ ok u
    → (hold.venue_id ≡ venue.id) × (hold.status ≡ HoldStatus.held) × (now < hold.expires_at)
unfolding check_hold
check_hold-eq-ok now dto venue hold h =
    let a = >>=-eq-ok (require (hold.venue_id == venue.id) _) _ h in
    let b = >>=-eq-ok (require (hold.status == HoldStatus.held) _) _ a.2 in
    let c = >>=-eq-ok (require (ltb now hold.expires_at) _) _ b.2 in
    (
      eq_of_== hold.venue_id venue.id (require-eq-ok _ _ a.1),
      eq_of_== hold.status HoldStatus.held (require-eq-ok _ _ b.1),
      ground (arith, require-eq-ok (ltb now hold.expires_at) _ c.1),
    )

convert_hold-Inserted :
    (ctx : Context) (s : Store) (dto : CreateReservationDto) (venue : VenueRow) (hold : HoldRow)
    (table_id : String) {row : ReservationRow} {s' : Store}
    → convert_hold ctx s dto venue hold table_id ≡ ok (row, s')
    → (middle : Store) × Inserted ctx s dto (hold_reservation venue dto hold table_id) row middle
      × (s' ≡ (mark_consumed hold (row, middle)).1)
unfolding convert_hold
convert_hold-Inserted ctx s dto venue hold table_id {row} {s'} h =
    let f =
      >>=-eq-ok (insert_reservation ctx s dto (hold_reservation venue dto hold table_id) _) _ h in
    let both = ok_inj f.2 in
    let same : f.0.0 ≡ row = ap (λ x. x.0) both in
    (
      f.0.1,
      subst (λ r. Inserted ctx s dto (hold_reservation venue dto hold table_id) r f.0.1) same
          (insert_reservation-Inserted ctx s dto (hold_reservation venue dto hold table_id) _ f.1),
      sym (ap (λ x. x.1) both) ∙ ap (λ r. (mark_consumed hold (r, f.0.1)).1) same,
    )

pub create_from_hold-Converted :
    (ctx : Context) (s : Store) (hold_id : String) (dto : CreateReservationDto)
    {row : ReservationRow} {s' : Store}
    → create_from_hold ctx s hold_id dto ≡ ok (row, s')
    → Converted ctx s hold_id dto row s'
unfolding create_from_hold
create_from_hold-Converted ctx s hold_id dto {row} {s'} h =
    let a = >>=-eq-ok (or_throw (find_hold s hold_id) _) _ h in
    let b =
      >>=-eq-ok
        (require
          (not (is_some (non_blank dto.venue_id)) || non_blank dto.venue_id == some a.0.venue_id) _)
        _ a.2 in
    let c = >>=-eq-ok (ensure_venue ctx (some a.0.venue_id)) _ b.2 in
    let d = >>=-eq-ok (check_hold ctx.now dto c.0 a.0) _ c.2 in
    let e = >>=-eq-ok (or_throw (hold_table dto.table_id a.0.table_id) _) _ d.2 in
    let f = convert_hold-Inserted ctx s dto c.0 a.0 e.0 e.2 in
    let checked = check_hold-eq-ok ctx.now dto c.0 a.0 d.1 in
    record {
      hold = a.0;
      venue = c.0;
      table_id = e.0;
      middle = f.0;
      found = or_throw-eq-ok (find_hold s hold_id) _ a.1;
      was_held = checked.1;
      was_live = checked.2;
      same_venue = checked.0;
      chosen_table = or_throw-eq-ok (hold_table dto.table_id a.0.table_id) _ e.1;
      inserted = f.1;
      result = f.2;
    }

-- The rows of holds after a conversion: those with the id of the hold are consumed.
pub Converted-consumes :
    {ctx : Context} {s : Store} {hold_id : String} {dto : CreateReservationDto}
    {row : ReservationRow} {s' : Store}
    → (c : Converted ctx s hold_id dto row s')
    → s'.holds ≡ update_hold c.hold.id (consume_row row.id) s.holds
Converted-consumes {ctx} {s} {hold_id} {dto} {row} {s'} c =
    ap (λ (x : Store). x.holds) c.result
    ∙ ap (λ (x : Store). update_hold c.hold.id (consume_row row.id) x.holds) c.inserted.added

-- The hold of a conversion is consumed after it.
pub Converted-found :
    {ctx : Context} {s : Store} {hold_id : String} {dto : CreateReservationDto}
    {row : ReservationRow} {s' : Store}
    → (c : Converted ctx s hold_id dto row s')
    → find_hold s' hold_id ≡ some (consume_row row.id c.hold)
Converted-found {ctx} {s} {hold_id} {dto} {row} {s'} c =
    ap (find (λ (k : HoldRow). k.id == hold_id)) (Converted-consumes c)
    ∙ find-update c.hold.id hold_id (consume_row row.id) s.holds (λ k. refl)
    ∙ ap (Option.map (λ h. if h.id == c.hold.id then consume_row row.id h else h)) c.found
    ∙ rw (==_refl c.hold.id) refl

-- A reservation that `create` makes, with or without a hold, keeps the table sound.
pub create-IsSound :
    (ctx : Context) (s : Store) (dto : CreateReservationDto) {row : ReservationRow} {s' : Store}
    → create ctx s dto ≡ ok (row, s')
    → IsSound s.reservations
    → IsSound s'.reservations
unfolding create
create-IsSound ctx s dto {row} {s'} h sound = elim (Option-cases (non_blank dto.hold_id)) [
  | inl e ↦ create_directly-IsSound ctx s dto (rw (e, create) at h) sound
  | inr (hold_id, e) ↦
      let c = create_from_hold-Converted ctx s hold_id dto (rw (e, create) at h) in
      rw c.result (Inserted-IsSound c.inserted sound)
]
