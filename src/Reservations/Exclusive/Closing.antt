-- ===== src/Reservations/Exclusive/Closing.antt =====
-- `updateStatus` and `remove` keep the table of reservations sound.
use restaurant_reservation_s.Prelude.{
  ◌≡◌, refl, ap, subst, inl, inr, Bool, false, ◌&&◌, Option, List, [], ◌∷◌, String, filter,
  contains, ◌==◌, ◌!=◌, nat_eq, string_eq, option_eq, arith, of_In-filter, Bool-cases, IsNodup,
}
use restaurant_reservation_s.Booking.Types.{
  ReservationStatus, reservation_status_eq, ReservationRow, Store,
}
use restaurant_reservation_s.Booking.Results.{ok, or_throw, >>=-eq-ok, or_throw-eq-ok, ok_inj}
use restaurant_reservation_s.Reservations.Status.{normalize_status, ensure_transition}
use restaurant_reservation_s.Reservations.Status.Laws.{IsBlocking}
use restaurant_reservation_s.Reservations.Create.{Context}
use restaurant_reservation_s.Reservations.Update.{
  ReservationActor, find_reservation, guarded, with_status, update_status, remove, venue_of,
  is_guest, ensure_guest_cancel_window,
}
use restaurant_reservation_s.Reservations.Exclusive.{ids, IsSound}
use restaurant_reservation_s.Reservations.Exclusive.Change.{
  find-In, ensure_transition-blocks, Unmoved, Unmoved-IsSound,
}

-- A change of status that succeeds keeps the table sound.
pub update_status-IsSound :
    (ctx : Context) (s : Store) (id : String) (status : Option String) (actor : ReservationActor)
    {row : ReservationRow} {s' : Store}
    → update_status ctx s id status actor ≡ ok (row, s')
    → IsSound s.reservations
    → IsSound s'.reservations
unfolding update_status
update_status-IsSound ctx s id status actor {row} {s'} h sound =
    let a = >>=-eq-ok (or_throw (find_reservation s id) _) _ h in
    let i = find-In s id (or_throw-eq-ok (find_reservation s id) _ a.1) in
    let b = >>=-eq-ok (ensure_transition a.0.status (normalize_status status a.0.status)) _ a.2 in
    let c = >>=-eq-ok (venue_of ctx a.0) _ b.2 in
    let d =
      >>=-eq-ok
        (guarded
          (is_guest actor && normalize_status status a.0.status == ReservationStatus.cancelled)
          (ensure_guest_cancel_window c.0 ctx.now a.0.slot_start_utc))
        _ c.2 in
    subst (λ x. IsSound x.reservations) (ap (λ x. x.1) (ok_inj d.2))
      (Unmoved-IsSound i
        (moved a.0 (ensure_transition-blocks a.0.status (normalize_status status a.0.status) b.1))
        sound)
  where
    moved :
        (r : ReservationRow)
        → (IsBlocking (normalize_status status r.status) → IsBlocking r.status)
        → Unmoved r (with_status (normalize_status status r.status) r)
    moved r k = record {
      id = refl;
      venue = refl;
      date = refl;
      time = refl;
      start = refl;
      duration = refl;
      table = refl;
      tables = refl;
      blocks = k;
    }

filter-IsSound :
    (p : ReservationRow → Bool) (rows : List ReservationRow)
    → IsSound rows
    → IsSound (filter p rows)
filter-IsSound p rows sound = record {
  once = nodup rows sound.once;
  exclusive =
      λ a b i j. sound.exclusive a b (of_In-filter p a rows i).0 (of_In-filter p b rows j).0;
  single = λ r i. sound.single r (of_In-filter p r rows i).0;
}
  where
    still :
        (r : ReservationRow) (rs : List ReservationRow)
        → contains (ids rs) r.id ≡ false
        → contains (ids (filter p rs)) r.id ≡ false
    still r [] h = refl
    still r (o ∷ rs) h = ground (arith, still r rs)

    nodup : (rs : List ReservationRow) → IsNodup (ids rs) → IsNodup (ids (filter p rs))
    nodup [] n = tt
    nodup (r ∷ rs) n = elim (Bool-cases (p r)) [
      | inl e ↦ rw e (still r rs n.0, nodup rs n.1)
      | inr e ↦ rw e (nodup rs n.1)
    ]

pub remove-IsSound :
    (s : Store) (id : String) {s' : Store}
    → remove s id ≡ ok s'
    → IsSound s.reservations
    → IsSound s'.reservations
unfolding remove
remove-IsSound s id {s'} h sound =
    let a = >>=-eq-ok (or_throw (find_reservation s id) _) _ h in
    subst (λ x. IsSound x.reservations) (ok_inj a.2)
      (filter-IsSound (λ o. o.id != id) s.reservations sound)
