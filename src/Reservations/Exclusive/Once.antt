-- ===== src/Reservations/Exclusive/Once.antt =====
-- A hold that has become a reservation stays consumed, whatever calls of the service follow.
use mathlib.Core.Option
use restaurant_reservation_s.Prelude.{
  ℕ, Bool, ◌≡◌, refl, sym, ap, ◌∙◌, inl, inr, true, false, ◌&&◌, not, none, some, Option, List, [],
  ◌∷◌, map, String, ◌==◌, ◌!=◌, nat_eq, string_eq, option_eq, if◌then◌else◌, arith, find, find-map,
  any, Bool-cases, Option-cases,
}
use restaurant_reservation_s.Booking.Types.{
  ReservationStatus, reservation_status_eq, HoldStatus, ReservationRow, HoldRow, Store,
}
use restaurant_reservation_s.Booking.Results.{Result, ok, err, require, or_throw, >>=-eq-ok, ok_inj}
use restaurant_reservation_s.Holds.{find_hold, consume_row}
use restaurant_reservation_s.Reservations.Status.{normalize_status, ensure_transition}
use restaurant_reservation_s.Reservations.Create.{
  assert_given_table, Context, Slot, CreateReservationDto, ensure_venue, normalize_party_size,
  build_slot, non_blank, violates_index, create_directly, create_from_hold, create,
  assert_slot_is_free,
}
use restaurant_reservation_s.Reservations.Update.{
  UpdateReservationDto, ReservationActor, find_reservation, guarded, venue_of, is_guest,
  ensure_guest_cancel_window, next_table_id, patched_row, needs_conflict_check, update_check,
  write_update, check_guest, patched_party_size, updated_status, target_slot, update_found,
  is_empty_dto, update, update_status, remove,
}
use restaurant_reservation_s.Reservations.Exclusive.Creation.{insert_reservation-Inserted}
use restaurant_reservation_s.Reservations.Exclusive.Conversion.{
  create_from_hold-Converted, Converted-consumes, Converted-found,
}
use restaurant_reservation_s.Reservations.Exclusive.Course.{Call, after, after_removal, step, run}

-- The row of the id is there and consumed.
abbrev IsConsumed : Store → String → Type 0
IsConsumed s id = (h : HoldRow) × (find_hold s id ≡ some h) × (h.status ≡ HoldStatus.consumed)

same_holds : (s s' : Store) (id : String) → s.holds ≡ s'.holds → IsConsumed s id → IsConsumed s' id
same_holds s s' id e (h, f, c) = (h, ap (find (λ (k : HoldRow). k.id == id)) (sym e) ∙ f, c)

-- A change of rows that keeps ids, and consumed rows consumed.
changed_holds :
    (s s' : Store) (id : String) (f : HoldRow → HoldRow)
    → ((h : HoldRow) → (f h).id ≡ h.id)
    → ((h : HoldRow) → h.status ≡ HoldStatus.consumed → (f h).status ≡ HoldStatus.consumed)
    → s'.holds ≡ map f s.holds
    → IsConsumed s id
    → IsConsumed s' id
changed_holds s s' id f keeps stays e (h, found, c) = (
  f h,
  ap (find (λ (k : HoldRow). k.id == id)) e
      ∙ find-map (λ (k : HoldRow). k.id == id) f s.holds (λ k. ap (λ x. x == id) (keeps k))
      ∙ ap (Option.map f) found,
  stays h c,
)

create_directly-holds :
    (ctx : Context) (s : Store) (dto : CreateReservationDto) {row : ReservationRow} {s' : Store}
    → create_directly ctx s dto ≡ ok (row, s')
    → s.holds ≡ s'.holds
unfolding create_directly
create_directly-holds ctx s dto h =
    let a = >>=-eq-ok (ensure_venue ctx dto.venue_id) _ h in
    let b = >>=-eq-ok (normalize_party_size dto.party_size) _ a.2 in
    let c = >>=-eq-ok (build_slot ctx.calendar a.0 dto.date dto.time) _ b.2 in
    sym (ap (λ (x : Store). x.holds) (insert_reservation-Inserted ctx s dto _ _ c.2).added)

create-IsConsumed :
    (ctx : Context) (s : Store) (dto : CreateReservationDto) (id : String) {row : ReservationRow}
    {s' : Store}
    → create ctx s dto ≡ ok (row, s')
    → IsConsumed s id
    → IsConsumed s' id
unfolding create
create-IsConsumed ctx s dto id {row} {s'} h c = elim (Option-cases (non_blank dto.hold_id)) [
  | inl e ↦ same_holds s s' id (create_directly-holds ctx s dto (rw (e, create) at h)) c
  | inr (hold_id, e) ↦
      let made = create_from_hold-Converted ctx s hold_id dto (rw (e, create) at h) in
      changed_holds s s' id (λ k. if k.id == made.hold.id then consume_row row.id k else k)
        (λ k. same k (k.id == made.hold.id)) (λ k q. still k q (k.id == made.hold.id))
        (Converted-consumes made) c
]
  where
    same : (k : HoldRow) (b : Bool) → (if b then consume_row row.id k else k).id ≡ k.id
    same k true = refl
    same k false = refl

    still :
        (k : HoldRow)
        → k.status ≡ HoldStatus.consumed
        → (b : Bool) → (if b then consume_row row.id k else k).status ≡ HoldStatus.consumed
    still k q true = refl
    still k q false = q

write_update-holds :
    (ctx : Context) (s : Store) (dto : UpdateReservationDto) (r : ReservationRow) (party_size : ℕ)
    (slot : Slot) (duration : ℕ) {row : ReservationRow} {s' : Store}
    → write_update ctx s dto r party_size slot duration ≡ ok (row, s')
    → s.holds ≡ s'.holds
unfolding write_update
write_update-holds ctx s dto r party_size slot duration h =
    let table_id = next_table_id dto.table_id r.table_id in
    let new = patched_row dto r party_size slot duration in
    let a = >>=-eq-ok (assert_given_table s r.venue_id table_id) _ h in
    let b =
      >>=-eq-ok
        (guarded (needs_conflict_check dto)
          (assert_slot_is_free s (update_check ctx r slot table_id duration)))
        _ a.2 in
    let c =
      >>=-eq-ok (require (not (any (λ o. o.id != r.id && violates_index new o) s.reservations)) _) _
        b.2 in
    ap (λ x. x.1.holds) (ok_inj c.2)

update-holds :
    (ctx : Context) (s : Store) (id : String) (dto : UpdateReservationDto)
    (actor : ReservationActor) {row : ReservationRow} {s' : Store}
    → update ctx s id dto actor ≡ ok (row, s')
    → s.holds ≡ s'.holds
unfolding update update_found
update-holds ctx s id dto actor {row} {s'} h =
    let a = >>=-eq-ok (or_throw (find_reservation s id) _) _ h in
    elim (Bool-cases (is_empty_dto dto)) [
      | inl e ↦ ap (λ x. x.1.holds) (ok_inj (rw e at a.2))
      | inr e ↦ found a.0 (rw e at a.2)
    ]
  where
    found :
        (r : ReservationRow) → update_found ctx s dto actor r ≡ ok (row, s') → s.holds ≡ s'.holds
    found r k =
        let a = >>=-eq-ok (venue_of ctx r) _ k in
        let b = >>=-eq-ok (check_guest ctx actor dto a.0 r) _ a.2 in
        let c = >>=-eq-ok (patched_party_size dto.party_size r.party_size) _ b.2 in
        let d = >>=-eq-ok (ensure_transition r.status (updated_status dto.status r.status)) _ c.2 in
        let e = >>=-eq-ok (target_slot ctx a.0 dto r) _ d.2 in
        write_update-holds ctx s dto r c.0 e.0 _ e.2

update_status-holds :
    (ctx : Context) (s : Store) (id : String) (status : Option String) (actor : ReservationActor)
    {row : ReservationRow} {s' : Store}
    → update_status ctx s id status actor ≡ ok (row, s')
    → s.holds ≡ s'.holds
unfolding update_status
update_status-holds ctx s id status actor h =
    let a = >>=-eq-ok (or_throw (find_reservation s id) _) _ h in
    let b = >>=-eq-ok (ensure_transition a.0.status (normalize_status status a.0.status)) _ a.2 in
    let c = >>=-eq-ok (venue_of ctx a.0) _ b.2 in
    let d =
      >>=-eq-ok
        (guarded
          (is_guest actor && normalize_status status a.0.status == ReservationStatus.cancelled)
          (ensure_guest_cancel_window c.0 ctx.now a.0.slot_start_utc))
        _ c.2 in
    ap (λ x. x.1.holds) (ok_inj d.2)

-- A removal takes the reservation off its hold, which stays consumed.
remove-IsConsumed :
    (s : Store) (reservation id : String) {s' : Store}
    → remove s reservation ≡ ok s'
    → IsConsumed s id
    → IsConsumed s' id
unfolding remove
remove-IsConsumed s reservation id {s'} h c =
    let a = >>=-eq-ok (or_throw (find_reservation s reservation) _) _ h in
    changed_holds s s' id
      (λ k. if k.reservation_id == some reservation then record k { reservation_id = none } else k)
      (λ k. same k (k.reservation_id == some reservation))
      (λ k q. still k (k.reservation_id == some reservation) ∙ q)
      (sym (ap (λ (x : Store). x.holds) (ok_inj a.2))) c
  where
    same :
        (k : HoldRow) (b : Bool) → (if b then record k { reservation_id = none } else k).id ≡ k.id
    same k true = refl
    same k false = refl

    still :
        (k : HoldRow) (b : Bool)
        → (if b then record k { reservation_id = none } else k).status ≡ k.status
    still k true = refl
    still k false = refl

after-IsConsumed :
    (s : Store) (m : Result (ReservationRow × Store)) (id : String)
    → ((r : ReservationRow) (s' : Store) → m ≡ ok (r, s') → IsConsumed s' id)
    → IsConsumed s id
    → IsConsumed (after s m) id
after-IsConsumed s (ok (r, s')) id h c = h r s' refl
after-IsConsumed s (err e) id h c = c

after_removal-IsConsumed :
    (s : Store) (m : Result Store) (id : String)
    → ((s' : Store) → m ≡ ok s' → IsConsumed s' id)
    → IsConsumed s id
    → IsConsumed (after_removal s m) id
after_removal-IsConsumed s (ok s') id h c = h s' refl
after_removal-IsConsumed s (err e) id h c = c

run-IsConsumed :
    (s : Store) (cs : List Call) (id : String) → IsConsumed s id → IsConsumed (run s cs) id
unfolding run step
run-IsConsumed s [] id c = c
run-IsConsumed s (Call.creates ctx dto ∷ cs) id c =
    run-IsConsumed (after s (create ctx s dto)) cs id
      (after-IsConsumed s (create ctx s dto) id (λ r s' h. create-IsConsumed ctx s dto id h c) c)
run-IsConsumed s (Call.updates ctx i dto actor ∷ cs) id c =
    run-IsConsumed (after s (update ctx s i dto actor)) cs id (
      after-IsConsumed s (update ctx s i dto actor) id
        (λ r s' h. same_holds s s' id (update-holds ctx s i dto actor h) c) c)
run-IsConsumed s (Call.sets_status ctx i status actor ∷ cs) id c =
    run-IsConsumed (after s (update_status ctx s i status actor)) cs id (
      after-IsConsumed s (update_status ctx s i status actor) id
        (λ r s' h. same_holds s s' id (update_status-holds ctx s i status actor h) c) c)
run-IsConsumed s (Call.removes i ∷ cs) id c =
    run-IsConsumed (after_removal s (remove s i)) cs id
      (after_removal-IsConsumed s (remove s i) id (λ s' h. remove-IsConsumed s i id h c) c)

-- A hold is converted at most once: after a conversion that succeeds, and after any course of
-- creations, conversions, updates, changes of status and removals that follows it, also the removal of
-- the reservation itself, a conversion of the hold of that id throws, whatever the request and its
-- surroundings.
pub create_from_hold_once :
    (ctx ctx' : Context) (s : Store) (hold_id : String) (dto dto' : CreateReservationDto)
    (cs : List Call) {row row' : ReservationRow} {s' s'' : Store}
    → create_from_hold ctx s hold_id dto ≡ ok (row, s')
    → ¬ (create_from_hold ctx' (run s' cs) hold_id dto' ≡ ok (row', s''))
create_from_hold_once ctx ctx' s hold_id dto dto' cs {row} {row'} {s'} {s''} h h' =
    let c = create_from_hold-Converted ctx s hold_id dto h in
    let c' = create_from_hold-Converted ctx' (run s' cs) hold_id dto' h' in
    let later = run-IsConsumed s' cs hold_id (consume_row row.id c.hold, Converted-found c, refl) in
    let same : c'.hold ≡ later.0 = some_inj (sym c'.found ∙ later.1) in
    absurd (ground (arith, sym c'.was_held ∙ ap (λ (k : HoldRow). k.status) same ∙ later.2))
  where
    some_inj : {a b : HoldRow} → some a ≡ some b → a ≡ b
    some_inj e = cc
