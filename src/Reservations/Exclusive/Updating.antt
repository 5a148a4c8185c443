-- ===== src/Reservations/Exclusive/Updating.antt =====
-- `update` keeps the table of reservations sound.
use restaurant_reservation_s.Prelude.{
  ℕ, ◌≡◌, refl, ap, subst, inl, inr, true, false, ◌&&◌, ◌||◌, not, Option, some, map, String, any,
  ◌==◌, ◌!=◌, nat_eq, string_eq, option_eq, arith, In, Bool-cases, Option-cases, is_some,
}
use restaurant_reservation_s.Booking.Types.{reservation_status_eq, VenueRow, ReservationRow, Store}
use restaurant_reservation_s.Booking.Conflicts.{is_kept, assigned}
use restaurant_reservation_s.Booking.Conflicts.Laws.{IsFreeSlot}
use restaurant_reservation_s.Booking.Results.{
  ok, require, or_throw, >>=-eq-ok, or_throw-eq-ok, ok_inj,
}
use restaurant_reservation_s.Reservations.Status.{ensure_transition}
use restaurant_reservation_s.Reservations.Status.Laws.{IsBlocking}
use restaurant_reservation_s.Reservations.Tables.{sync_assignments}
use restaurant_reservation_s.Reservations.Tables.Laws.{sync_assignments_iff}
use restaurant_reservation_s.Reservations.Create.{
  Context, Slot, assert_given_table, assert_slot_is_free, table_list, violates_index,
}
use restaurant_reservation_s.Reservations.Update.{
  UpdateReservationDto, ReservationActor, next_table_id, next_duration_minutes, updated_status,
  needs_conflict_check, update_check, patched_row, put_row, find_reservation, guarded, write_update,
  update_found, update, venue_of, check_guest, patched_party_size, target_slot, slot_time,
  current_slot, is_empty_dto,
}
use restaurant_reservation_s.Reservations.Exclusive.{
  IsSingle, IsSound, IsChecked, checked-exclusive, or_number-le,
}
use restaurant_reservation_s.Reservations.Exclusive.Creation.{
  table_list-single, free_of-assert_slot_is_free,
}
use restaurant_reservation_s.Reservations.Exclusive.Change.{
  put_row-IsSound, find-In, ensure_transition-blocks, Unmoved, Unmoved-IsSound,
}

target_slot-kept :
    (ctx : Context) (venue : VenueRow) (dto : UpdateReservationDto) (r : ReservationRow)
    {slot : Slot}
    → (is_some dto.date || is_some dto.time) ≡ false
    → target_slot ctx venue dto r ≡ ok slot
    → current_slot r ≡ slot
unfolding target_slot
target_slot-kept ctx venue dto r e h =
    let a = >>=-eq-ok (slot_time dto.time r.slot_local_time) _ h in ok_inj (rw e at a.2)

patched_row-IsSingle :
    (dto : UpdateReservationDto) (r : ReservationRow) (party_size : ℕ) (slot : Slot) (duration : ℕ)
    → IsSingle r
    → IsSingle (patched_row dto r party_size slot duration)
unfolding patched_row
patched_row-IsSingle dto r party_size slot duration single t i = elim (Option-cases dto.table_id) [
  | inl e ↦ rw e (single t (rw e at i))
  | inr (v, e) ↦
      table_list-single (next_table_id dto.table_id r.table_id) t
        ((sync_assignments_iff r.tables (table_list (next_table_id dto.table_id r.table_id)) t).0
          (given e i)).0
]
  where
    given :
        {v : Option String}
        → dto.table_id ≡ some v
        → In t (assigned (patched_row dto r party_size slot duration))
        → In t (
            map
              (λ a. a.table_id)
              (sync_assignments r.tables (table_list (next_table_id dto.table_id r.table_id))))
    given e i = let f : is_some dto.table_id ≡ true = rw e refl in rw f at i

patched_row-IsChecked :
    (ctx : Context) (venue : VenueRow) (dto : UpdateReservationDto) (r : ReservationRow)
    (party_size : ℕ) (slot : Slot)
    → let duration = next_duration_minutes venue dto.duration_minutes r.duration_minutes in
      IsChecked
        (update_check ctx r slot (next_table_id dto.table_id r.table_id) duration)
        (patched_row dto r party_size slot duration)
unfolding patched_row next_duration_minutes
patched_row-IsChecked ctx venue dto r party_size slot = record {
  venue = refl;
  date = refl;
  time = refl;
  start = refl;
  duration = elim (Option-cases dto.duration_minutes) [
    | inl e ↦ rw e (or_number-le r.duration_minutes _)
    | inr (v, e) ↦ rw e (omega arith)
  ];
  table = refl;
  column_only = refl;
}

patched_row-Unmoved :
    (dto : UpdateReservationDto) (r : ReservationRow) (party_size duration : ℕ)
    → needs_conflict_check dto ≡ false
    → (IsBlocking (updated_status dto.status r.status) → IsBlocking r.status)
    → Unmoved r (patched_row dto r party_size (current_slot r) duration)
unfolding patched_row
patched_row-Unmoved dto r party_size duration e k =
    let t : is_some dto.table_id ≡ false = ground arith in
    let d : is_some dto.duration_minutes ≡ false = ground arith in
    record {
      id = refl;
      venue = refl;
      date = refl;
      time = refl;
      start = refl;
      duration = rw d refl;
      table = elim (Option-cases dto.table_id) [ inl o ↦ rw o refl | inr (v, o) ↦ cc ];
      tables = rw t refl;
      blocks = k;
    }

-- The transaction of an update that asks for a conflict check, and of one that does not.
write_update-IsSound :
    (ctx : Context) (s : Store) (venue : VenueRow) (dto : UpdateReservationDto) (r : ReservationRow)
    (party_size : ℕ) (slot : Slot) {row : ReservationRow} {s' : Store}
    → In r s.reservations
    → ((is_some dto.date || is_some dto.time) ≡ false → current_slot r ≡ slot)
    → (IsBlocking (updated_status dto.status r.status) → IsBlocking r.status)
    → write_update ctx s dto r party_size slot
        (next_duration_minutes venue dto.duration_minutes r.duration_minutes)
      ≡ ok (row, s')
    → IsSound s.reservations
    → IsSound s'.reservations
unfolding write_update
write_update-IsSound ctx s venue dto r party_size slot {row} {s'} i kept blocks h sound =
    let duration = next_duration_minutes venue dto.duration_minutes r.duration_minutes in
    let table_id = next_table_id dto.table_id r.table_id in
    let new = patched_row dto r party_size slot duration in
    let a = >>=-eq-ok (assert_given_table s r.venue_id table_id) _ h in
    let b =
      >>=-eq-ok
        (guarded (needs_conflict_check dto)
          (assert_slot_is_free s (update_check ctx r slot table_id duration)))
        _ a.2 in
    let c =
      >>=-eq-ok (require (not (any (λ o. o.id != r.id && violates_index new o) s.reservations)) _) _
        b.2 in
    let put : put_row new s.reservations ≡ s'.reservations =
      ap (λ x. x.1.reservations) (ok_inj c.2) in
    subst IsSound put (elim (Bool-cases (needs_conflict_check dto)) [
      | inl e ↦
          checked (
            free_of-assert_slot_is_free s (update_check ctx r slot table_id duration) (rw e at b.1))
      | inr e ↦ unmoved e
    ])
  where
    checked :
        IsFreeSlot s (
          update_check ctx r slot
            (next_table_id dto.table_id r.table_id)
            (next_duration_minutes venue dto.duration_minutes r.duration_minutes))
        → IsSound (
            put_row
              (patched_row dto r party_size slot
                (next_duration_minutes venue dto.duration_minutes r.duration_minutes))
              s.reservations)
    checked free =
        let duration = next_duration_minutes venue dto.duration_minutes r.duration_minutes in
        let p = update_check ctx r slot (next_table_id dto.table_id r.table_id) duration in
        let single = patched_row-IsSingle dto r party_size slot duration (sound.single r i) in
        put_row-IsSound (patched_row dto r party_size slot duration) s.reservations
          (λ o j k.
            checked-exclusive p (patched_row dto r party_size slot duration) o single
              (patched_row-IsChecked ctx venue dto r party_size slot) (keeps o k) (free.0 o j))
          single sound
      where
        keeps : (o : ReservationRow) → (o.id == r.id) ≡ false → is_kept (some r.id) o.id ≡ true
        keeps o k = ground arith

    unmoved :
        needs_conflict_check dto ≡ false
        → IsSound (
            put_row
              (patched_row dto r party_size slot
                (next_duration_minutes venue dto.duration_minutes r.duration_minutes))
              s.reservations)
    unmoved e =
        subst
          (λ x. IsSound (
            put_row
              (patched_row dto r party_size x
                (next_duration_minutes venue dto.duration_minutes r.duration_minutes))
              s.reservations))
          (kept (ground arith))
          (Unmoved-IsSound i (patched_row-Unmoved dto r party_size _ e blocks) sound)

update_found-IsSound :
    (ctx : Context) (s : Store) (dto : UpdateReservationDto) (actor : ReservationActor)
    (r : ReservationRow) {row : ReservationRow} {s' : Store}
    → In r s.reservations
    → update_found ctx s dto actor r ≡ ok (row, s')
    → IsSound s.reservations
    → IsSound s'.reservations
unfolding update_found
update_found-IsSound ctx s dto actor r {row} {s'} i h sound =
    let a = >>=-eq-ok (venue_of ctx r) _ h in
    let b = >>=-eq-ok (check_guest ctx actor dto a.0 r) _ a.2 in
    let c = >>=-eq-ok (patched_party_size dto.party_size r.party_size) _ b.2 in
    let d = >>=-eq-ok (ensure_transition r.status (updated_status dto.status r.status)) _ c.2 in
    let e = >>=-eq-ok (target_slot ctx a.0 dto r) _ d.2 in
    write_update-IsSound ctx s a.0 dto r c.0 e.0 i (λ q. target_slot-kept ctx a.0 dto r q e.1)
      (ensure_transition-blocks r.status (updated_status dto.status r.status) d.1) e.2 sound

-- An update that succeeds, whatever it changes and whoever asks, keeps the table sound.
pub update-IsSound :
    (ctx : Context) (s : Store) (id : String) (dto : UpdateReservationDto)
    (actor : ReservationActor) {row : ReservationRow} {s' : Store}
    → update ctx s id dto actor ≡ ok (row, s')
    → IsSound s.reservations
    → IsSound s'.reservations
unfolding update
update-IsSound ctx s id dto actor {row} {s'} h sound =
    let a = >>=-eq-ok (or_throw (find_reservation s id) _) _ h in
    let i = find-In s id (or_throw-eq-ok (find_reservation s id) _ a.1) in
    elim (Bool-cases (is_empty_dto dto)) [
      | inl e ↦ subst (λ x. IsSound x.reservations) (ap (λ x. x.1) (ok_inj (rw e at a.2))) sound
      | inr e ↦ update_found-IsSound ctx s dto actor a.0 i (rw e at a.2) sound
    ]
