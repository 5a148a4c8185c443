-- ===== src/Reservations/Guests.antt =====
-- What a guest can do with a reservation through `update` and `updateStatus`.
use restaurant_reservation_s.Prelude.{
  ℕ, ◌+◌, ◌*◌, ◌≤◌, ◌≡◌, ◌≢◌, refl, ap, ◌∙◌, subst, ◌⊎◌, false, ◌&&◌, ◌||◌, not, Option, none, some,
  String, any, ltb, ◌==◌, ◌!=◌, nat_eq, string_eq, arith, is_some, ==_of_eq,
}
use restaurant_reservation_s.Booking.Types.{
  ReservationStatus, reservation_status_eq, VenueRow, ReservationRow, Store,
}
use restaurant_reservation_s.Booking.Results.{
  ok, require, or_throw, >>=-eq-ok, require-eq-ok, or_throw-eq-ok, ok_inj,
}
use restaurant_reservation_s.Reservations.Status.{normalize_status, ensure_transition}
use restaurant_reservation_s.Reservations.Create.{
  Context, Slot, assert_given_table, assert_slot_is_free, violates_index,
}
use restaurant_reservation_s.Reservations.Update.{
  UpdateReservationDto, ReservationActor, next_table_id, updated_status, needs_conflict_check,
  update_check, patched_row, find_reservation, guarded, write_update, update_found, update,
  venue_of, check_guest, patched_party_size, target_slot, is_empty_dto, assert_guest_update_payload,
  ensure_guest_window, ensure_guest_modify_window, ensure_guest_cancel_window, is_guest,
  update_status,
}

-- A time that a venue's window, in minutes, leaves open: no window, or the slot is not nearer.
abbrev pub IsOpen : ℕ → ℕ → ℕ → Type 0
IsOpen window now slot_start_utc = (window ≡ 0) ⊎ (now + window * 60_000 ≤ slot_start_utc)

ensure_guest_window-IsOpen :
    (window now slot_start_utc : ℕ) (message : String) {u : Unit {0}}
    → ensure_guest_window window now slot_start_utc message ≡ ok u
    → IsOpen window now slot_start_utc
unfolding ensure_guest_window
ensure_guest_window-IsOpen window now slot_start_utc message h =
    let q = require-eq-ok (window == 0 || not (ltb slot_start_utc (now + window * 60_000))) _ h in
    ground arith

-- What a guest's update leaves alone.
pub record Untouched (r row : ReservationRow) : Type 0 where
  pub status : row.status ≡ r.status
  pub table : row.table_id ≡ r.table_id
  pub tables : row.tables ≡ r.tables
  pub duration : row.duration_minutes ≡ r.duration_minutes
  pub channel : row.channel ≡ r.channel

absent {ℓ} : {A : Type ℓ} (o : Option A) → is_some o ≡ false → o ≡ none
absent none e = refl
absent (some a) e = cc

patched_row-Untouched :
    (dto : UpdateReservationDto) (r : ReservationRow) (party_size : ℕ) (slot : Slot) (duration : ℕ)
    {u : Unit {0}}
    → assert_guest_update_payload dto ≡ ok u
    → Untouched r (patched_row dto r party_size slot duration)
unfolding assert_guest_update_payload patched_row
patched_row-Untouched dto r party_size slot duration h = record {
  status = rw (absent dto.status (ground arith)) refl;
  table = rw (absent dto.table_id (ground arith)) refl;
  tables = rw (absent dto.table_id (ground arith)) refl;
  duration = rw (absent dto.duration_minutes (ground arith)) refl;
  channel = rw (absent dto.channel (ground arith)) refl;
}
  where
    q :
        (is_some dto.status
          || is_some dto.table_id
          || is_some dto.duration_minutes
          || is_some dto.channel)
        ≡ false
    q = ground (arith, require-eq-ok _ _ h)

write_update-row :
    (ctx : Context) (s : Store) (dto : UpdateReservationDto) (r : ReservationRow) (party_size : ℕ)
    (slot : Slot) (duration : ℕ) {row : ReservationRow} {s' : Store}
    → write_update ctx s dto r party_size slot duration ≡ ok (row, s')
    → patched_row dto r party_size slot duration ≡ row
unfolding write_update
write_update-row ctx s dto r party_size slot duration h =
    let table_id = next_table_id dto.table_id r.table_id in
    let new = patched_row dto r party_size slot duration in
    let a = >>=-eq-ok (assert_given_table s r.venue_id table_id) _ h in
    let b =
      >>=-eq-ok
        (guarded (needs_conflict_check dto)
          (assert_slot_is_free s (update_check ctx r slot table_id duration)))
        _ a.2 in
    let c =
      >>=-eq-ok (require (not (any (λ o. o.id != r.id && violates_index new o) s.reservations)) _) _
        b.2 in
    ap (λ x. x.0) (ok_inj c.2)

check_guest-eq-ok :
    (ctx : Context) (dto : UpdateReservationDto) (venue : VenueRow) (r : ReservationRow)
    {u : Unit {0}}
    → check_guest ctx ReservationActor.guest dto venue r ≡ ok u
    → (assert_guest_update_payload dto ≡ ok tt)
      × IsOpen venue.guest_can_modify_until_min ctx.now r.slot_start_utc
      × (r.status ≢ ReservationStatus.cancelled)
unfolding check_guest ensure_guest_modify_window
check_guest-eq-ok ctx dto venue r h =
    let a = >>=-eq-ok (assert_guest_update_payload dto) _ h in
    let b = >>=-eq-ok (ensure_guest_modify_window venue ctx.now r.slot_start_utc) _ a.2 in
    let c = require-eq-ok (r.status != ReservationStatus.cancelled) _ b.2 in
    (
      a.1,
      ensure_guest_window-IsOpen venue.guest_can_modify_until_min ctx.now r.slot_start_utc _ b.1,
      λ e. absurd (ground (arith, e)),
    )

-- A guest's update that succeeds with a request that is not empty: the reservation is there and not
-- cancelled, the venue's window for changes is open, and the new row has the status, the tables,
-- the duration and the channel that it had.
pub guest_update-Untouched :
    (ctx : Context) (s : Store) (id : String) (dto : UpdateReservationDto) {row : ReservationRow}
    {s' : Store}
    → is_empty_dto dto ≡ false
    → update ctx s id dto ReservationActor.guest ≡ ok (row, s')
    → (r : ReservationRow) × (venue : VenueRow) × (find_reservation s id ≡ some r)
      × (venue_of ctx r ≡ ok venue)
      × (r.status ≢ ReservationStatus.cancelled)
      × IsOpen venue.guest_can_modify_until_min ctx.now r.slot_start_utc
      × Untouched r row
unfolding update update_found
guest_update-Untouched ctx s id dto {row} {s'} full h =
    let f = >>=-eq-ok (or_throw (find_reservation s id) _) _ h in
    let a = >>=-eq-ok (venue_of ctx f.0) _ (rw full at f.2) in
    let b = >>=-eq-ok (check_guest ctx ReservationActor.guest dto a.0 f.0) _ a.2 in
    let c = >>=-eq-ok (patched_party_size dto.party_size f.0.party_size) _ b.2 in
    let d = >>=-eq-ok (ensure_transition f.0.status (updated_status dto.status f.0.status)) _ c.2 in
    let e = >>=-eq-ok (target_slot ctx a.0 dto f.0) _ d.2 in
    let g = check_guest-eq-ok ctx dto a.0 f.0 b.1 in
    (
      f.0,
      a.0,
      or_throw-eq-ok (find_reservation s id) _ f.1,
      a.1,
      g.2,
      g.1,
      subst (Untouched f.0) (write_update-row ctx s dto f.0 c.0 e.0 _ e.2)
          (patched_row-Untouched dto f.0 c.0 e.0 _ g.0),
    )

cancel_guard :
    (venue : VenueRow) (now slot_start_utc : ℕ) (next : ReservationStatus) {u : Unit {0}}
    → next ≡ ReservationStatus.cancelled
    → guarded
        (is_guest ReservationActor.guest && next == ReservationStatus.cancelled)
        (ensure_guest_cancel_window venue now slot_start_utc)
      ≡ ok u
    → IsOpen venue.cancellation_window_min now slot_start_utc
unfolding ensure_guest_cancel_window
cancel_guard venue now slot_start_utc next e h =
    ensure_guest_window-IsOpen venue.cancellation_window_min now slot_start_utc _
      (rw (==_of_eq next ReservationStatus.cancelled e) at h)

-- A guest's change of status that succeeds and cancels: the reservation was there and its status let
-- the cancellation pass, and the venue's window for cancelling was open.
pub guest_cancel-IsOpen :
    (ctx : Context) (s : Store) (id : String) (status : Option String) {row : ReservationRow}
    {s' : Store}
    → update_status ctx s id status ReservationActor.guest ≡ ok (row, s')
    → row.status ≡ ReservationStatus.cancelled
    → (r : ReservationRow) × (venue : VenueRow) × (find_reservation s id ≡ some r)
      × (venue_of ctx r ≡ ok venue)
      × (ensure_transition r.status ReservationStatus.cancelled ≡ ok tt)
      × IsOpen venue.cancellation_window_min ctx.now r.slot_start_utc
unfolding update_status ensure_guest_cancel_window
guest_cancel-IsOpen ctx s id status {row} {s'} h cancels =
    let a = >>=-eq-ok (or_throw (find_reservation s id) _) _ h in
    let next = normalize_status status a.0.status in
    let b = >>=-eq-ok (ensure_transition a.0.status next) _ a.2 in
    let c = >>=-eq-ok (venue_of ctx a.0) _ b.2 in
    let guard =
      guarded (is_guest ReservationActor.guest && next == ReservationStatus.cancelled)
        (ensure_guest_cancel_window c.0 ctx.now a.0.slot_start_utc) in
    let d = >>=-eq-ok guard _ c.2 in
    let same : next ≡ ReservationStatus.cancelled = ap (λ x. x.0.status) (ok_inj d.2) ∙ cancels in
    (
      a.0,
      c.0,
      or_throw-eq-ok (find_reservation s id) _ a.1,
      c.1,
      subst (λ x. ensure_transition a.0.status x ≡ ok tt) same b.1,
      cancel_guard c.0 ctx.now a.0.slot_start_utc next same d.1,
    )
