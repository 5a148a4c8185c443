-- ===== src/Booking/Conflicts/Gaps.antt =====
-- Bookings that the conflict check passes over, whatever else the database holds.
use restaurant_reservation_s.Prelude.{
  ◌≡◌, refl, ap, ◌∙◌, inl, inr, Bool, true, ◌&&◌, List, [], ◌∷◌, map, filter, ltb, ◌==◌, string_eq,
  arith, Bool-cases,
}
use restaurant_reservation_s.Booking.Types.{ReservationRow, HoldRow, Store}
use restaurant_reservation_s.Booking.Conflicts.{
  SlotConflictCheckInput, find_slot_conflicts, reservation_where, reservation_or,
  reservation_conflicts, hold_where, hold_or, hold_conflicts, requested_tables,
  to_conflict_reservation, to_conflict_hold,
}

-- A filter is no loss where the filters after it ask for as much.
filter_keep {ℓ} :
    {A : Type ℓ} (last query keep : A → Bool) (l : List A)
    → ((x : A) → query x ≡ true → last x ≡ true → keep x ≡ true)
    → filter last (filter query (filter keep l)) ≡ filter last (filter query l)
filter_keep last query keep [] h = refl
filter_keep last query keep (x ∷ l) h =
    let rest = filter_keep last query keep l h in
    elim (Bool-cases (keep x)) [
      | inl k ↦ elim (Bool-cases (query x)) [
        | inl q ↦ elim (Bool-cases (last x)) [
          | inl e ↦ rw (k, q, e) (ap (λ t. x ∷ t) rest)
          | inr e ↦ rw (k, q, e) rest
        ]
        | inr q ↦ rw (k, q) rest
      ]
      | inr k ↦ elim (Bool-cases (query x)) [
        | inl q ↦ elim (Bool-cases (last x)) [
          | inl e ↦ absurd (let y = h x q e in cc)
          | inr e ↦ rw (k, q, e) rest
        ]
        | inr q ↦ rw (k, q) rest
      ]
    ]

abbrev pub lasts_into : SlotConflictCheckInput → HoldRow → Bool
lasts_into p h = ltb p.slot_start_utc h.expires_at

-- The conflicts of a request are the same where all holds that run out at or before the start of its
-- slot are taken out of the database: such a hold, though it be live and for the very table and
-- slot, is never reported, whatever other bookings there are.
pub holds_never_block :
    (s : Store) (p : SlotConflictCheckInput)
    → find_slot_conflicts (record s { holds = filter (lasts_into p) s.holds }) p
      ≡ find_slot_conflicts s p
unfolding find_slot_conflicts hold_conflicts
holds_never_block s p =
    ap
      (λ hs. record {
        reservations = map to_conflict_reservation (
            filter (reservation_conflicts p) (
              filter (λ r. reservation_where p r && reservation_or (requested_tables p) r)
                s.reservations));
        holds = map to_conflict_hold hs;
      })
      (filter_keep (hold_conflicts p) (λ h. hold_where p h && hold_or (requested_tables p) h)
        (lasts_into p) s.holds (λ h q e. ground arith))

abbrev pub is_reservation_then : SlotConflictCheckInput → ReservationRow → Bool
is_reservation_then p r = r.slot_local_time == p.slot_local_time

abbrev pub is_hold_then : SlotConflictCheckInput → HoldRow → Bool
is_hold_then p h = h.slot_local_time == p.slot_local_time

-- The conflicts of a request are the same where all reservations and holds of another local time are
-- taken out of the database: however long such a booking lasts, it is never reported, whatever other
-- bookings there are.
pub other_times_never_block :
    (s : Store) (p : SlotConflictCheckInput)
    → find_slot_conflicts
        (record s {
          reservations = filter (is_reservation_then p) s.reservations;
          holds = filter (is_hold_then p) s.holds;
        })
        p
      ≡ find_slot_conflicts s p
unfolding find_slot_conflicts reservation_where hold_where
other_times_never_block s p =
    let reservations =
      filter_keep (reservation_conflicts p)
        (λ r. reservation_where p r && reservation_or (requested_tables p) r)
        (is_reservation_then p) s.reservations (λ r q e. ground arith) in
    let holds =
      filter_keep (hold_conflicts p) (λ h. hold_where p h && hold_or (requested_tables p) h)
        (is_hold_then p) s.holds (λ h q e. ground arith) in
    ap
      (λ rs. record {
        reservations = map to_conflict_reservation rs;
        holds = map to_conflict_hold (
            filter (hold_conflicts p) (
              filter (λ h. hold_where p h && hold_or (requested_tables p) h)
                (filter (is_hold_then p) s.holds)));
      })
      reservations
    ∙ ap
        (λ hs. record {
          reservations = map to_conflict_reservation (
              filter (reservation_conflicts p) (
                filter (λ r. reservation_where p r && reservation_or (requested_tables p) r)
                  s.reservations));
          holds = map to_conflict_hold hs;
        })
        holds
