-- ===== src/Engine/Occupancy/Laws.antt =====
-- Which tables `computeOccupiedTables` marks: exactly those of an overlapping booking.
use restaurant_reservation_s.Prelude.{
  ℕ, ◌≡◌, Bool, ◌&&◌, ◌||◌, List, [], ◌∷◌, String, arith, contains, set_from, contains-set_from,
  any, truthy, ltb, string_eq,
}
use restaurant_reservation_s.Time.{overlaps}
use restaurant_reservation_s.Engine.Types.{AvailabilityRule, BookedReservation, BookedHold}
use restaurant_reservation_s.Engine.Occupancy.{
  reservation_end, hold_end, text_of, occupy_reservation, occupy_hold, occupy_reservations,
  occupy_holds, compute_occupied_tables,
}

module _ (slot_start slot_end : ℕ) (rules : List AvailabilityRule) (default_rule : AvailabilityRule)
    (turn_time now : ℕ) where
  -- The reservation sits at table `t` at some time in the slot.
  abbrev pub reservation_blocks : String → BookedReservation → Bool
  reservation_blocks t res =
      overlaps res.slot_start_utc (reservation_end rules default_rule turn_time res) slot_start
        slot_end
      && contains res.table_ids t

  -- The hold has not run out and keeps table `t` at some time in the slot.
  abbrev pub hold_blocks : String → BookedHold → Bool
  hold_blocks t hold =
      (truthy hold.table_id
        && ltb now hold.expires_at
        && overlaps hold.slot_start_utc (hold_end default_rule turn_time hold) slot_start slot_end)
      && contains (text_of hold.table_id) t

  occupy_reservations_lem :
      (t : String) (occupied : List String) (rs : List BookedReservation)
      → contains
          (occupy_reservations slot_start slot_end rules default_rule turn_time now occupied rs)
          t
        ≡ (contains occupied t || any (reservation_blocks t) rs)
  unfolding occupy_reservations occupy_reservation
  occupy_reservations_lem t occupied [] = ground arith
  occupy_reservations_lem t occupied (r ∷ rs) = ground (
    arith,
    occupy_reservations_lem t (set_from occupied r.table_ids) rs,
    occupy_reservations_lem t occupied rs,
    contains-set_from t occupied r.table_ids,
  )

  occupy_holds_lem :
      (t : String) (occupied : List String) (hs : List BookedHold)
      → contains (occupy_holds slot_start slot_end rules default_rule turn_time now occupied hs) t
        ≡ (contains occupied t || any (hold_blocks t) hs)
  unfolding occupy_holds occupy_hold
  occupy_holds_lem t occupied [] = ground arith
  occupy_holds_lem t occupied (h ∷ hs) = ground (
    arith,
    occupy_holds_lem t (set_from occupied (text_of h.table_id)) hs,
    occupy_holds_lem t occupied hs,
    contains-set_from t occupied (text_of h.table_id),
  )

  -- `computeOccupiedTables` has a table exactly when an overlapping reservation lists it or a hold
  -- that has not run out and overlaps names it; each booking blocks for its duration, the turn time
  -- and the buffer of its rule.
  pub compute_occupied_tables_lem :
      (t : String) (rs : List BookedReservation) (hs : List BookedHold)
      → contains
          (compute_occupied_tables slot_start slot_end rules default_rule turn_time now rs hs)
          t
        ≡ (any (reservation_blocks t) rs || any (hold_blocks t) hs)
  unfolding compute_occupied_tables
  compute_occupied_tables_lem t rs hs = ground (
    arith,
    occupy_holds_lem t
        (occupy_reservations slot_start slot_end rules default_rule turn_time now [] rs) hs,
    occupy_reservations_lem t [] rs,
  )
