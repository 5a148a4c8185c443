-- ===== src/Holds/Laws.antt =====
-- What `HoldsService.create` checks and writes.
use restaurant_reservation_s.Prelude.{
  option_eq, ℕ, ◌+◌, ◌*◌, ◌≤◌, ◌<◌, ◌≡◌, ap, ◌∙◌, ◌⊎◌, inl, inr, ◌⊎◌, inl, inr, Option-cases, false,
  not, Option, none, some, ◌∷◌, String, arith, any, is_empty, ltb, nat_eq, string_eq, In,
  of_any-false,
}
use restaurant_reservation_s.Booking.Types.{VenueRow, HoldRow, Store}
use restaurant_reservation_s.Booking.SlotTime.{Calendar, normalize_time_to_24h, to_utc_instant}
use restaurant_reservation_s.Booking.Conflicts.{find_slot_conflicts, has_slot_conflicts}
use restaurant_reservation_s.Booking.Conflicts.Laws.{IsFreeSlot, has_slot_conflicts_iff}
use restaurant_reservation_s.Booking.Results.{
  ok, require, or_throw, >>=-eq-ok, require-eq-ok, or_throw-eq-ok,
}
use restaurant_reservation_s.Holds.{
  HoldInput, clamp_ttl_seconds, fallback_ttl_seconds, is_same_place, assert_table_in_venue,
  check_input, new_hold, insert_hold, create,
}

-- A time to live that the caller asks for is brought into one minute to one hour.
pub clamp_ttl_seconds_bounds :
    (ttl fallback : ℕ)
    → (60 ≤ clamp_ttl_seconds (some ttl) fallback) × (clamp_ttl_seconds (some ttl) fallback ≤ 3600)
unfolding clamp_ttl_seconds
clamp_ttl_seconds_bounds ttl fallback = (omega arith, omega arith)

-- What a successful `create` has found and done.
pub record Created (s : Store) (venue : VenueRow) (input : HoldInput) (time : String) (utc now : ℕ)
    (id : String) (row : HoldRow) (s' : Store) : Type 0 where
  pub row_is : row ≡ new_hold venue input time utc now id
  pub added : s' ≡ record s { holds = row ∷ s.holds }
  pub was_free : IsFreeSlot s (check_input venue input time utc now)
  pub first_here : (h : HoldRow) → In h s.holds → is_same_place row h ≡ false

pub insert_hold-Created :
    (s : Store) (venue : VenueRow) (input : HoldInput) (time : String) (utc now : ℕ) (id : String)
    {row : HoldRow} {s' : Store}
    → insert_hold s venue input time utc now id ≡ ok (row, s')
    → Created s venue input time utc now id row s'
unfolding insert_hold
insert_hold-Created s venue input time utc now id {row} {s'} h =
    let p = check_input venue input time utc now in
    let a = >>=-eq-ok (assert_table_in_venue s venue.id input.table_id) _ h in
    let b = >>=-eq-ok (require (not (has_slot_conflicts (find_slot_conflicts s p))) _) _ a.2 in
    let c =
      >>=-eq-ok
        (require (not (any (is_same_place (new_hold venue input time utc now id)) s.holds)) _) _
        b.2 in
    let free = require-eq-ok _ _ b.1 in
    let first = require-eq-ok _ _ c.1 in
    let same : row ≡ new_hold venue input time utc now id = ground (arith, c.2) in
    record {
      row_is = same;
      added = ground (arith, c.2);
      was_free = (has_slot_conflicts_iff s p).0 (ground (arith, free));
      first_here =
          λ k i. of_any-false (is_same_place row) k s.holds (rw same (ground (arith, first))) i;
    }

pub create-Created :
    (calendar : Calendar) (s : Store) (found : Option VenueRow) (input : HoldInput) (now : ℕ)
    (id : String) {row : HoldRow} {s' : Store}
    → create calendar s found input now id ≡ ok (row, s')
    → (venue : VenueRow) × (time : String) × (utc : ℕ) × (found ≡ some venue)
      × (normalize_time_to_24h (some input.time) ≡ some time)
      × (to_utc_instant calendar venue.timezone input.date time ≡ some utc)
      × (0 < input.party_size)
      × Created s venue input time utc now id row s'
      × ((input.ttl_sec ≡ none)
          ⊎ ((now + 60_000 ≤ row.expires_at) × (row.expires_at ≤ now + 3_600_000)))
unfolding create new_hold
create-Created calendar s found input now id {row} {s'} h =
    let a = >>=-eq-ok (or_throw found _) _ h in
    let b = >>=-eq-ok (or_throw (normalize_time_to_24h (some input.time)) _) _ a.2 in
    let c = >>=-eq-ok (require (not (is_empty input.date)) _) _ b.2 in
    let d = >>=-eq-ok (require (ltb 0 input.party_size) _) _ c.2 in
    let e = >>=-eq-ok (or_throw (to_utc_instant calendar a.0.timezone input.date b.0) _) _ d.2 in
    let made = insert_hold-Created s a.0 input b.0 e.0 now id e.2 in
    (
      a.0,
      b.0,
      e.0,
      or_throw-eq-ok found _ a.1,
      or_throw-eq-ok (normalize_time_to_24h (some input.time)) _ b.1,
      or_throw-eq-ok (to_utc_instant calendar a.0.timezone input.date b.0) _ e.1,
      ground (arith, require-eq-ok _ _ d.1),
      made,
      elim (Option-cases input.ttl_sec) [ inl q ↦ inl q | inr (ttl, q) ↦ inr (expiry made q) ],
    )
  where
    expiry :
        {venue : VenueRow} {time : String} {utc ttl : ℕ}
        → Created s venue input time utc now id row s'
        → input.ttl_sec ≡ some ttl
        → (now + 60_000 ≤ row.expires_at) × (row.expires_at ≤ now + 3_600_000)
    expiry {venue} {time} {utc} {ttl} made q =
        let e : row.expires_at
            ≡ now + clamp_ttl_seconds (some ttl) (fallback_ttl_seconds venue) * 1000 =
          ap (λ r. r.expires_at) made.row_is
          ∙ ap (λ o. now + clamp_ttl_seconds o (fallback_ttl_seconds venue) * 1000) q in
        let bounds = clamp_ttl_seconds_bounds ttl (fallback_ttl_seconds venue) in
        (omega arith, omega arith)
