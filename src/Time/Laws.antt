-- ===== src/Time/Laws.antt =====
-- What the helpers of common/time.ts promise.
use restaurant_reservation_s.Prelude.{ℕ, ◌+◌, ◌/◌, ◌≤◌, ◌<◌, ◌≡◌, true, ◌↔◌, arith, max, nat_eq}
use restaurant_reservation_s.Time.{Zone, day_minutes, add_minutes_tz, overlaps}

-- `overlaps` holds of two non-empty ranges exactly when some instant lies in both, each range with
-- its start and without its end.
pub overlaps-iff_common_instant :
    (a_start a_end b_start b_end : ℕ)
    → a_start < a_end
    → b_start < b_end
    → (overlaps a_start a_end b_start b_end ≡ true)
      ↔ ((t : ℕ) × (a_start ≤ t) × (t < a_end) × (b_start ≤ t) × (t < b_end))
unfolding overlaps
overlaps-iff_common_instant a b c d p q = (
  λ h. (max a c, ground arith, ground arith, ground arith, ground arith),
  λ w. meet w.0 w.1 w.2 w.3 w.4,
)
  where
    meet : (t : ℕ) → a ≤ t → t < b → c ≤ t → t < d → overlaps a b c d ≡ true
    meet t h i j k = ground arith

pub overlaps_comm : (a b c d : ℕ) → overlaps a b c d ≡ overlaps c d a b
unfolding overlaps
overlaps_comm a b c d = ground arith

-- Where the zone has the wall clock reading asked for, `addMinutesTz` moves the wall clock by
-- exactly the minutes given.
pub add_minutes_tz-wall :
    (utc minutes : ℕ) (zone : Zone)
    → zone.to_zoned (zone.from_zoned (zone.to_zoned utc + minutes)) ≡ zone.to_zoned utc + minutes
    → zone.to_zoned (add_minutes_tz utc minutes zone) ≡ zone.to_zoned utc + minutes
unfolding add_minutes_tz
add_minutes_tz-wall utc minutes zone h = ground arith

-- Where the wall clock reading falls into a gap, so that the zone reads a time earlier on the
-- same day, `addMinutesTz` moves on by the minutes that the reading falls short.
pub add_minutes_tz-gap :
    (utc minutes short : ℕ) (zone : Zone)
    → (let wall = zone.to_zoned utc + minutes in
        let actual = zone.to_zoned (zone.from_zoned wall) in
        (0 < short) × (actual + short ≡ wall) × (actual / day_minutes ≡ wall / day_minutes))
    → add_minutes_tz utc minutes zone ≡ zone.from_zoned (zone.to_zoned utc + minutes + short)
unfolding add_minutes_tz
add_minutes_tz-gap utc minutes short zone h = ground arith
