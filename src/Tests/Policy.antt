-- ===== src/Tests/Policy.antt =====
-- An evening shift that lasts past midnight, on the day on which it begins.
use restaurant_reservation_s.Prelude.{
  ◌==◌, nat_eq, if◌then◌else◌, leb, ◌/◌, ◌%◌, ◌⊎◌, none, ◌+◌, ◌*◌, ◌≡◌, refl, true, some, List, [],
  ◌∷◌, All, IsSorted,
}
use restaurant_reservation_s.Policy.{
  ShiftLike, TemporalSlot, TimeZone, GenerateSlotsArgs, PolicyAnswer, zoned, day_end, by_start,
  generate_policy_slots,
}
use restaurant_reservation_s.Policy.Days.{IsDaySlot, generate_policy_slots-IsDaySlot}

abbrev evening : ShiftLike
evening = record {
  id = "s1";
  dow = 5;
  starts_at_local = 1_320;
  ends_at_local = 60;
  capacity_seats = 20;
  capacity_covers = 40;
  is_active = true;
}

abbrev utc : TimeZone
utc = record {
  instant_for = λ day minutes. (day * 1_440 + minutes) * 60_000;
  wall = λ t. (t / 86_400_000, t / 60_000 % 1_440);
}

abbrev friday : GenerateSlotsArgs
friday = record {
  date = 1;
  timezone = some utc;
  shifts = evening ∷ [];
  window_minutes = 60;
  before_minutes = 15;
  after_minutes = 0;
}

abbrev answer : List TemporalSlot
answer = record { shift_id = "s1"; start = 166_500_000; finish = 170_100_000 } ∷ []

answered : generate_policy_slots friday ≡ PolicyAnswer.slots answer
unfolding generate_policy_slots
answered = refl

-- A zone that skips midnight of that day: its day lasts until one in the morning of the next.
abbrev skipping : TimeZone
skipping = record {
  instant_for = λ day minutes.
      (day * 1_440 + (if day * 1_440 + minutes == 1_440 then 60 else minutes)) * 60_000;
  wall = λ t. (t / 86_400_000, t / 60_000 % 1_440);
}

skipped : day_end (zoned friday skipping) ≡ (2 * 1_440 + 60) * 60_000
skipped = refl

generate_policy_slots-IsDaySlot_example :
    ((friday.timezone ≡ none)
      × (generate_policy_slots friday ≡ (
          if leb friday.window_minutes 0
          then PolicyAnswer.slots []
          else PolicyAnswer.unknown_zone)))
    ⊎ ((zone : TimeZone) × (friday.timezone ≡ some zone)
        × (l : List TemporalSlot) × (generate_policy_slots friday ≡ PolicyAnswer.slots l)
        × All (IsDaySlot (zoned friday zone)) l
        × IsSorted by_start l)
generate_policy_slots-IsDaySlot_example = generate_policy_slots-IsDaySlot friday
