-- ===== src/Policy.antt =====
-- `generatePolicySlots` of apps/api/src/availability/policy.service.ts. A date is its day number, a
-- time of day its minutes; a time zone of Temporal is a parameter.
pub mod Laws
pub mod Days
use restaurant_reservation_s.Prelude.{
  ℕ, zero, suc, ◌+◌, ◌-◌, ◌*◌, ◌%◌, Bool, true, false, ◌&&◌, ◌||◌, not, Option, none, some, List,
  [], ◌∷◌, ◌++◌, map, String, sort, find, ltb, leb, ◌==◌, nat_eq, string_eq, if◌then◌else◌, or_else,
  max,
}

pub record ShiftLike : Type 0 where
  pub id : String
  pub dow : ℕ
  pub starts_at_local : ℕ
  pub ends_at_local : ℕ
  pub capacity_seats : ℕ
  pub capacity_covers : ℕ
  pub is_active : Bool

pub record TemporalSlot : Type 0 where
  pub shift_id : String
  pub start : ℕ
  pub finish : ℕ

-- A time zone of Temporal: `getInstantFor` of a day and its minutes, in milliseconds, with the
-- disambiguation that the code asks for, and the day and the minutes that an instant has there.
pub record TimeZone : Type 0 where
  pub instant_for : ℕ → ℕ → ℕ
  pub wall : ℕ → ℕ × ℕ

-- `timezone` is what `Temporal.TimeZone.from` makes of the name, none where it throws.
pub record GenerateSlotsArgs : Type 0 where
  pub date : ℕ
  pub timezone : Option TimeZone
  pub shifts : List ShiftLike
  pub window_minutes : ℕ
  pub before_minutes : ℕ
  pub after_minutes : ℕ

-- The arguments with the time zone that was found.
pub record ZonedArgs : Type 0 where
  pub date : ℕ
  pub zone : TimeZone
  pub shifts : List ShiftLike
  pub window_minutes : ℕ
  pub before_minutes : ℕ
  pub after_minutes : ℕ

abbrev pub zoned : GenerateSlotsArgs → TimeZone → ZonedArgs
zoned a zone = record {
  date = a.date;
  zone = zone;
  shifts = a.shifts;
  window_minutes = a.window_minutes;
  before_minutes = a.before_minutes;
  after_minutes = a.after_minutes;
}

abbrev pub minute_in_ms : ℕ
minute_in_ms = 60_000

unfoldable pub wraps_overnight : ShiftLike → Bool
wraps_overnight shift = leb shift.ends_at_local shift.starts_at_local

-- `dayOfWeek % 7`: day 0 was a Thursday.
abbrev pub weekday_of : ℕ → ℕ
weekday_of day = (day + 4) % 7

-- The shifts that begin on the day, and those of the day before that last into it.
unfoldable pub determine_relevant_shifts : List ShiftLike → ℕ → List (ShiftLike × ℕ)
unfolding wraps_overnight
determine_relevant_shifts [] day = []
determine_relevant_shifts (shift ∷ shifts) day =
    let rest = determine_relevant_shifts shifts day in
    if not shift.is_active
    then rest
    else if shift.dow == weekday_of day
    then (shift, day) ∷ rest
    else if shift.dow == (weekday_of day + 6) % 7 && wraps_overnight shift
    then (shift, day - 1) ∷ rest
    else rest

abbrev pub day_start : ZonedArgs → ℕ
day_start a = a.zone.instant_for a.date 0

-- `dayStart.add({ days: 1 })` keeps the time of day of the start, which is not midnight where the zone
-- skips midnight.
abbrev pub day_end : ZonedArgs → ℕ
day_end a = let w = a.zone.wall (day_start a) in a.zone.instant_for (w.0 + 1) w.1

abbrev pub shift_starts : ZonedArgs → ShiftLike × ℕ → ℕ
shift_starts a r = a.zone.instant_for r.1 r.0.starts_at_local

abbrev pub shift_ends : ZonedArgs → ShiftLike × ℕ → ℕ
shift_ends a r = a.zone.instant_for (if wraps_overnight r.0 then r.1 + 1 else r.1) r.0.ends_at_local

-- Where the windows of a shift begin and end: clipped to the day, less the buffer, and again clipped.
unfoldable pub window_start : ZonedArgs → ShiftLike × ℕ → ℕ
window_start a r =
    let clipped = if ltb (shift_starts a r) (day_start a) then day_start a else shift_starts a r in
    let buffered = clipped + a.before_minutes * minute_in_ms in
    if ltb buffered (day_start a) then day_start a else buffered

unfoldable pub buffered_end : ZonedArgs → ShiftLike × ℕ → ℕ
buffered_end a r =
    let clipped = if ltb (day_end a) (shift_ends a r) then day_end a else shift_ends a r in
    clipped - a.after_minutes * minute_in_ms

unfoldable pub window_end : ZonedArgs → ShiftLike × ℕ → ℕ
unfolding buffered_end
window_end a r = if ltb (day_end a) (buffered_end a r) then day_end a else buffered_end a r

abbrev pub with_slot : TemporalSlot → Option (List TemporalSlot) → Option (List TemporalSlot)
with_slot slot none = none
with_slot slot (some slots) = some (slot ∷ slots)

-- The loop over the windows of one shift; `none` where the fuel runs out first.
unfoldable pub windows_from : ℕ → String → ℕ → ℕ → ℕ → Option (List TemporalSlot)
windows_from zero id step current finish = none
windows_from (suc fuel) id step current finish =
    let rest = windows_from fuel id step (current + step) finish in
    if not (ltb current finish)
    then some []
    else if ltb finish (current + step)
    then some []
    else with_slot (record { shift_id = id; start = current; finish = current + step }) rest

-- The slots of one shift, with one unit of fuel more than its milliseconds.
unfoldable pub shift_windows : ZonedArgs → ShiftLike × ℕ → Option (List TemporalSlot)
unfolding window_start buffered_end window_end windows_from
shift_windows a r =
    if ltb (buffered_end a r) (day_start a) || leb (buffered_end a r) (window_start a r)
    then some []
    else windows_from (window_end a r - window_start a r + 1) r.0.id
        (a.window_minutes * minute_in_ms) (window_start a r) (window_end a r)

abbrev pub both_lists :
    Option (List TemporalSlot) → Option (List TemporalSlot) → Option (List TemporalSlot)
both_lists none b = none
both_lists (some l) none = none
both_lists (some l) (some k) = some (l ++ k)

unfoldable pub windows_of_shifts : ZonedArgs → List (ShiftLike × ℕ) → Option (List TemporalSlot)
unfolding shift_windows
windows_of_shifts a [] = some []
windows_of_shifts a (r ∷ rs) = both_lists (shift_windows a r) (windows_of_shifts a rs)

abbrev pub by_start : TemporalSlot → TemporalSlot → Bool
by_start a b = leb a.start b.start

abbrev pub sorted_slots : Option (List TemporalSlot) → Option (List TemporalSlot)
sorted_slots none = none
sorted_slots (some slots) = some (sort by_start slots)

-- The slots in the zone, for a window that is not empty.
unfoldable pub zoned_slots : ZonedArgs → Option (List TemporalSlot)
unfolding determine_relevant_shifts windows_of_shifts
zoned_slots a = sorted_slots (windows_of_shifts a (determine_relevant_shifts a.shifts a.date))

pub data PolicyAnswer : Type 0 where
  unknown_zone out_of_fuel : PolicyAnswer
  slots : List TemporalSlot → PolicyAnswer

abbrev pub answer_of : Option (List TemporalSlot) → PolicyAnswer
answer_of none = PolicyAnswer.out_of_fuel
answer_of (some l) = PolicyAnswer.slots l

unfoldable pub in_zone : GenerateSlotsArgs → Option TimeZone → PolicyAnswer
unfolding zoned_slots
in_zone a none = PolicyAnswer.unknown_zone
in_zone a (some zone) = answer_of (zoned_slots (zoned a zone))

unfoldable pub generate_policy_slots : GenerateSlotsArgs → PolicyAnswer
unfolding in_zone
generate_policy_slots a =
    if leb a.window_minutes 0 then PolicyAnswer.slots [] else in_zone a a.timezone

-- `intervalsOverlap`
abbrev pub intervals_overlap : ℕ → ℕ → ℕ → ℕ → Bool
intervals_overlap a_start a_end b_start b_end = ltb a_start b_end && ltb b_start a_end
