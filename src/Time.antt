-- ===== src/Time.antt =====
-- apps/api/src/common/time.ts. An instant (`Date`) is its milliseconds since 1970, a date text
-- "YYYY-MM-DD" its day number since 1970-01-01, and a text "HH:mm" its two numbers. `date-fns-tz`
-- is the parameter `Zone`: a wall clock reading is its minutes since the start of day 0.
pub mod Laws
use restaurant_reservation_s.Prelude.{
  ℕ, ◌+◌, ◌-◌, ◌*◌, ◌/◌, ◌%◌, ◌≡◌, Bool, true, ◌&&◌, ◌||◌, ◌↔◌, arith, ltb, Eq, ◌==◌, ◌!=◌, nat_eq,
  if◌then◌else◌,
}

abbrev pub minute_ms : ℕ
minute_ms = 60_000

abbrev pub day_minutes : ℕ
day_minutes = 1440

-- A text "HH:mm".
pub record Clock : Type 0 where
  pub hours : ℕ
  pub minutes : ℕ

abbrev pub clock_beq : Clock → Clock → Bool
clock_beq a b = a.hours == b.hours && a.minutes == b.minutes

pub clock_beq_iff : (a b : Clock) → (clock_beq a b ≡ true) ↔ (a ≡ b)
clock_beq_iff a b = ground arith

instance abbrev pub clock_eq : Eq Clock
clock_eq = record { beq = clock_beq; beq_iff = clock_beq_iff }

-- `fromZonedTime` and `toZonedTime` of one time zone.
pub record Zone : Type 0 where
  pub from_zoned : ℕ → ℕ
  pub to_zoned : ℕ → ℕ

pub record LocalTime : Type 0 where
  pub date : ℕ
  pub time : Clock

unfoldable pub time_to_minutes : Clock → ℕ
time_to_minutes c = c.hours * 60 + c.minutes

unfoldable pub minutes_to_time : ℕ → Clock
minutes_to_time m = record { hours = m / 60; minutes = m % 60 }

-- Day 0 is a Thursday.
unfoldable pub weekday : ℕ → ℕ
weekday day = (day + 4) % 7

unfoldable pub to_utc : ℕ → Clock → Zone → ℕ
to_utc date time zone = zone.from_zoned (date * day_minutes + (time.hours * 60 + time.minutes))

unfoldable pub from_utc : ℕ → Zone → LocalTime
unfolding minutes_to_time
from_utc utc zone =
    let wall = zone.to_zoned utc in
    record { date = wall / day_minutes; time = minutes_to_time (wall % day_minutes) }

unfoldable pub start_of_day_tz : ℕ → Zone → ℕ
start_of_day_tz date zone = zone.from_zoned (date * day_minutes)

unfoldable pub day_of_week_tz : ℕ → Zone → ℕ
unfolding start_of_day_tz weekday
day_of_week_tz date zone = weekday (zone.to_zoned (start_of_day_tz date zone) / day_minutes)

-- The second try of `addMinutesTz`, where the wall clock reading asked for does not exist.
adjusted : ℕ → Clock → Clock → Zone → ℕ → ℕ
unfolding time_to_minutes
adjusted wall actual expected zone new_utc =
    let actual_mins = time_to_minutes actual in
    let expected_mins = time_to_minutes expected in
    if ltb actual_mins expected_mins
    then zone.from_zoned (wall + (expected_mins - actual_mins))
    else new_utc

unfoldable pub add_minutes_tz : ℕ → ℕ → Zone → ℕ
unfolding from_utc adjusted minutes_to_time
add_minutes_tz utc minutes zone =
    let wall = zone.to_zoned utc + minutes in
    let new_utc = zone.from_zoned wall in
    let actual = from_utc new_utc zone in
    let expected_date = wall / day_minutes in
    let expected_time = minutes_to_time (wall % day_minutes) in
    if actual.date != expected_date || actual.time != expected_time
    then adjusted wall actual.time expected_time zone new_utc
    else new_utc

unfoldable pub overlaps : ℕ → ℕ → ℕ → ℕ → Bool
overlaps a_start a_end b_start b_end = ltb a_start b_end && ltb b_start a_end
