-- ===== src/Engine/Timeline.antt =====
-- `buildBaseTimeline`, `applyBlackouts`, `applyServiceBuffer`. The date cursor is a day number,
-- as it is where the host's own time zone is UTC.
pub mod Laws
use restaurant_reservation_s.Prelude.{
  ℕ, zero, suc, ◌+◌, ◌-◌, ◌*◌, ◌/◌, ◌%◌, Bool, true, false, ◌&&◌, not, Option, none, some, List, [],
  ◌∷◌, ◌++◌, map, filter, any, contains, ltb, leb, ◌==◌, nat_eq, if◌then◌else◌,
}
use restaurant_reservation_s.Time.{
  Clock, Zone, LocalTime, minute_ms, day_minutes, time_to_minutes, to_utc, from_utc, day_of_week_tz,
  add_minutes_tz,
}
use restaurant_reservation_s.Engine.Types.{Shift, BlackoutDate, ServiceBuffer}

-- `getUTCHours` and `getUTCMinutes` of a `Time` column.
unfoldable pub format_shift_time : ℕ → Clock
format_shift_time value = record { hours = value / 3_600_000 % 24; minutes = value / 60_000 % 60 }

-- `while (slotTime < endTime_ms) { slots.push(slotTime); slotTime += interval; }` with fuel;
-- `none` means that the fuel ran out.
unfoldable pub slot_times : ℕ → ℕ → ℕ → ℕ → Option (List ℕ)
slot_times zero step slot_time end_time = none
slot_times (suc fuel) step slot_time end_time =
    let rest = slot_times fuel step (slot_time + step) end_time in
    elim (ltb slot_time end_time) [
      | true ↦ elim rest [ none ↦ none | some l ↦ some (slot_time ∷ l) ]
      | false ↦ some []
    ]

unfoldable pub shift_end : ℕ → Clock → Clock → Zone → ℕ
shift_end date start_time end_time zone =
    let shift_end_utc = to_utc date end_time zone in
    if leb (time_to_minutes end_time) (time_to_minutes start_time)
    then add_minutes_tz shift_end_utc (24 * 60) zone
    else shift_end_utc

-- The slots of one shift on one date. The fuel is one more than the shift's milliseconds.
unfoldable pub shift_slots : Zone → ℕ → ℕ → Shift → Option (List ℕ)
unfolding shift_end format_shift_time
shift_slots zone interval_minutes date shift =
    let start_time = format_shift_time shift.starts_at_local in
    let end_time = format_shift_time shift.ends_at_local in
    let shift_start = to_utc date start_time zone in
    let end_ms = shift_end date start_time end_time zone in
    slot_times (end_ms - shift_start + 1) (interval_minutes * minute_ms) shift_start end_ms

-- One loop after another: the first that does not end stops the rest.
abbrev pub join : Option (List ℕ) → Option (List ℕ) → Option (List ℕ)
join none b = none
join (some a) none = none
join (some a) (some b) = some (a ++ b)

unfoldable pub day_slots : Zone → ℕ → ℕ → List Shift → Option (List ℕ)
day_slots zone interval_minutes date [] = some []
day_slots zone interval_minutes date (s ∷ ss) =
    join (shift_slots zone interval_minutes date s) (day_slots zone interval_minutes date ss)

abbrev pub shifts_of_day : Zone → ℕ → List Shift → List Shift
shifts_of_day zone date = filter (λ s. s.dow == day_of_week_tz date zone && s.is_active)

-- The loop over the dates, by the number of days left.
unfoldable pub timeline_from : Zone → ℕ → List Shift → ℕ → ℕ → Option (List ℕ)
timeline_from zone interval_minutes shifts date zero = some []
timeline_from zone interval_minutes shifts date (suc days) =
    join (day_slots zone interval_minutes date (shifts_of_day zone date shifts))
      (timeline_from zone interval_minutes shifts (date + 1) days)

unfoldable pub build_base_timeline : Zone → ℕ → ℕ → List Shift → ℕ → Option (List ℕ)
build_base_timeline zone start_date end_date shifts interval_minutes =
    timeline_from zone interval_minutes shifts start_date (end_date + 1 - start_date)

unfoldable pub apply_blackouts : List ℕ → List BlackoutDate → Zone → List ℕ
apply_blackouts slots blackout_dates zone =
    filter (λ slot. not (contains (map (λ bd. bd.date) blackout_dates) (from_utc slot zone).date))
      slots

unfoldable pub apply_service_buffer : List ℕ → Option ServiceBuffer → ℕ → List ℕ
apply_service_buffer slots none now = slots
apply_service_buffer slots (some buffer) now =
    let lead_ms = buffer.before_minutes * minute_ms in
    filter (λ slot. leb (now + lead_ms) slot) slots
