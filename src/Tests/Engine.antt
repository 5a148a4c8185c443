-- ===== src/Tests/Engine.antt =====
-- The engine at a restaurant of two tables that is open on one evening, in UTC.
use restaurant_reservation_s.Prelude.{
  ℕ, ◌+◌, ◌*◌, ◌/◌, ◌-◌, ◌≤◌, ◌≡◌, refl, true, false, none, some, List, [], ◌∷◌, inl, arith,
  contains, string_eq, map, sum_by, nat_eq,
}
use restaurant_reservation_s.Time.{
  Zone, Clock, clock_eq, from_utc, day_of_week_tz, start_of_day_tz, weekday, time_to_minutes,
  minutes_to_time, to_utc, overlaps,
}
use restaurant_reservation_s.Engine.Types.{
  Shift, ServiceBuffer, PacingRule, AvailabilityRule, Table, BookedReservation, EngineInput,
  EngineOutput, AvailabilitySlot, OccupancySlot,
}
use restaurant_reservation_s.Engine.Timeline.{
  build_base_timeline, timeline_from, day_slots, shift_slots, shift_end, slot_times,
  format_shift_time, apply_blackouts, apply_service_buffer,
}
use restaurant_reservation_s.Engine.Timeline.Laws.{FromShift}
use restaurant_reservation_s.Engine.Rules.{pick_rule, pick_from}
use restaurant_reservation_s.Engine.Rules.Laws.{IsBestRule, pick_rule-IsBestRule}
use restaurant_reservation_s.Engine.Occupancy.{
  compute_occupied_tables, occupancy_slot, occupy_reservations, occupy_reservation, occupy_holds,
  occupy_hold,
}
use restaurant_reservation_s.Engine.Pacing.{
  bucketize_time, pace_by_limit, apply_pacing_rules, usage, most_restrictive,
}
use restaurant_reservation_s.Engine.Pacing.Laws.{bucketize_time-next_day}
use restaurant_reservation_s.Engine.Pacing.Limit.{offering_in, pace_by_limit-le-limit}
use restaurant_reservation_s.Engine.Compute.{
  compute_availability, format_slot, summarise, offer_for_party, offer_slots, base_timeline,
  open_times,
}
use restaurant_reservation_s.Engine.Compute.Laws.{
  IsSound, compute_availability_total, compute_availability-IsSound, compute_availability-open,
}

abbrev utc : Zone
utc = record { from_zoned = λ w. w * 60_000; to_zoned = λ t. t / 60_000 }

-- Day 0 is a Thursday: from 18:00 to 19:00.
abbrev evening : Shift
evening = record {
  id = "s1";
  dow = 4;
  starts_at_local = 64_800_000;
  ends_at_local = 68_400_000;
  is_active = true;
}

abbrev small : AvailabilityRule
small = record {
  min_party_size = 1;
  max_party_size = 4;
  slot_length_minutes = 90;
  buffer_minutes = 0;
}

abbrev window : Table
window = record { id = "t1"; label = "T1"; capacity = 4; area = none; zone = none }

abbrev corner : Table
corner = record { id = "t2"; label = "T2"; capacity = 2; area = none; zone = none }

-- A party of two at the corner table from 18:00.
abbrev early : BookedReservation
early = record {
  id = "r1";
  table_ids = "t2" ∷ [];
  slot_start_utc = 64_800_000;
  duration_minutes = 90;
  party_size = 2;
}

abbrev lead : ServiceBuffer
lead = record { before_minutes = 60; after_minutes = 0 }

abbrev request : EngineInput
request = record {
  timezone = utc;
  turn_time_min = 0;
  start_date = 0;
  end_date = none;
  party_size = 2;
  slot_interval_minutes = some 30;
  shifts = evening ∷ [];
  availability_rules = small ∷ [];
  blackout_dates = [];
  pacing_rules = [];
  service_buffer = some lead;
  tables = window ∷ corner ∷ [];
  reservations = early ∷ [];
  holds = [];
  now = 61_200_000;
}

abbrev offered : ℕ → Clock → AvailabilitySlot
offered start time = record {
  start_utc = start;
  end_utc = start + 5_400_000;
  local_date = 0;
  local_time = time;
  duration_minutes = 90;
  capacity_total = 2;
  capacity_available = 1;
  available_tables = window ∷ [];
  is_pacing_constrained = false;
  pacing_used = 0;
  pacing_limit = none;
}

abbrev first_slot : AvailabilitySlot
first_slot = offered 64_800_000 (record { hours = 18; minutes = 0 })

abbrev answer : EngineOutput
answer = record {
  slots = first_slot ∷ offered 66_600_000 (record { hours = 18; minutes = 30 }) ∷ [];
  total_slots = 2;
  available_slots = 2;
  blocked_slots = 0;
}

answer_is : compute_availability request ≡ some answer
unfolding compute_availability build_base_timeline timeline_from day_slots shift_slots shift_end
    slot_times format_shift_time day_of_week_tz start_of_day_tz weekday time_to_minutes
    minutes_to_time to_utc from_utc overlaps pick_rule pick_from apply_pacing_rules most_restrictive
    pace_by_limit apply_service_buffer apply_blackouts format_slot summarise offer_for_party
    offer_slots occupancy_slot compute_occupied_tables occupy_reservations occupy_reservation
    occupy_holds occupy_hold
answer_is = refl

compute_availability-IsSound_example :
    (times : List ℕ) × (base_timeline request ≡ some times)
    × IsSound request (open_times request times) first_slot
compute_availability-IsSound_example =
    compute_availability-IsSound request answer_is first_slot (inl refl)

compute_availability-open_example :
    (contains (map (λ bd. bd.date) request.blackout_dates) (from_utc 64_800_000 utc).date ≡ false)
    × (61_200_000 + 60 * 60_000 ≤ 64_800_000)
    × FromShift utc 0 0 30 (evening ∷ []) 64_800_000
compute_availability-open_example =
    compute_availability-open request answer_is first_slot lead refl (inl refl)

compute_availability_total_example :
    (out : EngineOutput) × (compute_availability request ≡ some out)
compute_availability_total_example = compute_availability_total request (omega arith)

timeline_is : build_base_timeline utc 0 0 (evening ∷ []) 30 ≡ some (64_800_000 ∷ 66_600_000 ∷ [])
unfolding build_base_timeline timeline_from day_slots shift_slots shift_end slot_times
    format_shift_time day_of_week_tz start_of_day_tz weekday time_to_minutes to_utc
timeline_is = refl

pick_rule-IsBestRule_example :
    IsBestRule
      (small ∷ record small { min_party_size = 2 } ∷ [])
      2
      (pick_rule (small ∷ record small { min_party_size = 2 } ∷ []) 2)
pick_rule-IsBestRule_example =
    pick_rule-IsBestRule (small ∷ record small { min_party_size = 2 } ∷ []) 2

abbrev first_open : OccupancySlot
first_open = record {
  start_utc = 64_800_000;
  duration_minutes = 90;
  available_tables = window ∷ [];
  occupied_tables = "t2" ∷ [];
  slot_end = 70_200_000;
}

abbrev two_open : List OccupancySlot
two_open = first_open ∷ record first_open { start_utc = 66_600_000 } ∷ []

abbrev at_six : Clock
at_six = record { hours = 18; minutes = 0 }

pace_by_limit-le-limit_example :
    sum_by (offering_in 60 at_six) (pace_by_limit (some 2, 60) two_open (early ∷ []) [])
    ≤ 2 - usage 60 at_six (early ∷ []) []
pace_by_limit-le-limit_example = pace_by_limit-le-limit 60 2 at_six (early ∷ []) [] two_open

abbrev one_an_hour : PacingRule
one_an_hour = record { window_minutes = 60; max_reservations = some 1; max_covers = none }

bucketize_time-next_day_example :
    bucketize_time (64_800_000 + 1 * 86_400_000) 60 ≡ bucketize_time 64_800_000 60
bucketize_time-next_day_example = bucketize_time-next_day 64_800_000 60 1
