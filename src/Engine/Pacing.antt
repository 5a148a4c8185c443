-- ===== src/Engine/Pacing.antt =====
-- `applyPacingRules` and `bucketizeTime`. `none` stands for `Number.POSITIVE_INFINITY`; the `Map`
-- of windows is a list of its entries in the order of insertion.
pub mod Laws
pub mod Limit
pub mod Origin
use restaurant_reservation_s.Prelude.{
  ℕ, ◌+◌, ◌-◌, ◌*◌, ◌/◌, ◌%◌, Bool, true, false, ◌&&◌, not, Option, none, some, List, [], ◌∷◌, ◌++◌,
  map, filter, length, ltb, leb, ◌==◌, nat_eq, if◌then◌else◌, or_else, sort,
}
use restaurant_reservation_s.Time.{Clock, clock_eq, minutes_to_time}
use restaurant_reservation_s.Engine.Types.{
  PacingRule, BookedReservation, BookedHold, OccupancySlot, PacedSlot, Table,
}

-- `new Date(t).getUTCHours() * 60 + new Date(t).getUTCMinutes()`
abbrev pub minute_of_day : ℕ → ℕ
minute_of_day t = (t / 3_600_000 % 24) * 60 + t / 60_000 % 60

unfoldable pub bucketize_time : ℕ → ℕ → Clock
unfolding minutes_to_time
bucketize_time t window_minutes =
    minutes_to_time (minute_of_day t / window_minutes * window_minutes)

-- `n || 15`
abbrev pub or_fifteen : ℕ → ℕ
or_fifteen n = if n == 0 then 15 else n

-- The most restrictive rule: its limit, and its window.
abbrev pub Limit : Type 0
Limit = Option ℕ × ℕ

abbrev pub below_limit : ℕ → Option ℕ → Bool
below_limit n none = true
below_limit n (some m) = ltb n m

-- `rule.maxReservations && rule.maxReservations < maxReservations`
abbrev pub restrict : Limit → PacingRule → Limit
restrict l rule = elim rule.max_reservations [
  | none ↦ l
  | some n ↦
      if not (n == 0) && below_limit n l.0 then (some n, or_fifteen rule.window_minutes) else l
]

unfoldable pub most_restrictive : Limit → List PacingRule → Limit
most_restrictive l [] = l
most_restrictive l (rule ∷ rules) = most_restrictive (restrict l rule) rules

abbrev pub Windows : Type 0
Windows = List (Clock × List OccupancySlot)

-- `bucket.push(slot)` in the window's entry, or a new entry at the end.
unfoldable pub push_slot : Clock → OccupancySlot → Windows → Windows
push_slot key slot [] = (key, slot ∷ []) ∷ []
push_slot key slot ((k, bucket) ∷ ws) =
    if k == key then (k, bucket ++ slot ∷ []) ∷ ws else (k, bucket) ∷ push_slot key slot ws

unfoldable pub group_windows : ℕ → Windows → List OccupancySlot → Windows
group_windows window_minutes ws [] = ws
group_windows window_minutes ws (slot ∷ slots) =
    group_windows window_minutes (push_slot (bucketize_time slot.start_utc window_minutes) slot ws)
      slots

-- How many bookings start in a window, the entry of `usageMap`.
abbrev pub usage : ℕ → Clock → List BookedReservation → List BookedHold → ℕ
usage window_minutes key reservations holds =
    length (filter (λ r. bucketize_time r.slot_start_utc window_minutes == key) reservations)
    + length (filter (λ h. bucketize_time h.slot_start_utc window_minutes == key) holds)

-- `tables.length > 0`, as the number that `included` grows by.
abbrev pub one_if_any : List Table → ℕ
one_if_any [] = 0
one_if_any (t ∷ ts) = 1

abbrev pub has_tables : OccupancySlot → ℕ
has_tables slot = one_if_any slot.available_tables

-- The loop over the slots of one window.
unfoldable pub pace_window : ℕ → ℕ → ℕ → ℕ → List OccupancySlot → List PacedSlot
pace_window max_reservations used remaining included [] = []
pace_window max_reservations used remaining included (slot ∷ slots) =
    record {
      start_utc = slot.start_utc;
      duration_minutes = slot.duration_minutes;
      available_tables = if leb remaining included then [] else slot.available_tables;
      is_pacing_constrained = leb remaining included;
      pacing_used = used + included;
      pacing_limit = some max_reservations;
    }
    ∷ pace_window max_reservations used remaining (included + has_tables slot) slots

unfoldable pub pace_windows :
    ℕ → ℕ → List BookedReservation → List BookedHold → Windows → List PacedSlot
unfolding pace_window
pace_windows max_reservations window_minutes reservations holds [] = []
pace_windows max_reservations window_minutes reservations holds ((key, slots) ∷ ws) =
    (let used = usage window_minutes key reservations holds in
      pace_window max_reservations used (max_reservations - used) 0 slots)
    ++ pace_windows max_reservations window_minutes reservations holds ws

unpaced : OccupancySlot → PacedSlot
unpaced s = record {
  start_utc = s.start_utc;
  duration_minutes = s.duration_minutes;
  available_tables = s.available_tables;
  is_pacing_constrained = false;
  pacing_used = 0;
  pacing_limit = none;
}

abbrev pub starts_by : PacedSlot → PacedSlot → Bool
starts_by a b = leb a.start_utc b.start_utc

unfoldable pub pace_by_limit :
    Limit → List OccupancySlot → List BookedReservation → List BookedHold → List PacedSlot
unfolding unpaced
pace_by_limit (none, window_minutes) slots reservations holds = map unpaced slots
pace_by_limit (some max_reservations, window_minutes) slots reservations holds = sort starts_by (
    pace_windows max_reservations window_minutes reservations holds
      (group_windows window_minutes [] slots))

unfoldable pub apply_pacing_rules :
    List OccupancySlot → List PacingRule → List BookedReservation → List BookedHold → List PacedSlot
unfolding pace_by_limit most_restrictive
apply_pacing_rules slots pacing_rules reservations holds =
    pace_by_limit (most_restrictive (none, 15) pacing_rules) slots reservations holds
