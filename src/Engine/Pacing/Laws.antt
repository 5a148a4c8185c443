-- ===== src/Engine/Pacing/Laws.antt =====
-- What pacing keeps and what it takes away.
use restaurant_reservation_s.Prelude.{
  ℕ, ◌+◌, ◌-◌, ◌*◌, ◌/◌, ◌≡◌, refl, ap, inl, inr, none, some, List, [], ◌∷◌, ◌++◌, map, arith,
  tests, ◌==◌, nat_eq, sum_by, sum_by-sort, sort-IsSorted, IsSorted, Bool-cases,
}
use restaurant_reservation_s.Time.{Clock, clock_eq, minutes_to_time}
use restaurant_reservation_s.Engine.Types.{
  PacingRule, BookedReservation, BookedHold, OccupancySlot, PacedSlot,
}
use restaurant_reservation_s.Engine.Pacing.{
  bucketize_time, Limit, most_restrictive, Windows, push_slot, group_windows, usage, one_if_any,
  has_tables, pace_window, pace_windows, unpaced, starts_by, pace_by_limit, apply_pacing_rules,
  minute_of_day,
}

-- The slots of a paced list that still offer a table.
abbrev pub offering : PacedSlot → ℕ
offering slot = one_if_any slot.available_tables

pub sum_by-append {ℓ} :
    {A : Type ℓ} (f : A → ℕ) (xs ys : List A) → sum_by f (xs ++ ys) ≡ sum_by f xs + sum_by f ys
sum_by-append f [] ys = omega arith
sum_by-append f (x ∷ xs) ys = omega (arith, sum_by-append f xs ys)

-- A measure of the start times is the same over the windows as over the slots.
window_sum : (ℕ → ℕ) → Windows → ℕ
window_sum f [] = 0
window_sum f ((k, b) ∷ ws) = sum_by (λ s. f s.start_utc) b + window_sum f ws

window_sum-push_slot :
    (f : ℕ → ℕ) (key : Clock) (s : OccupancySlot) (ws : Windows)
    → window_sum f (push_slot key s ws) ≡ f s.start_utc + window_sum f ws
unfolding window_sum push_slot
window_sum-push_slot f key s [] = omega arith
window_sum-push_slot f key s ((k, b) ∷ ws) = elim (Bool-cases (k == key)) [
  | inl e ↦ rw e (omega (arith, sum_by-append (λ (x : OccupancySlot). f x.start_utc) b (s ∷ [])))
  | inr e ↦ rw e (omega (arith, window_sum-push_slot f key s ws))
]

window_sum-group :
    (f : ℕ → ℕ) (w : ℕ) (ws : Windows) (ss : List OccupancySlot)
    → window_sum f (group_windows w ws ss) ≡ window_sum f ws + sum_by (λ s. f s.start_utc) ss
unfolding group_windows
window_sum-group f w ws [] = omega arith
window_sum-group f w ws (s ∷ ss) = omega (
  arith,
  window_sum-group f w (push_slot (bucketize_time s.start_utc w) s ws) ss,
  window_sum-push_slot f (bucketize_time s.start_utc w) s ws,
)

pace_window-sum :
    (f : ℕ → ℕ) (m used r i : ℕ) (ss : List OccupancySlot)
    → sum_by (λ s. f s.start_utc) (pace_window m used r i ss) ≡ sum_by (λ s. f s.start_utc) ss
unfolding pace_window
pace_window-sum f m used r i [] = refl
pace_window-sum f m used r i (s ∷ ss) =
    ap (λ n. f s.start_utc + n) (pace_window-sum f m used r (i + has_tables s) ss)

pace_windows-sum :
    (f : ℕ → ℕ) (m w : ℕ) (rs : List BookedReservation) (hs : List BookedHold) (ws : Windows)
    → sum_by (λ s. f s.start_utc) (pace_windows m w rs hs ws) ≡ window_sum f ws
unfolding pace_windows window_sum
pace_windows-sum f m w rs hs [] = refl
pace_windows-sum f m w rs hs ((k, b) ∷ ws) = omega (
  arith,
  sum_by-append (λ (x : PacedSlot). f x.start_utc)
      (pace_window m (usage w k rs hs) (m - usage w k rs hs) 0 b) (pace_windows m w rs hs ws),
  pace_window-sum f m (usage w k rs hs) (m - usage w k rs hs) 0 b,
  pace_windows-sum f m w rs hs ws,
)

map-unpaced-sum :
    (f : ℕ → ℕ) (ss : List OccupancySlot)
    → sum_by (λ s. f s.start_utc) (map unpaced ss) ≡ sum_by (λ s. f s.start_utc) ss
unfolding unpaced
map-unpaced-sum f [] = refl
map-unpaced-sum f (s ∷ ss) = ap (λ n. f s.start_utc + n) (map-unpaced-sum f ss)

-- Pacing neither loses a slot nor makes one up: every count of start times is the same after it as
-- before, whatever the rules.
pub apply_pacing_rules-keeps_starts :
    (f : ℕ → ℕ) (ss : List OccupancySlot) (rules : List PacingRule) (rs : List BookedReservation)
    (hs : List BookedHold)
    → sum_by (λ s. f s.start_utc) (apply_pacing_rules ss rules rs hs)
      ≡ sum_by (λ s. f s.start_utc) ss
unfolding apply_pacing_rules window_sum
apply_pacing_rules-keeps_starts f ss rules rs hs = keeps (most_restrictive (none, 15) rules)
  where
    keeps :
        (l : Limit)
        → sum_by (λ s. f s.start_utc) (pace_by_limit l ss rs hs) ≡ sum_by (λ s. f s.start_utc) ss
    keeps (none, w) = map-unpaced-sum f ss
    keeps (some m, w) = omega (
      arith,
      sum_by-sort starts_by (λ (x : PacedSlot). f x.start_utc)
          (pace_windows m w rs hs (group_windows w [] ss)),
      pace_windows-sum f m w rs hs (group_windows w [] ss),
      window_sum-group f w [] ss,
    )

-- Under a limit the slots come back in the order of their starts.
pub pace_by_limit-IsSorted :
    (m w : ℕ) (ss : List OccupancySlot) (rs : List BookedReservation) (hs : List BookedHold)
    → IsSorted starts_by (pace_by_limit (some m, w) ss rs hs)
unfolding pace_by_limit
pace_by_limit-IsSorted m w ss rs hs =
    sort-IsSorted starts_by (λ x y z p q. omega tests) (λ x y p. ground arith)
      (pace_windows m w rs hs (group_windows w [] ss))

-- The key of a pacing window is a time of day: two instants whole days apart have the same key.
pub bucketize_time-next_day :
    (t window_minutes days : ℕ)
    → bucketize_time (t + days * 86_400_000) window_minutes ≡ bucketize_time t window_minutes
unfolding bucketize_time
bucketize_time-next_day t window_minutes days =
    ap (λ n. minutes_to_time (n / window_minutes * window_minutes)) same
  where
    same : minute_of_day (t + days * 86_400_000) ≡ minute_of_day t
    same = omega arith
