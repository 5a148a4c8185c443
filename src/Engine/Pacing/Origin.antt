-- ===== src/Engine/Pacing/Origin.antt =====
-- Each slot after pacing comes from a slot before it, and offers none but its tables.
use restaurant_reservation_s.Prelude.{
  ℕ, ◌+◌, ◌-◌, ◌≡◌, refl, ap, ◌⊎◌, inl, inr, none, some, List, [], ◌∷◌, arith, leb, ◌==◌, In,
  In-append, of_In-sort, of_In-map, Bool-cases, Never,
}
use restaurant_reservation_s.Time.{Clock, clock_eq}
use restaurant_reservation_s.Engine.Types.{
  PacingRule, BookedReservation, BookedHold, OccupancySlot, PacedSlot, Table,
}
use restaurant_reservation_s.Engine.Pacing.{
  bucketize_time, Limit, most_restrictive, Windows, push_slot, group_windows, usage, has_tables,
  pace_window, pace_windows, unpaced, starts_by, pace_by_limit, apply_pacing_rules,
}

-- `s` starts when `o` does, lasts as long, and its tables are among those of `o`.
pub record Offers (o : OccupancySlot) (s : PacedSlot) : Type 0 where
  pub start : s.start_utc ≡ o.start_utc
  pub duration : s.duration_minutes ≡ o.duration_minutes
  pub tables : (t : Table) → In t s.available_tables → In t o.available_tables

abbrev pub ComesFrom : List OccupancySlot → PacedSlot → Type 0
ComesFrom ss s = (o : OccupancySlot) × In o ss × Offers o s

abbrev InWindows : OccupancySlot → Windows → Type 0
InWindows o [] = Never
InWindows o ((k, b) ∷ ws) = In o b ⊎ InWindows o ws

InWindows-push_slot :
    (o : OccupancySlot) (key : Clock) (s : OccupancySlot) (ws : Windows)
    → InWindows o (push_slot key s ws)
    → (o ≡ s) ⊎ InWindows o ws
unfolding push_slot
InWindows-push_slot o key s [] i = ground arith
InWindows-push_slot o key s ((k, b) ∷ ws) i = elim (Bool-cases (k == key)) [
  | inl e ↦ ground (arith, In-append o b (s ∷ []))
  | inr e ↦ ground (arith, InWindows-push_slot o key s ws)
]

InWindows-group :
    (o : OccupancySlot) (w : ℕ) (ws : Windows) (ss : List OccupancySlot)
    → InWindows o (group_windows w ws ss)
    → InWindows o ws ⊎ In o ss
unfolding group_windows
InWindows-group o w ws [] i = inl i
InWindows-group o w ws (s ∷ ss) i = ground (
  arith,
  InWindows-group o w (push_slot (bucketize_time s.start_utc w) s ws) ss,
  InWindows-push_slot o (bucketize_time s.start_utc w) s ws,
)

pace_window-Offers :
    (m used remaining included : ℕ) (ss : List OccupancySlot) (s : PacedSlot)
    → In s (pace_window m used remaining included ss)
    → ComesFrom ss s
unfolding pace_window
pace_window-Offers m used remaining included [] s i = elim i [ ]
pace_window-Offers m used remaining included (o ∷ ss) s (inl e) = (
  o,
  inl refl,
  record {
    start = ap (λ x. x.start_utc) e;
    duration = ap (λ x. x.duration_minutes) e;
    tables = λ t. kept t;
  },
)
  where
    kept : (t : Table) → In t s.available_tables → In t o.available_tables
    kept t j = elim (Bool-cases (leb remaining included)) [
      | inl full ↦ ground arith
      | inr free ↦ ground arith
    ]
pace_window-Offers m used remaining included (o ∷ ss) s (inr i) =
    let w = pace_window-Offers m used remaining (included + has_tables o) ss s i in
    (w.0, inr w.1, w.2)

pace_windows-Offers :
    (m w : ℕ) (rs : List BookedReservation) (hs : List BookedHold) (ws : Windows) (s : PacedSlot)
    → In s (pace_windows m w rs hs ws)
    → (o : OccupancySlot) × InWindows o ws × Offers o s
unfolding pace_windows
pace_windows-Offers m w rs hs [] s i = elim i [ ]
pace_windows-Offers m w rs hs ((k, b) ∷ ws) s i =
    elim (In-append s (pace_window m (usage w k rs hs) (m - usage w k rs hs) 0 b) _ i) [
      | inl j ↦
          let v = pace_window-Offers m (usage w k rs hs) (m - usage w k rs hs) 0 b s j in
          (v.0, inl v.1, v.2)
      | inr j ↦ let v = pace_windows-Offers m w rs hs ws s j in (v.0, inr v.1, v.2)
    ]

pace_by_limit-ComesFrom :
    (l : Limit) (ss : List OccupancySlot) (rs : List BookedReservation) (hs : List BookedHold)
    (s : PacedSlot)
    → In s (pace_by_limit l ss rs hs)
    → ComesFrom ss s
unfolding pace_by_limit unpaced
pace_by_limit-ComesFrom (none, w) ss rs hs s i =
    let v = of_In-map unpaced s ss i in
    (
      v.0,
      v.1,
      record {
        start = ap (λ x. x.start_utc) v.2;
        duration = ap (λ x. x.duration_minutes) v.2;
        tables = λ t j. rw (ap (λ x. x.available_tables) v.2) at j;
      },
    )
pace_by_limit-ComesFrom (some m, w) ss rs hs s i =
    let v = pace_windows-Offers m w rs hs (group_windows w [] ss) s (of_In-sort starts_by s _ i) in
    elim (InWindows-group v.0 w [] ss v.1) [ inl j ↦ elim j [ ] | inr j ↦ (v.0, j, v.2) ]

pub apply_pacing_rules-ComesFrom :
    (ss : List OccupancySlot) (rules : List PacingRule) (rs : List BookedReservation)
    (hs : List BookedHold) (s : PacedSlot)
    → In s (apply_pacing_rules ss rules rs hs)
    → ComesFrom ss s
unfolding apply_pacing_rules
apply_pacing_rules-ComesFrom ss rules rs hs s i =
    pace_by_limit-ComesFrom (most_restrictive (none, 15) rules) ss rs hs s i
