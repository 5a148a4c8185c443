-- ===== src/Engine/Timeline/Laws.antt =====
-- The slots of a shift, the loops' termination, and what blackouts and the lead time take away.
use restaurant_reservation_s.Prelude.{
  ℕ, zero, suc, ◌+◌, ◌-◌, ◌*◌, ◌≤◌, ◌<◌, ◌≡◌, refl, sym, subst, ◌⊎◌, inl, inr, ◌↔◌, true, false,
  ◌&&◌, Option, none, some, List, [], ◌∷◌, ◌++◌, map, arith, tests, contains, ltb, ◌==◌, nat_eq, In,
  In-append, In-filter_of_In, of_In-filter, Bool-cases, Option-cases,
}
use restaurant_reservation_s.Time.{Zone, minute_ms, from_utc, day_of_week_tz, to_utc}
use restaurant_reservation_s.Engine.Types.{Shift, BlackoutDate, ServiceBuffer}
use restaurant_reservation_s.Engine.Timeline.{
  slot_times, shift_end, format_shift_time, shift_slots, join, day_slots, shifts_of_day,
  timeline_from, build_base_timeline, apply_blackouts, apply_service_buffer,
}

-- One round of the loop.
slot_times_round :
    (fuel step s e : ℕ) {l : List ℕ}
    → slot_times (suc fuel) step s e ≡ some l
    → ((e ≤ s) × (l ≡ []))
      ⊎ ((r : List ℕ) × (s < e) × (slot_times fuel step (s + step) e ≡ some r) × (l ≡ s ∷ r))
unfolding slot_times
slot_times_round fuel step s e h = elim (Bool-cases (ltb s e)) [
  | inl more ↦ elim (Option-cases (slot_times fuel step (s + step) e)) [
    | inl out ↦ absurd (ground arith)
    | inr (r, rest) ↦ inr (r, ground arith, rest, ground arith)
  ]
  | inr done ↦ inl (ground arith, ground arith)
]

-- `slotTime < endTime_ms` with a positive step: the loop ends within the milliseconds left.
pub slot_times_total :
    (fuel step s e : ℕ)
    → 0 < step
    → e - s < fuel
    → (l : List ℕ) × (slot_times fuel step s e ≡ some l)
unfolding slot_times
slot_times_total zero step s e p h = elim h [ ]
slot_times_total (suc fuel) step s e p h = elim (Bool-cases (ltb s e)) [
  | inl more ↦
      let rest : (l : List ℕ) × (slot_times fuel step (s + step) e ≡ some l) =
        slot_times_total fuel step (s + step) e p (omega tests) in
      (s ∷ rest.0, ground (arith, rest.1))
  | inr done ↦ ([], ground arith)
]

-- Every slot of the loop is a whole number of steps after the start, and before the end.
pub In-slot_times :
    (fuel step s e t : ℕ) {l : List ℕ}
    → slot_times fuel step s e ≡ some l
    → In t l
    → (k : ℕ) × (t ≡ s + k * step) × (t < e)
unfolding slot_times
In-slot_times zero step s e t h i = absurd (ground arith)
In-slot_times (suc fuel) step s e t {l} h i = elim (slot_times_round fuel step s e h) [
  | inl (_, e') ↦ absurd (ground arith)
  | inr (r, lt, rest, e') ↦ elim (rw e' at i) [
    | inl q ↦ (0, ground arith, ground arith)
    | inr j ↦
        let w : (k : ℕ) × (t ≡ s + step + k * step) × (t < e) =
          In-slot_times fuel step (s + step) e t rest j in
        (w.0 + 1, omega (arith, w.1), w.2)
  ]
]

-- And every such time is a slot.
pub slot_times-has :
    (fuel step s e k : ℕ) {l : List ℕ}
    → slot_times fuel step s e ≡ some l
    → s + k * step < e
    → In (s + k * step) l
unfolding slot_times
slot_times-has zero step s e k h i = absurd (ground arith)
slot_times-has (suc fuel) step s e zero {l} h i = elim (slot_times_round fuel step s e h) [
  | inl (le, _) ↦ absurd (omega arith)
  | inr (r, lt, rest, e') ↦ rw e' (inl (omega arith))
]
slot_times-has (suc fuel) step s e (suc k) {l} h i = elim (slot_times_round fuel step s e h) [
  | inl (le, _) ↦ absurd (grind arith)
  | inr (r, lt, rest, e') ↦
      let eq : s + suc k * step ≡ s + step + k * step = omega arith in
      rw e' (
        inr (
          subst (λ x. In x r) (sym eq)
            (slot_times-has fuel step (s + step) e k rest (omega arith))))
]

shift_slots_total :
    (zone : Zone) (interval date : ℕ) (shift : Shift)
    → 0 < interval
    → (l : List ℕ) × (shift_slots zone interval date shift ≡ some l)
unfolding shift_slots
shift_slots_total zone interval date shift h = slot_times_total _ _ _ _ (omega arith) (omega arith)

join_total :
    (a b : Option (List ℕ))
    → (l : List ℕ) × (a ≡ some l)
    → (l : List ℕ) × (b ≡ some l)
    → (l : List ℕ) × (join a b ≡ some l)
join_total a b (l, p) (m, q) = (l ++ m, ground arith)

day_slots_total :
    (zone : Zone) (interval date : ℕ) (ss : List Shift)
    → 0 < interval
    → (l : List ℕ) × (day_slots zone interval date ss ≡ some l)
unfolding day_slots
day_slots_total zone interval date [] h = ([], refl)
day_slots_total zone interval date (s ∷ ss) h =
    join_total _ _ (shift_slots_total zone interval date s h)
      (day_slots_total zone interval date ss h)

timeline_from_total :
    (zone : Zone) (interval : ℕ) (ss : List Shift) (date days : ℕ)
    → 0 < interval
    → (l : List ℕ) × (timeline_from zone interval ss date days ≡ some l)
unfolding timeline_from
timeline_from_total zone interval ss date zero h = ([], refl)
timeline_from_total zone interval ss date (suc days) h =
    join_total _ _ (day_slots_total zone interval date (shifts_of_day zone date ss) h)
      (timeline_from_total zone interval ss (date + 1) days h)

-- With a positive interval the timeline of any range of dates is built.
pub build_base_timeline_total :
    (zone : Zone) (start_date end_date : ℕ) (ss : List Shift) (interval : ℕ)
    → 0 < interval
    → (l : List ℕ) × (build_base_timeline zone start_date end_date ss interval ≡ some l)
unfolding build_base_timeline
build_base_timeline_total zone start_date end_date ss interval h =
    timeline_from_total zone interval ss start_date (end_date + 1 - start_date) h

-- Where a slot of the timeline comes from: a date of the range, an active shift of its weekday,
-- and a whole number of intervals after the shift's start, before its end.
abbrev pub FromShift : Zone → ℕ → ℕ → ℕ → List Shift → ℕ → Type 0
FromShift zone start_date end_date interval ss t =
    (date : ℕ) × (shift : Shift) × (k : ℕ) × (start_date ≤ date)
    × (date ≤ end_date)
    × In shift ss
    × (shift.is_active ≡ true)
    × (shift.dow ≡ day_of_week_tz date zone)
    × (t ≡ to_utc date (format_shift_time shift.starts_at_local) zone + k * (interval * minute_ms))
    × (t
        < shift_end date (format_shift_time shift.starts_at_local)
            (format_shift_time shift.ends_at_local) zone)

join_cases :
    (a b : Option (List ℕ)) {l : List ℕ} (t : ℕ)
    → join a b ≡ some l
    → In t l
    → ((m : List ℕ) × (a ≡ some m) × In t m) ⊎ ((m : List ℕ) × (b ≡ some m) × In t m)
join_cases none b t h i = absurd (ground arith)
join_cases (some m) none t h i = absurd (ground arith)
join_cases (some m) (some n) {l} t h i =
    let e : l ≡ m ++ n = ground arith in
    elim (In-append t m n (rw e at i)) [ inl j ↦ inl (m, refl, j) | inr j ↦ inr (n, refl, j) ]

In-day_slots :
    (zone : Zone) (interval date : ℕ) (ss : List Shift) {l : List ℕ} (t : ℕ)
    → day_slots zone interval date ss ≡ some l
    → In t l
    → (shift : Shift) × (m : List ℕ) × In shift ss
      × (shift_slots zone interval date shift ≡ some m)
      × In t m
unfolding day_slots
In-day_slots zone interval date [] t h i = absurd (ground arith)
In-day_slots zone interval date (s ∷ ss) {l} t h i =
    elim (join_cases (shift_slots zone interval date s) (day_slots zone interval date ss) t h i) [
      | inl (m, e, j) ↦ (s, m, inl refl, e, j)
      | inr (m, e, j) ↦
          let w : (shift : Shift) × (m : List ℕ) × In shift ss
              × (shift_slots zone interval date shift ≡ some m)
              × In t m =
            In-day_slots zone interval date ss t e j in
          (w.0, w.1, inr w.2, w.3, w.4)
    ]

In-timeline_from :
    (zone : Zone) (interval end_date : ℕ) (ss : List Shift) (date days : ℕ) {l : List ℕ} (t : ℕ)
    → days ≤ end_date + 1 - date
    → timeline_from zone interval ss date days ≡ some l
    → In t l
    → FromShift zone date end_date interval ss t
unfolding timeline_from shift_slots
In-timeline_from zone interval end_date ss date zero t b h i = absurd (ground arith)
In-timeline_from zone interval end_date ss date (suc days) t b h i =
    elim (join_cases (day_slots zone interval date (shifts_of_day zone date ss)) _ t h i) [
      | inl (m, e, j) ↦
          let w : (shift : Shift) × (m : List ℕ) × In shift (shifts_of_day zone date ss)
              × (shift_slots zone interval date shift ≡ some m)
              × In t m =
            In-day_slots zone interval date (shifts_of_day zone date ss) t e j in
          let f : In w.0 ss × ((w.0.dow == day_of_week_tz date zone && w.0.is_active) ≡ true) =
            of_In-filter _ w.0 ss w.2 in
          let k = In-slot_times _ _ _ _ t w.3 w.4 in
          (date, w.0, k.0, omega arith, omega arith, f.0, ground arith, ground arith, k.1, k.2)
      | inr (m, e, j) ↦
          let w : FromShift zone (date + 1) end_date interval ss t =
            In-timeline_from zone interval end_date ss (date + 1) days t (omega arith) e j in
          (w.0, w.1, w.2, omega (arith, w.3), w.4, w.5, w.6, w.7, w.8, w.9)
    ]

-- Each slot of the timeline starts a whole number of intervals into an active shift of the weekday
-- of a date of the range, before the shift's end (the next day's where the shift is overnight).
pub build_base_timeline-FromShift :
    (zone : Zone) (start_date end_date interval : ℕ) (ss : List Shift) {l : List ℕ} (t : ℕ)
    → build_base_timeline zone start_date end_date ss interval ≡ some l
    → In t l
    → FromShift zone start_date end_date interval ss t
unfolding build_base_timeline
build_base_timeline-FromShift zone start_date end_date interval ss t h i =
    In-timeline_from zone interval end_date ss start_date (end_date + 1 - start_date) t
      (omega arith) h i

-- A slot is left by the blackouts and the lead time exactly when it was there, its local date is
-- not blacked out, and it starts no earlier than `beforeMinutes` from now.
pub open_iff :
    (zone : Zone) (bds : List BlackoutDate) (buffer : ServiceBuffer) (now t : ℕ) (slots : List ℕ)
    → In t (apply_service_buffer (apply_blackouts slots bds zone) (some buffer) now) ↔ (
        In t slots
        × (contains (map (λ bd. bd.date) bds) (from_utc t zone).date ≡ false)
        × (now + buffer.before_minutes * minute_ms ≤ t))
unfolding apply_blackouts apply_service_buffer
open_iff zone bds buffer now t slots = (
  λ h.
      let a = of_In-filter _ t _ h in
      let b = of_In-filter _ t slots a.0 in (b.0, ground arith, ground arith),
  λ h. In-filter_of_In _ t _ (In-filter_of_In _ t slots h.0 (ground arith)) (ground arith),
)
