-- ===== src/Engine/Pacing/Limit.antt =====
-- The limit of each pacing window: the slots that offer a table and the bookings together.
use restaurant_reservation_s.Prelude.{
  ℕ, ◌+◌, ◌-◌, ◌≤◌, ◌≡◌, refl, sym, ◌∙◌, inl, inr, false, ◌||◌, some, List, [], ◌∷◌, ◌++◌, map,
  arith, leb, ◌==◌, if◌then◌else◌, sum_by, All, contains, sum_by-sort, Bool-cases, ==_sym, ap,
  eq_of_==,
}
use restaurant_reservation_s.Time.{Clock, clock_eq}
use restaurant_reservation_s.Engine.Types.{BookedReservation, BookedHold, OccupancySlot, PacedSlot}
use restaurant_reservation_s.Engine.Pacing.{
  bucketize_time, Windows, push_slot, group_windows, usage, has_tables, pace_window, pace_windows,
  starts_by, pace_by_limit,
}
use restaurant_reservation_s.Engine.Pacing.Laws.{offering, sum_by-append}

abbrev keys : Windows → List Clock
keys = map (λ w. w.0)

-- The windows' keys are distinct, and each window holds slots of its own key.
abbrev IsGrouped : ℕ → Windows → Type 0
IsGrouped w [] = Unit {0}
IsGrouped w ((k, b) ∷ ws) =
    All (λ s. bucketize_time s.start_utc w ≡ k) b × (contains (keys ws) k ≡ false) × IsGrouped w ws

All-snoc :
    {A : Type 0} (P : A → Type 0) (xs : List A) (a : A) → All P xs → P a → All P (xs ++ a ∷ [])
All-snoc P [] a h p = (p, tt)
All-snoc P (x ∷ xs) a h p = (h.0, All-snoc P xs a h.1 p)

contains-push_slot :
    (k key : Clock) (s : OccupancySlot) (ws : Windows)
    → contains (keys (push_slot key s ws)) k ≡ (contains (keys ws) k || (k == key))
unfolding push_slot
contains-push_slot k key s [] = ground arith
contains-push_slot k key s ((j, b) ∷ ws) = elim (Bool-cases (j == key)) [
  | inl e ↦ let q : j ≡ key = eq_of_== j key e in rw e (ground arith)
  | inr e ↦ rw e (ground (arith, contains-push_slot k key s ws))
]

push_slot-IsGrouped :
    (w : ℕ) (s : OccupancySlot) (ws : Windows)
    → IsGrouped w ws
    → IsGrouped w (push_slot (bucketize_time s.start_utc w) s ws)
unfolding push_slot
push_slot-IsGrouped w s [] g = ((refl, tt), refl, tt)
push_slot-IsGrouped w s ((k, b) ∷ ws) g = elim (Bool-cases (k == bucketize_time s.start_utc w)) [
  | inl e ↦ rw e (All-snoc _ b s g.0 (sym (eq_of_== k _ e)), g.1, g.2)
  | inr e ↦ rw e (
    g.0,
    rw (contains-push_slot k (bucketize_time s.start_utc w) s ws, g.1) e,
    push_slot-IsGrouped w s ws g.2,
  )
]

group_windows-IsGrouped :
    (w : ℕ) (ws : Windows) (ss : List OccupancySlot)
    → IsGrouped w ws
    → IsGrouped w (group_windows w ws ss)
unfolding group_windows
group_windows-IsGrouped w ws [] g = g
group_windows-IsGrouped w ws (s ∷ ss) g =
    group_windows-IsGrouped w (push_slot (bucketize_time s.start_utc w) s ws) ss
      (push_slot-IsGrouped w s ws g)

-- Counts a slot of the window `key` that still offers a table.
abbrev pub offering_in : ℕ → Clock → PacedSlot → ℕ
offering_in w key s = if bucketize_time s.start_utc w == key then offering s else 0

-- In its own window a slot counts as long as fewer than `remaining` did before it.
pace_window-offering :
    (w : ℕ) (key : Clock) (m used remaining included : ℕ) (ss : List OccupancySlot)
    → sum_by (offering_in w key) (pace_window m used remaining included ss) ≤ remaining - included
unfolding pace_window
pace_window-offering w key m used remaining included [] = omega arith
pace_window-offering w key m used remaining included (s ∷ ss) =
    let ih = pace_window-offering w key m used remaining (included + has_tables s) ss in
    elim (Bool-cases (leb remaining included)) [
      | inl full ↦ rw full (ground arith)
      | inr free ↦ rw free (ground arith)
    ]

-- In another window no slot counts.
pace_window-other :
    (w : ℕ) (key k : Clock) (m used remaining included : ℕ) (ss : List OccupancySlot)
    → (k == key) ≡ false
    → All (λ s. bucketize_time s.start_utc w ≡ k) ss
    → sum_by (offering_in w key) (pace_window m used remaining included ss) ≡ 0
unfolding pace_window
pace_window-other w key k m used remaining included [] d g = refl
pace_window-other w key k m used remaining included (s ∷ ss) d g =
    rw (g.0, d)
      (omega (arith, pace_window-other w key k m used remaining (included + has_tables s) ss d g.1))

module _ (w m : ℕ) (key : Clock) (rs : List BookedReservation) (hs : List BookedHold) where
  pace_windows-other :
      (ws : Windows)
      → IsGrouped w ws
      → contains (keys ws) key ≡ false
      → sum_by (offering_in w key) (pace_windows m w rs hs ws) ≡ 0
  unfolding pace_windows
  pace_windows-other [] g h = refl
  pace_windows-other ((k, b) ∷ ws) g h =
      let d : ((key == k) ≡ false) × (contains (keys ws) key ≡ false) = ground arith in
      let used = usage w k rs hs in
      omega (
        arith,
        sum_by-append (offering_in w key) (pace_window m used (m - used) 0 b)
            (pace_windows m w rs hs ws),
        pace_window-other w key k m used (m - used) 0 b (==_sym k key ∙ d.0) g.0,
        pace_windows-other ws g.2 d.1,
      )

  pace_windows-offering :
      (ws : Windows)
      → IsGrouped w ws
      → sum_by (offering_in w key) (pace_windows m w rs hs ws) ≤ m - usage w key rs hs
  unfolding pace_windows
  pace_windows-offering [] g = omega arith
  pace_windows-offering ((k, b) ∷ ws) g =
      let used = usage w k rs hs in
      let split =
        sum_by-append (offering_in w key) (pace_window m used (m - used) 0 b)
          (pace_windows m w rs hs ws) in
      elim (Bool-cases (k == key)) [
        | inl e ↦
            let same : k ≡ key = eq_of_== k key e in
            let rest : sum_by (offering_in w key) (pace_windows m w rs hs ws) ≡ 0 =
              pace_windows-other ws g.2 (rw same at g.1) in
            let q : used ≡ usage w key rs hs = ap (λ x. usage w x rs hs) same in
            omega (arith, split, rest, q, pace_window-offering w key m used (m - used) 0 b)
        | inr e ↦ omega (
          arith,
          split,
          pace_window-other w key k m used (m - used) 0 b e g.0,
          pace_windows-offering ws g.2,
        )
      ]

  -- Under the limit `m`, in every pacing window the slots that still offer a table and the bookings
  -- that start in it are at most `m` together, or no slot of it offers one.
  pub pace_by_limit-le-limit :
      (ss : List OccupancySlot)
      → sum_by (offering_in w key) (pace_by_limit (some m, w) ss rs hs) ≤ m - usage w key rs hs
  unfolding pace_by_limit
  pace_by_limit-le-limit ss =
      rw
        (sum_by-sort starts_by (offering_in w key) (pace_windows m w rs hs (group_windows w [] ss)))
        (pace_windows-offering (group_windows w [] ss) (group_windows-IsGrouped w [] ss tt))
