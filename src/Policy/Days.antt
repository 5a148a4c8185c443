-- ===== src/Policy/Days.antt =====
-- The slots of a day: found for every shift of the day, and for the shifts of the day before that
-- last into it.
use restaurant_reservation_s.Prelude.{
  ℕ, ◌+◌, ◌-◌, ◌*◌, ◌%◌, ◌≤◌, ◌<◌, ◌≡◌, refl, sym, subst, ◌⊎◌, inl, inr, Bool, true, false, ◌&&◌,
  ◌||◌, not, Option, none, some, List, [], ◌∷◌, ◌++◌, sort, ltb, leb, ◌==◌, nat_eq, if◌then◌else◌,
  In, All, All-intro, In-append, of_In-sort, IsSorted, sort-IsSorted, Bool-cases, Option-cases, ap,
  arith, eq_of_==,
}
use restaurant_reservation_s.Policy.{
  ShiftLike, TemporalSlot, ZonedArgs, minute_in_ms, wraps_overnight, weekday_of,
  determine_relevant_shifts, day_start, window_start, buffered_end, window_end, shift_windows,
  both_lists, windows_of_shifts, by_start, sorted_slots, zoned_slots, TimeZone, GenerateSlotsArgs,
  zoned, PolicyAnswer, answer_of, in_zone, generate_policy_slots,
}
use restaurant_reservation_s.Policy.Laws.{
  some-inj, windows_from-total, IsPolicySlot, shift_windows-IsPolicySlot,
}

-- A shift that counts for a day, with the day on which it begins.
pub record IsRelevant (shifts : List ShiftLike) (day : ℕ) (r : ShiftLike × ℕ) : Type 0 where
  pub listed : In r.0 shifts
  pub active : r.0.is_active ≡ true
  pub begins :
      ((r.1 ≡ day) × (r.0.dow ≡ weekday_of day))
      ⊎ ((r.1 ≡ day - 1)
          × (r.0.dow ≡ (weekday_of day + 6) % 7)
          × (r.0.ends_at_local ≤ r.0.starts_at_local))

-- Where an element of the three outcomes for a shift comes from.
added_cases {ℓ} :
    {A : Type ℓ} (active today before : Bool) (x y r : A) (rest : List A)
    → In r
        (if not active then rest else if today then x ∷ rest else if before then y ∷ rest else rest)
    → In r rest
      ⊎ ((active ≡ true) × (today ≡ true) × (r ≡ x))
      ⊎ ((active ≡ true) × (before ≡ true) × (r ≡ y))
added_cases false today before x y r rest i = inl i
added_cases true true before x y r rest (inl e) = inr (inl (refl, refl, e))
added_cases true true before x y r rest (inr j) = inl j
added_cases true false true x y r rest (inl e) = inr (inr (refl, refl, e))
added_cases true false true x y r rest (inr j) = inl j
added_cases true false false x y r rest i = inl i

determine_relevant_shifts-IsRelevant :
    (shifts : List ShiftLike) (day : ℕ) (r : ShiftLike × ℕ)
    → In r (determine_relevant_shifts shifts day)
    → IsRelevant shifts day r
unfolding determine_relevant_shifts wraps_overnight
determine_relevant_shifts-IsRelevant [] day r i = elim i [ ]
determine_relevant_shifts-IsRelevant (shift ∷ shifts) day r i =
    elim (added_cases shift.is_active (shift.dow == weekday_of day)
      (shift.dow == (weekday_of day + 6) % 7 && wraps_overnight shift) (shift, day) (shift, day - 1)
      r (determine_relevant_shifts shifts day) i) [
        | inl j ↦
            let q = determine_relevant_shifts-IsRelevant shifts day r j in
            record { listed = inr q.listed; active = q.active; begins = q.begins }
        | inr (inl (a, d, e)) ↦ subst (IsRelevant (shift ∷ shifts) day) (sym e) (record {
          listed = inl refl;
          active = a;
          begins = inl (refl, eq_of_== shift.dow (weekday_of day) d);
        })
        | inr (inr (a, d, e)) ↦ subst (IsRelevant (shift ∷ shifts) day) (sym e) (record {
          listed = inl refl;
          active = a;
          begins =
              inr
                (refl, eq_of_== shift.dow ((weekday_of day + 6) % 7) (ground arith), ground arith);
        })
      ]

both_lists-eq-some :
    (a b : Option (List TemporalSlot)) (l : List TemporalSlot)
    → both_lists a b ≡ some l
    → (x : List TemporalSlot) × (y : List TemporalSlot) × (a ≡ some x) × (b ≡ some y) × (x ++ y ≡ l)
both_lists-eq-some none b l h = cc
both_lists-eq-some (some x) none l h = cc
both_lists-eq-some (some x) (some y) l h = (x, y, refl, refl, some-inj h)

-- A slot of the day is a slot of a shift that counts for it.
abbrev pub IsDaySlot : ZonedArgs → TemporalSlot → Type 0
IsDaySlot a s = (r : ShiftLike × ℕ) × IsRelevant a.shifts a.date r × IsPolicySlot a r s

windows_of_shifts-IsPolicySlot :
    (a : ZonedArgs) (rs : List (ShiftLike × ℕ)) (l : List TemporalSlot) (s : TemporalSlot)
    → windows_of_shifts a rs ≡ some l
    → In s l
    → (r : ShiftLike × ℕ) × In r rs × IsPolicySlot a r s
unfolding windows_of_shifts
windows_of_shifts-IsPolicySlot a [] l s h i = elim (subst (λ x. In s x) (sym (some-inj h)) i) [ ]
windows_of_shifts-IsPolicySlot a (r ∷ rs) l s h i =
    let b = both_lists-eq-some (shift_windows a r) (windows_of_shifts a rs) l h in
    elim (In-append s b.0 b.1 (subst (λ x. In s x) (sym b.4) i)) [
      | inl j ↦ (r, inl refl, shift_windows-IsPolicySlot a r b.0 s b.2 j)
      | inr j ↦ let q = windows_of_shifts-IsPolicySlot a rs b.1 s b.3 j in (q.0, inr q.1, q.2)
    ]

sorted_slots-eq-some :
    (o : Option (List TemporalSlot)) (l : List TemporalSlot)
    → sorted_slots o ≡ some l
    → (k : List TemporalSlot) × (o ≡ some k) × (sort by_start k ≡ l)
sorted_slots-eq-some none l h = cc
sorted_slots-eq-some (some k) l h = (k, refl, some-inj h)

answered-IsDaySlot :
    (a : ZonedArgs) {l : List TemporalSlot}
    → zoned_slots a ≡ some l
    → All (IsDaySlot a) l × IsSorted by_start l
unfolding zoned_slots
answered-IsDaySlot a {l} h =
    let rs = determine_relevant_shifts a.shifts a.date in
    let k = sorted_slots-eq-some (windows_of_shifts a rs) l h in
    subst (λ x. All (IsDaySlot a) x × IsSorted by_start x) k.2
      (
        All-intro (IsDaySlot a) (sort by_start k.0) (λ s i.
            let q = windows_of_shifts-IsPolicySlot a rs k.0 s k.1 (of_In-sort by_start s k.0 i) in
            (q.0, determine_relevant_shifts-IsRelevant a.shifts a.date q.0 q.1, q.2)),
        sort-IsSorted by_start (λ x y z p q. ground arith) (λ x y p. ground arith) k.0,
      )

shift_windows-total :
    (a : ZonedArgs) (r : ShiftLike × ℕ)
    → 0 < a.window_minutes
    → (l : List TemporalSlot) × (shift_windows a r ≡ some l)
unfolding shift_windows
shift_windows-total a r p =
    elim (Bool-cases
      (ltb (buffered_end a r) (day_start a) || leb (buffered_end a r) (window_start a r))) [
        | inl e ↦ ([], rw e refl)
        | inr e ↦
            let w =
              windows_from-total (window_end a r - window_start a r + 1) r.0.id
                (a.window_minutes * minute_in_ms) (window_start a r) (window_end a r) (omega arith)
                (omega arith) in
            (w.0, rw e w.1)
      ]

windows_of_shifts-total :
    (a : ZonedArgs) (rs : List (ShiftLike × ℕ))
    → 0 < a.window_minutes
    → (l : List TemporalSlot) × (windows_of_shifts a rs ≡ some l)
unfolding windows_of_shifts
windows_of_shifts-total a [] p = ([], refl)
windows_of_shifts-total a (r ∷ rs) p =
    let x = shift_windows-total a r p in
    let y = windows_of_shifts-total a rs p in (x.0 ++ y.0, rw (x.1, y.1) refl)

zoned_slots-total :
    (a : ZonedArgs) → 0 < a.window_minutes → (l : List TemporalSlot) × (zoned_slots a ≡ some l)
unfolding zoned_slots
zoned_slots-total a p =
    let w = windows_of_shifts-total a (determine_relevant_shifts a.shifts a.date) p in
    (sort by_start w.0, rw w.1 refl)

-- The policy answers for every day in every time zone that Temporal knows, and throws in another one
-- where windows are not empty. Each slot of the answer lies between the start of the day and the same
-- time of day a calendar day later, has the length of a window, and keeps the buffer to both ends of
-- an active shift that begins on the day, or on the day before where it wraps over midnight; and the
-- slots are in the order of their starts.
pub generate_policy_slots-IsDaySlot :
    (a : GenerateSlotsArgs)
    → ((a.timezone ≡ none)
        × (generate_policy_slots a ≡ (
            if leb a.window_minutes 0 then PolicyAnswer.slots [] else PolicyAnswer.unknown_zone)))
      ⊎ ((zone : TimeZone) × (a.timezone ≡ some zone)
          × (l : List TemporalSlot) × (generate_policy_slots a ≡ PolicyAnswer.slots l)
          × All (IsDaySlot (zoned a zone)) l
          × IsSorted by_start l)
unfolding generate_policy_slots in_zone
generate_policy_slots-IsDaySlot a = elim (Option-cases a.timezone) [
  | inl e ↦
      inl (e, ap (λ z. if leb a.window_minutes 0 then PolicyAnswer.slots [] else in_zone a z) e)
  | inr (zone, e) ↦ elim (Bool-cases (leb a.window_minutes 0)) [
    | inl small ↦ inr (zone, e, [], rw small refl, tt, tt)
    | inr wide ↦
        let t = zoned_slots-total (zoned a zone) (ground arith) in
        let d = answered-IsDaySlot (zoned a zone) t.1 in
        inr (zone, e, t.0, rw (wide, e, in_zone) (ap answer_of t.1), d.0, d.1)
  ]
]
