-- ===== src/Policy/Laws.antt =====
-- The slots of a day under the policy of a venue: where they lie, and that they are found.
use restaurant_reservation_s.Prelude.{
  ℕ, zero, suc, ◌+◌, ◌-◌, ◌*◌, ◌≤◌, ◌<◌, ◌≡◌, refl, sym, subst, inl, inr, ◌||◌, Option, none, some,
  List, [], ◌∷◌, String, ltb, leb, nat_eq, if◌then◌else◌, In, Bool-cases, arith,
}
use restaurant_reservation_s.Policy.{
  ShiftLike, TemporalSlot, ZonedArgs, minute_in_ms, day_start, day_end, shift_starts, shift_ends,
  window_start, buffered_end, window_end, with_slot, windows_from, shift_windows,
}

pub some-inj {ℓ} : {A : Type ℓ} {a b : A} → some a ≡ some b → a ≡ b
some-inj q = cc

-- A slot of the loop lies between its ends and has the length of the step.
record IsWindow (id : String) (step current finish : ℕ) (s : TemporalSlot) : Type 0 where
  pub of_shift : s.shift_id ≡ id
  pub from : current ≤ s.start
  pub until : s.finish ≤ finish
  pub lasts : s.finish ≡ s.start + step

with_slot-eq-some :
    (slot : TemporalSlot) (rest : Option (List TemporalSlot)) (l : List TemporalSlot)
    → with_slot slot rest ≡ some l
    → (k : List TemporalSlot) × (rest ≡ some k) × (slot ∷ k ≡ l)
with_slot-eq-some slot none l h = cc
with_slot-eq-some slot (some k) l h = (k, refl, some-inj h)

windows_from-IsWindow :
    (fuel : ℕ) (id : String) (step current finish : ℕ) (l : List TemporalSlot) (s : TemporalSlot)
    → windows_from fuel id step current finish ≡ some l
    → In s l
    → IsWindow id step current finish s
unfolding windows_from
windows_from-IsWindow zero id step current finish l s h i = cc
windows_from-IsWindow (suc fuel) id step current finish l s h i =
    elim (Bool-cases (ltb current finish)) [
      | inr e ↦ elim (subst (λ x. In s x) (sym (some-inj (rw e at h))) i) [ ]
      | inl e ↦ elim (Bool-cases (ltb finish (current + step))) [
        | inl f ↦ elim (subst (λ x. In s x) (sym (some-inj (rw (e, f) at h))) i) [ ]
        | inr f ↦
            let w =
              with_slot-eq-some (record { shift_id = id; start = current; finish = current + step })
                (windows_from fuel id step (current + step) finish) l (rw (e, f) at h) in
            elim (subst (λ x. In s x) (sym w.2) i) [
              | inl q ↦ rw q (record {
                of_shift = refl;
                from = omega arith;
                until = ground arith;
                lasts = refl;
              })
              | inr j ↦
                  let r = windows_from-IsWindow fuel id step (current + step) finish w.0 s w.1 j in
                  record {
                    of_shift = r.of_shift;
                    from = omega (arith, r.from);
                    until = r.until;
                    lasts = r.lasts;
                  }
            ]
      ]
    ]

pub windows_from-total :
    (fuel : ℕ) (id : String) (step current finish : ℕ)
    → 0 < step
    → finish - current < fuel
    → (l : List TemporalSlot) × (windows_from fuel id step current finish ≡ some l)
unfolding windows_from
windows_from-total zero id step current finish p h = absurd (omega arith)
windows_from-total (suc fuel) id step current finish p h = elim (Bool-cases (ltb current finish)) [
  | inr e ↦ ([], rw e refl)
  | inl e ↦ elim (Bool-cases (ltb finish (current + step))) [
    | inl f ↦ ([], rw (e, f) refl)
    | inr f ↦
        let r = windows_from-total fuel id step (current + step) finish p (ground arith) in
        (
          record { shift_id = id; start = current; finish = current + step } ∷ r.0,
          rw (e, f, r.1) refl,
        )
  ]
]

-- What a slot of a shift promises: the length of a window, inside the day, and the buffer between
-- it and both ends of the shift.
pub record IsPolicySlot (a : ZonedArgs) (r : ShiftLike × ℕ) (s : TemporalSlot) : Type 0 where
  pub of_shift : s.shift_id ≡ r.0.id
  pub lasts : s.finish ≡ s.start + a.window_minutes * minute_in_ms
  pub from_day : day_start a ≤ s.start
  pub until_day : s.finish ≤ day_end a
  pub after_start : shift_starts a r + a.before_minutes * minute_in_ms ≤ s.start
  pub before_end : s.finish + a.after_minutes * minute_in_ms ≤ shift_ends a r

window_start-le :
    (a : ZonedArgs) (r : ShiftLike × ℕ)
    → (day_start a ≤ window_start a r)
      × (shift_starts a r + a.before_minutes * minute_in_ms ≤ window_start a r)
unfolding window_start
window_start-le a r = bounds (shift_starts a r) (day_start a) (a.before_minutes * minute_in_ms)
  where
    bounds :
        (s d b : ℕ)
        → let clipped = if ltb s d then d else s in
          let w = if ltb (clipped + b) d then d else clipped + b in (d ≤ w) × (s + b ≤ w)
    bounds s d b = ground arith

window_end-le :
    (a : ZonedArgs) (r : ShiftLike × ℕ)
    → 0 < buffered_end a r
    → (window_end a r ≤ day_end a)
      × (window_end a r + a.after_minutes * minute_in_ms ≤ shift_ends a r)
unfolding window_end buffered_end
window_end-le a r p = bounds (shift_ends a r) (day_end a) (a.after_minutes * minute_in_ms) p
  where
    bounds :
        (s d b : ℕ)
        → let buffered = (if ltb d s then d else s) - b in
          0 < buffered → (let w = if ltb d buffered then d else buffered in (w ≤ d) × (w + b ≤ s))
    bounds s d b p = ground arith

pub shift_windows-IsPolicySlot :
    (a : ZonedArgs) (r : ShiftLike × ℕ) (l : List TemporalSlot) (s : TemporalSlot)
    → shift_windows a r ≡ some l
    → In s l
    → IsPolicySlot a r s
unfolding shift_windows
shift_windows-IsPolicySlot a r l s h i =
    elim (Bool-cases
      (ltb (buffered_end a r) (day_start a) || leb (buffered_end a r) (window_start a r))) [
        | inl e ↦ elim (subst (λ x. In s x) (sym (some-inj (rw e at h))) i) [ ]
        | inr e ↦
            let w =
              windows_from-IsWindow _ r.0.id (a.window_minutes * minute_in_ms) (window_start a r)
                (window_end a r) l s (rw e at h) i in
            let b = window_start-le a r in
            let c = window_end-le a r (ground arith) in
            record {
              of_shift = w.of_shift;
              lasts = w.lasts;
              from_day = omega (arith, b.0, w.from);
              until_day = omega (arith, c.0, w.until);
              after_start = omega (arith, b.1, w.from);
              before_end = omega (arith, c.1, w.until);
            }
      ]
