-- ===== src/Engine/Compute/Laws.antt =====
-- What `computeAvailability` promises about the slots that it answers.
use restaurant_reservation_s.Prelude.{
  All, All-intro, ℕ, ◌+◌, ◌*◌, ◌≤◌, ◌<◌, ◌≡◌, refl, ap, sym, ◌∙◌, subst, inl, inr, false, some,
  List, map, arith, filter, any, contains, string_eq, length, length-filter-le, In, of_In-filter,
  of_In-map, or_else, Option-cases, List-cases, nat_eq,
}
use restaurant_reservation_s.Time.{minute_ms, from_utc}
use restaurant_reservation_s.Engine.Types.{
  Table, AvailabilityRule, EngineInput, AvailabilitySlot, EngineOutput, ServiceBuffer,
}
use restaurant_reservation_s.Engine.Timeline.Laws.{
  build_base_timeline_total, build_base_timeline-FromShift, FromShift, open_iff,
}
use restaurant_reservation_s.Engine.Rules.{pick_rule}
use restaurant_reservation_s.Engine.Occupancy.{occupancy_slot}
use restaurant_reservation_s.Engine.Occupancy.Laws.{
  reservation_blocks, hold_blocks, compute_occupied_tables_lem,
}
use restaurant_reservation_s.Engine.Pacing.Origin.{apply_pacing_rules-ComesFrom}
use restaurant_reservation_s.Engine.Compute.{
  format_slot, is_available, summarise, offer_slots, eligible, offer_for_party, open_times,
  base_timeline, compute_availability,
}

-- With a positive slot interval the engine answers for every input.
pub compute_availability_total :
    (input : EngineInput)
    → 0 < or_else input.slot_interval_minutes 15
    → (out : EngineOutput) × (compute_availability input ≡ some out)
unfolding compute_availability
compute_availability_total input h =
    let b =
      build_base_timeline_total input.timezone input.start_date
        (or_else input.end_date input.start_date) input.shifts
        (or_else input.slot_interval_minutes 15) h in
    (offer_for_party input (open_times input b.0), rw (b.1, compute_availability))

-- The summary counts the slots: all of them, those with a table left, and the others.
abbrev pub IsSummary : EngineOutput → Type 0
IsSummary out =
    (out.total_slots ≡ length out.slots)
    × (out.available_slots ≡ length (filter is_available out.slots))
    × (out.available_slots + out.blocked_slots ≡ out.total_slots)

summarise-IsSummary : (slots : List AvailabilitySlot) → IsSummary (summarise slots)
unfolding summarise
summarise-IsSummary slots = (refl, refl, omega (arith, length-filter-le is_available slots))

-- The end of the time that a party of the rule needs its table for.
abbrev pub needed_until : EngineInput → AvailabilityRule → ℕ → ℕ
needed_until input rule start =
    start + (rule.slot_length_minutes + input.turn_time_min + rule.buffer_minutes) * minute_ms

-- Table `t` can take the party at `start`: it is a table of the venue, large enough, and neither a
-- reservation nor a live hold sits at it before the party has left.
pub record IsFree (input : EngineInput) (rule : AvailabilityRule) (start : ℕ) (t : Table)
    : Type 0 where
  pub known : In t input.tables
  pub large_enough : input.party_size ≤ t.capacity
  pub no_reservation :
      any
        (reservation_blocks start
          (needed_until input rule start)
          input.availability_rules
          rule
          input.turn_time_min
          input.now
          t.id)
        input.reservations
      ≡ false
  pub no_hold :
      any
        (hold_blocks start
          (needed_until input rule start)
          input.availability_rules
          rule
          input.turn_time_min
          input.now
          t.id)
        input.holds
      ≡ false

-- A slot of the output: it starts at an open time, and its tables are free.
abbrev pub IsSound : EngineInput → List ℕ → AvailabilitySlot → Type 0
IsSound input times slot =
    In slot.start_utc times
    × ((rule : AvailabilityRule) × (pick_rule input.availability_rules input.party_size ≡ some rule)
        × (slot.end_utc ≡ slot.start_utc + rule.slot_length_minutes * minute_ms)
        × (slot.capacity_available ≡ length slot.available_tables)
        × All (IsFree input rule slot.start_utc) slot.available_tables)

occupancy_slot-IsFree :
    (input : EngineInput) (rule : AvailabilityRule) (start : ℕ) (t : Table)
    → In t
        (occupancy_slot input.reservations input.holds input.availability_rules rule
          input.turn_time_min input.now
          (eligible input)
          start).available_tables
    → IsFree input rule start t
unfolding occupancy_slot
occupancy_slot-IsFree input rule start t i =
    let free = of_In-filter _ t (eligible input) i in
    let fits = of_In-filter _ t input.tables free.0 in
    let spec =
      compute_occupied_tables_lem start (needed_until input rule start) input.availability_rules
        rule input.turn_time_min input.now t.id input.reservations input.holds in
    record {
      known = fits.0;
      large_enough = ground arith;
      no_reservation = ground (arith, spec);
      no_hold = ground (arith, spec);
    }

offer_slots-IsSound :
    (input : EngineInput) (times : List ℕ) (rule : AvailabilityRule) (slot : AvailabilitySlot)
    → pick_rule input.availability_rules input.party_size ≡ some rule
    → In slot (offer_slots input times rule (eligible input)).slots
    → IsSound input times slot
unfolding offer_slots format_slot occupancy_slot
offer_slots-IsSound input times rule slot e i =
    let f = of_In-map (format_slot input.timezone (length (eligible input))) slot _ i in
    let p =
      apply_pacing_rules-ComesFrom _ input.pacing_rules input.reservations input.holds f.0 f.1 in
    let o =
      of_In-map
        (occupancy_slot input.reservations input.holds input.availability_rules rule
          input.turn_time_min input.now (eligible input))
        p.0 times p.1 in
    let start : slot.start_utc ≡ o.0 =
      ap (λ x. x.start_utc) f.2 ∙ p.2.start ∙ ap (λ x. x.start_utc) o.2 in
    let duration : f.0.duration_minutes ≡ rule.slot_length_minutes =
      p.2.duration ∙ ap (λ x. x.duration_minutes) o.2 in
    (
      subst (λ x. In x times) (sym start) o.1,
      (
        rule,
        e,
        omega (arith, ap (λ x. x.end_utc) f.2, ap (λ x. x.start_utc) f.2, duration),
        ap (λ x. x.capacity_available) f.2 ∙ ap length (sym (ap (λ x. x.available_tables) f.2)),
        All-intro (IsFree input rule slot.start_utc) slot.available_tables (λ t j.
            subst (λ x. IsFree input rule x t) (sym start)
              (occupancy_slot-IsFree input rule o.0 t (
                subst (In t) (ap (λ x. x.available_tables) o.2)
                  (p.2.tables t (subst (In t) (ap (λ x. x.available_tables) f.2) j))))),
      ),
    )

offer_for_party-IsSound :
    (input : EngineInput) (times : List ℕ) (slot : AvailabilitySlot)
    → In slot (offer_for_party input times).slots
    → IsSound input times slot
unfolding offer_for_party
offer_for_party-IsSound input times slot i =
    elim (Option-cases (pick_rule input.availability_rules input.party_size)) [
      | inl e ↦ elim (rw (e, offer_for_party) at i) [ ]
      | inr (rule, e) ↦ elim (List-cases (eligible input)) [
        | inl f ↦ elim (rw (e, f, offer_for_party) at i) [ ]
        | inr (t, ts, f) ↦
            offer_slots-IsSound input times rule slot e (rw f (rw (e, f, offer_for_party) at i))
      ]
    ]

offer_for_party-IsSummary :
    (input : EngineInput) (times : List ℕ) → IsSummary (offer_for_party input times)
unfolding offer_for_party offer_slots
offer_for_party-IsSummary input times =
    elim (Option-cases (pick_rule input.availability_rules input.party_size)) [
      | inl e ↦ rw (e, offer_for_party) (refl, refl, refl)
      | inr (rule, e) ↦ elim (List-cases (eligible input)) [
        | inl f ↦ rw (e, f, offer_for_party) (refl, refl, refl)
        | inr (t, ts, f) ↦ rw (e, f, offer_for_party) (summarise-IsSummary _)
      ]
    ]

module _ (input : EngineInput) {out : EngineOutput}
    (h : compute_availability input ≡ some out) where
  computed :
      (times : List ℕ) × (base_timeline input ≡ some times)
      × (out ≡ offer_for_party input (open_times input times))
  unfolding compute_availability
  computed = elim (Option-cases (base_timeline input)) [
    | inl e ↦ absurd (ground arith)
    | inr (times, e) ↦ (times, e, ground arith)
  ]

  -- Whenever the engine answers, its summary counts its slots.
  pub compute_availability-IsSummary : IsSummary out
  compute_availability-IsSummary =
      subst IsSummary (sym computed.2)
        (offer_for_party-IsSummary input (open_times input computed.0))

  -- Every slot of the answer starts at a time of the timeline that blackouts and lead time left,
  -- has the length of the tightest rule for the party, and offers only tables of the venue that are
  -- large enough and at which no reservation and no live hold sits before the party has left.
  pub compute_availability-IsSound :
      (slot : AvailabilitySlot)
      → In slot out.slots
      → (times : List ℕ) × (base_timeline input ≡ some times)
        × IsSound input (open_times input times) slot
  compute_availability-IsSound slot i = (
    computed.0,
    computed.1,
    offer_for_party-IsSound input (open_times input computed.0) slot
        (subst (λ o. In slot o.slots) computed.2 i),
  )

  -- With a service buffer every slot of the answer starts at least `beforeMinutes` from now, not
  -- on a blacked out local date, and a whole number of intervals into an active shift.
  pub compute_availability-open :
      (slot : AvailabilitySlot) (buffer : ServiceBuffer)
      → input.service_buffer ≡ some buffer
      → In slot out.slots
      → (contains
            (map (λ bd. bd.date) input.blackout_dates)
            (from_utc slot.start_utc input.timezone).date
          ≡ false)
        × (input.now + buffer.before_minutes * minute_ms ≤ slot.start_utc)
        × FromShift input.timezone input.start_date
            (or_else input.end_date input.start_date)
            (or_else input.slot_interval_minutes 15)
            input.shifts
            slot.start_utc
  compute_availability-open slot buffer b i =
      let s = compute_availability-IsSound slot i in
      let o =
        (open_iff input.timezone input.blackout_dates buffer input.now slot.start_utc s.0).0
          (rw b at s.2.0) in
      (o.1, o.2, build_base_timeline-FromShift _ _ _ _ _ slot.start_utc s.1 o.0)
