-- ===== src/Booking/Conflicts/Laws.antt =====
-- What the conflict check reports: its prefilter in the database loses nothing, and it finds
-- exactly the bookings of the same local slot that clash.
use restaurant_reservation_s.Prelude.{
  ◌+◌, ◌*◌, ◌<◌, ◌≡◌, refl, ap, ◌⊎◌, inl, inr, ◌↔◌, Bool, true, false, ◌&&◌, ◌||◌, not, Option,
  none, some, List, [], ◌∷◌, map, String, arith, filter, any, any_cases, any-of_In, contains,
  contains-In, ltb, nat_eq, string_eq, length, is_some, In, List-cases, Bool-cases, any-false,
  of_any-false, ==_of_eq, eq_of_==,
}
use restaurant_reservation_s.Booking.Types.{
  HoldStatus, reservation_status_eq, hold_status_eq, ReservationRow, HoldRow, Store,
}
use restaurant_reservation_s.Booking.Conflicts.{
  blocking_reservation_statuses, SlotConflictCheckInput, is_requested, table_matches,
  requested_tables, is_kept, assigned, reservation_or, reservation_where, hold_where, hold_or,
  target_end, or_number, slot_minute_ms, reservation_conflicts, hold_conflicts, find_slot_conflicts,
  has_slot_conflicts, to_conflict_reservation, to_conflict_hold,
}

any-null-map : (xs : List String) → any (λ v. not (is_some v)) (map some xs) ≡ false
any-null-map [] = refl
any-null-map (x ∷ xs) = any-null-map xs

any-requested-map :
    (req xs : List String) → any (is_requested req) (map some xs) ≡ any (contains req) xs
any-requested-map req [] = refl
any-requested-map req (x ∷ xs) = ap (λ b. contains req x || b) (any-requested-map req xs)

-- The `OR` clause that the query adds for specific tables keeps exactly the reservations that
-- `tableMatches` accepts.
pub table_matches-reservation_or :
    (req : List String) (r : ReservationRow)
    → table_matches req (r.table_id ∷ map some (assigned r)) ≡ reservation_or req r
unfolding table_matches reservation_or
table_matches-reservation_or req r =
    ground (arith, any-null-map (assigned r), any-requested-map req (assigned r))

pub table_matches-hold_or :
    (req : List String) (h : HoldRow) → table_matches req (h.table_id ∷ []) ≡ hold_or req h
unfolding table_matches hold_or
table_matches-hold_or req h = ground arith

-- A booking with this table column and these further tables stands in the way of a request: the
-- request names no table, or the booking has none, or they have one in common.
abbrev pub SharesTable : List String → Option String → List String → Type 0
SharesTable req table_id more =
    (req ≡ []) ⊎ (table_id ≡ none) ⊎ ((t : String) × In t req × ((table_id ≡ some t) ⊎ In t more))

reservation_or-SharesTable :
    (req : List String) (r : ReservationRow)
    → (reservation_or req r ≡ true) ↔ SharesTable req r.table_id (assigned r)
unfolding reservation_or
reservation_or-SharesTable req r = (there, back)
  where
    by_assignment : any (contains req) (assigned r) ≡ true → SharesTable req r.table_id (assigned r)
    by_assignment h =
        let w = any_cases (contains req) (assigned r) h in
        inr (inr (w.0, (contains-In w.0 req).0 w.2, inr w.1))

    by_column :
        (o : Option String)
        → r.table_id ≡ o
        → is_requested req o ≡ true
        → SharesTable req r.table_id (assigned r)
    by_column none e h = inr (inl e)
    by_column (some t) e h = inr (inr (t, (contains-In t req).0 h, inl e))

    there : reservation_or req r ≡ true → SharesTable req r.table_id (assigned r)
    there h = elim (List-cases req) [
      | inl e ↦ inl e
      | inr (x, xs, e) ↦ elim (Bool-cases (is_requested req r.table_id)) [
        | inl c ↦ by_column r.table_id refl c
        | inr c ↦ elim (Bool-cases (any (contains req) (assigned r))) [
          | inl a ↦ by_assignment a
          | inr a ↦ inr (inl (ground arith))
        ]
      ]
    ]

    back : SharesTable req r.table_id (assigned r) → reservation_or req r ≡ true
    back (inl e) = ground arith
    back (inr (inl e)) = ground arith
    back (inr (inr (t, i, inl e))) = ground (arith, contains-In t req)
    back (inr (inr (t, i, inr j))) =
        let m = any-of_In (contains req) t (assigned r) j ((contains-In t req).1 i) in ground arith

-- A reservation clashes with a request: same venue and local slot, in a blocking status, not the
-- excluded one, a table in the way, and the two times overlap.
pub record Clashes (p : SlotConflictCheckInput) (r : ReservationRow) : Type 0 where
  pub same_venue : r.venue_id ≡ p.venue_id
  pub blocking : In r.status blocking_reservation_statuses
  pub same_date : r.slot_local_date ≡ p.slot_local_date
  pub same_time : r.slot_local_time ≡ p.slot_local_time
  pub not_excluded : is_kept p.exclude_reservation_id r.id ≡ true
  pub shares : SharesTable (requested_tables p) r.table_id (assigned r)
  pub starts_before_end : r.slot_start_utc < target_end p
  pub ends_after_start :
      p.slot_start_utc
      < r.slot_start_utc + or_number r.duration_minutes p.duration_minutes * slot_minute_ms

abbrev pub picked : SlotConflictCheckInput → ReservationRow → Bool
picked p r =
    (reservation_where p r && reservation_or (requested_tables p) r) && reservation_conflicts p r

picked-Clashes : (p : SlotConflictCheckInput) (r : ReservationRow) → picked p r ≡ true → Clashes p r
unfolding reservation_where reservation_conflicts
picked-Clashes p r h = record {
  same_venue = eq_of_== r.venue_id p.venue_id (ground arith);
  blocking = (contains-In r.status blocking_reservation_statuses).0 (ground arith);
  same_date = eq_of_== r.slot_local_date p.slot_local_date (ground arith);
  same_time = eq_of_== r.slot_local_time p.slot_local_time (ground arith);
  not_excluded = ground arith;
  shares = (reservation_or-SharesTable (requested_tables p) r).0 (ground arith);
  starts_before_end = ground arith;
  ends_after_start = ground arith;
}

Clashes-picked : (p : SlotConflictCheckInput) (r : ReservationRow) → Clashes p r → picked p r ≡ true
unfolding reservation_where reservation_conflicts
Clashes-picked p r c =
    let o = (reservation_or-SharesTable (requested_tables p) r).1 c.shares in
    let m = table_matches-reservation_or (requested_tables p) r in
    ground (
      arith,
      ==_of_eq r.venue_id p.venue_id c.same_venue,
      (contains-In r.status blocking_reservation_statuses).1 c.blocking,
      ==_of_eq r.slot_local_date p.slot_local_date c.same_date,
      ==_of_eq r.slot_local_time p.slot_local_time c.same_time,
    )

-- A hold clashes with a request: held and not run out, of the same venue and local slot, not the
-- excluded one, a table in the way, and the request starts before the hold runs out.
pub record HoldClashes (p : SlotConflictCheckInput) (h : HoldRow) : Type 0 where
  pub same_venue : h.venue_id ≡ p.venue_id
  pub is_held : h.status ≡ HoldStatus.held
  pub same_date : h.slot_local_date ≡ p.slot_local_date
  pub same_time : h.slot_local_time ≡ p.slot_local_time
  pub live : p.now < h.expires_at
  pub not_excluded : is_kept p.exclude_hold_id h.id ≡ true
  pub shares : SharesTable (requested_tables p) h.table_id []
  pub starts_before_end : h.slot_start_utc < target_end p
  pub expires_after_start : p.slot_start_utc < h.expires_at

abbrev pub picked_hold : SlotConflictCheckInput → HoldRow → Bool
picked_hold p h = (hold_where p h && hold_or (requested_tables p) h) && hold_conflicts p h

hold_or-SharesTable :
    (req : List String) (h : HoldRow) → (hold_or req h ≡ true) ↔ SharesTable req h.table_id []
unfolding hold_or
hold_or-SharesTable req h = (there, back)
  where
    by_column :
        (o : Option String)
        → h.table_id ≡ o
        → is_requested req o ≡ true
        → SharesTable req h.table_id []
    by_column none e q = inr (inl e)
    by_column (some t) e q = inr (inr (t, (contains-In t req).0 q, inl e))

    there : hold_or req h ≡ true → SharesTable req h.table_id []
    there q = elim (List-cases req) [
      | inl e ↦ inl e
      | inr (x, xs, e) ↦ elim (Bool-cases (is_requested req h.table_id)) [
        | inl c ↦ by_column h.table_id refl c
        | inr c ↦ inr (inl (ground arith))
      ]
    ]

    back : SharesTable req h.table_id [] → hold_or req h ≡ true
    back (inl e) = ground arith
    back (inr (inl e)) = ground arith
    back (inr (inr (t, i, inl e))) = ground (arith, contains-In t req)
    back (inr (inr (t, i, inr j))) = elim j [ ]

picked_hold-HoldClashes :
    (p : SlotConflictCheckInput) (h : HoldRow) → picked_hold p h ≡ true → HoldClashes p h
unfolding hold_where hold_conflicts
picked_hold-HoldClashes p h q = record {
  same_venue = eq_of_== h.venue_id p.venue_id (ground arith);
  is_held = eq_of_== h.status HoldStatus.held (ground arith);
  same_date = eq_of_== h.slot_local_date p.slot_local_date (ground arith);
  same_time = eq_of_== h.slot_local_time p.slot_local_time (ground arith);
  live = ground arith;
  not_excluded = ground arith;
  shares = (hold_or-SharesTable (requested_tables p) h).0 (ground arith);
  starts_before_end = ground arith;
  expires_after_start = ground arith;
}

HoldClashes-picked_hold :
    (p : SlotConflictCheckInput) (h : HoldRow) → HoldClashes p h → picked_hold p h ≡ true
unfolding hold_where hold_conflicts
HoldClashes-picked_hold p h c =
    let o = (hold_or-SharesTable (requested_tables p) h).1 c.shares in
    let m = table_matches-hold_or (requested_tables p) h in
    ground (
      arith,
      ==_of_eq h.venue_id p.venue_id c.same_venue,
      ==_of_eq h.status HoldStatus.held c.is_held,
      ==_of_eq h.slot_local_date p.slot_local_date c.same_date,
      ==_of_eq h.slot_local_time p.slot_local_time c.same_time,
    )

some-picked {ℓ κ} :
    {A : Type ℓ} {B : Type κ} (f : A → B) (p q : A → Bool) (xs : List A)
    → ltb 0 (length (map f (filter p (filter q xs)))) ≡ any (λ x. q x && p x) xs
some-picked f p q [] = refl
some-picked f p q (x ∷ xs) = ground (arith, some-picked f p q xs)

-- What a request finds free: no reservation and no hold of the store clashes with it.
abbrev pub IsFreeSlot : Store → SlotConflictCheckInput → Type 0
IsFreeSlot s p =
    ((r : ReservationRow) → In r s.reservations → ¬ Clashes p r)
    × ((h : HoldRow) → In h s.holds → ¬ HoldClashes p h)

-- The check finds no conflict exactly where no reservation and no hold of the store clashes with
-- the request.
pub has_slot_conflicts_iff :
    (s : Store) (p : SlotConflictCheckInput)
    → (has_slot_conflicts (find_slot_conflicts s p) ≡ false) ↔ IsFreeSlot s p
unfolding has_slot_conflicts find_slot_conflicts
has_slot_conflicts_iff s p = (there, back)
  where
    rs : ltb 0 (length (find_slot_conflicts s p).reservations) ≡ any (picked p) s.reservations
    rs = some-picked to_conflict_reservation (reservation_conflicts p) _ s.reservations

    hs : ltb 0 (length (find_slot_conflicts s p).holds) ≡ any (picked_hold p) s.holds
    hs = some-picked to_conflict_hold (hold_conflicts p) _ s.holds

    there : has_slot_conflicts (find_slot_conflicts s p) ≡ false → IsFreeSlot s p
    there h = (
      λ r i c.
          cc
            (of_any-false (picked p) r s.reservations (ground (arith, rs)) i, Clashes-picked p r c),
      λ k i c. cc (
        of_any-false (picked_hold p) k s.holds (ground (arith, hs)) i,
        HoldClashes-picked_hold p k c,
      ),
    )

    is_false : (b : Bool) → ¬ (b ≡ true) → b ≡ false
    is_false true n = absurd (n refl)
    is_false false n = refl

    back : IsFreeSlot s p → has_slot_conflicts (find_slot_conflicts s p) ≡ false
    back f =
        let a =
          any-false (picked p) s.reservations
            (λ r i. is_false (picked p r) (λ q. f.0 r i (picked-Clashes p r q))) in
        let b =
          any-false (picked_hold p) s.holds
            (λ h i. is_false (picked_hold p h) (λ q. f.1 h i (picked_hold-HoldClashes p h q))) in
        ground (arith, rs, hs)
