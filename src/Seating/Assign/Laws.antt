-- ===== src/Seating/Assign/Laws.antt =====
-- An assignment of tables makes no double booking.
use restaurant_reservation_s.Prelude.{
  ℕ, ◌≡◌, ◌≢◌, refl, sym, ap, ◌∙◌, subst, inl, inr, Bool, true, false, ◌&&◌, not, some, List, [],
  ◌∷◌, map, String, filter, length, contains-In, contains-set_from, set_from, is_empty, trim, ltb,
  ◌==◌, ◌!=◌, nat_eq, string_eq, option_eq, arith, In, of_In-sort, of_In-filter, In-filter_of_In,
  any,
}
use restaurant_reservation_s.Booking.Types.{ReservationRow, Store}
use restaurant_reservation_s.Booking.Conflicts.{
  requested_tables, assigned, is_kept, find_slot_conflicts, has_slot_conflicts,
}
use restaurant_reservation_s.Booking.Conflicts.Laws.{
  SharesTable, IsFreeSlot, has_slot_conflicts_iff,
}
use restaurant_reservation_s.Booking.Results.{
  ok, require, or_throw, >>=-eq-ok, require-eq-ok, ok_inj,
}
use restaurant_reservation_s.Reservations.Tables.Laws.{sync_assignments_iff}
use restaurant_reservation_s.Reservations.Events.{text_le}
use restaurant_reservation_s.Reservations.Create.{violates_index}
use restaurant_reservation_s.Reservations.Update.{put_row, find_reservation}
use restaurant_reservation_s.Reservations.Exclusive.{
  Uses, DoubleBooked, IsExclusive, IsPlaced, DoubleBooked-Clashes,
}
use restaurant_reservation_s.Reservations.Exclusive.Change.{put_row-IsExclusive}
use restaurant_reservation_s.Seating.Suggest.{seating_check}
use restaurant_reservation_s.Seating.Assign.{
  normalize_ids, tables_named, check_tables, first_of, assigned_row, write_tables, assign_tables,
}

normalize_ids-named :
    (ids : List String) (t : String) → In t (normalize_ids ids) → is_empty t ≡ false
unfolding normalize_ids
normalize_ids-named ids t i =
    let named = filter (λ x. not (is_empty x)) (map trim ids) in
    let set = of_In-sort text_le t (set_from [] named) i in
    let kept =
      (contains-In t named).0
        (sym (contains-set_from t [] named) ∙ (contains-In t (set_from [] named)).1 set) in
    off (is_empty t) (of_In-filter (λ x. not (is_empty x)) t (map trim ids) kept).1
  where
    off : (b : Bool) → not b ≡ true → b ≡ false
    off b e = ground arith

-- The check asks for each of the tables.
seating_check-requests :
    (now : ℕ) (r : ReservationRow) (ids : List String) (t : String)
    → In t ids
    → is_empty t ≡ false
    → In t (requested_tables (seating_check now r (first_of ids) (some ids)))
unfolding requested_tables
seating_check-requests now r ids t i n =
    let named = filter (λ x. not (is_empty x)) ids in
    (contains-In t (set_from [] named)).0 (
      contains-set_from t [] named
      ∙ (contains-In t named).1 (In-filter_of_In (λ x. not (is_empty x)) t ids i (rw n refl)))

-- A row after the assignment uses the tables of the list only.
assigned_row-Uses :
    (r : ReservationRow) (ids : List String) (t : String) → Uses (assigned_row r ids) t → In t ids
unfolding assigned_row
assigned_row-Uses r ids t (inr i) = ((sync_assignments_iff r.tables ids t).0 i).0
assigned_row-Uses r [] t (inl e) = absurd cc
assigned_row-Uses r (x ∷ ids) t (inl e) = inl (sym (some-inj e))
  where
    some-inj : {a b : String} → some a ≡ some b → a ≡ b
    some-inj q = cc

assigned_row-Shares :
    (now : ℕ) (r o : ReservationRow) (ids : List String)
    → ids ≢ []
    → ((t : String) → In t ids → is_empty t ≡ false)
    → DoubleBooked (assigned_row r ids) o
    → SharesTable
        (requested_tables (seating_check now r (first_of ids) (some ids)))
        o.table_id
        (assigned o)
unfolding assigned_row
assigned_row-Shares now r o [] some_ids named d = absurd (some_ids refl)
assigned_row-Shares now r o (x ∷ ids) some_ids named d = elim d.shares [
  | inl e ↦ absurd cc
  | inr (inl e) ↦ inr (inl e)
  | inr (inr (t, u, v)) ↦
      let i = assigned_row-Uses r (x ∷ ids) t u in
      inr (inr (t, seating_check-requests now r (x ∷ ids) t i (named t i), v))
]

assigned_row-IsPlaced :
    (now : ℕ) (r : ReservationRow) (ids : List String)
    → IsPlaced (seating_check now r (first_of ids) (some ids)) (assigned_row r ids)
unfolding assigned_row
assigned_row-IsPlaced now r ids = record {
  venue = refl;
  date = refl;
  time = refl;
  start = refl;
  duration = ground arith;
}

-- The transaction, for ids that are not empty.
write_tables-IsExclusive :
    (now : ℕ) (s : Store) (r : ReservationRow) (ids : List String) {row : ReservationRow}
    {s' : Store}
    → ids ≢ []
    → ((t : String) → In t ids → is_empty t ≡ false)
    → write_tables now s r ids ≡ ok (row, s')
    → IsExclusive s.reservations
    → IsExclusive s'.reservations
unfolding write_tables assigned_row
write_tables-IsExclusive now s r ids {row} {s'} some_ids named h sound =
    let p = seating_check now r (first_of ids) (some ids) in
    let a = >>=-eq-ok (require (not (has_slot_conflicts (find_slot_conflicts s p))) _) _ h in
    let b =
      >>=-eq-ok
        (require
          (not (any (λ o. o.id != r.id && violates_index (assigned_row r ids) o) s.reservations)) _)
        _ a.2 in
    let free : IsFreeSlot s p = (has_slot_conflicts_iff s p).0 (
      off (has_slot_conflicts (find_slot_conflicts s p))
        (require-eq-ok (not (has_slot_conflicts (find_slot_conflicts s p))) _ a.1)) in
    let put : put_row (assigned_row r ids) s.reservations ≡ s'.reservations =
      ap (λ x. x.1.reservations) (ok_inj b.2) in
    subst IsExclusive put (
      put_row-IsExclusive (assigned_row r ids) s.reservations
        (λ o j k d. free.0 o j (
          DoubleBooked-Clashes p (assigned_row r ids) o (assigned_row-IsPlaced now r ids)
            (assigned_row-Shares now r o ids some_ids named d) (kept o k) d))
        sound)
  where
    off : (b : Bool) → not b ≡ true → b ≡ false
    off b e = ground arith

    kept :
        (o : ReservationRow)
        → (o.id == (assigned_row r ids).id) ≡ false
        → is_kept (some r.id) o.id ≡ true
    kept o k = ground arith

-- An assignment of tables that succeeds makes no double booking, also of joined tables: where ids
-- were unique and no two reservations double booked, that is so after it.
pub assign_tables-IsExclusive :
    (now : ℕ) (s : Store) (id : String) (table_ids : List String) {row : ReservationRow}
    {s' : Store}
    → assign_tables now s id table_ids ≡ ok (row, s')
    → IsExclusive s.reservations
    → IsExclusive s'.reservations
unfolding assign_tables
assign_tables-IsExclusive now s id table_ids {row} {s'} h sound =
    let ids = normalize_ids table_ids in
    let a = >>=-eq-ok (require (ltb 0 (length ids)) _) _ h in
    let b = >>=-eq-ok (or_throw (find_reservation s id) _) _ a.2 in
    let c = >>=-eq-ok (check_tables b.0 ids (tables_named s b.0.venue_id ids)) _ b.2 in
    write_tables-IsExclusive now s b.0 ids
      (λ e.
        some_ids
          (subst (λ l. ltb 0 (length l) ≡ true) e (require-eq-ok (ltb 0 (length ids)) _ a.1)))
      (normalize_ids-named table_ids) c.2 sound
  where
    some_ids : ¬ (ltb 0 0 ≡ true)
    some_ids e = ground arith
