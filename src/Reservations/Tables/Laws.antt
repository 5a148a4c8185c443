-- ===== src/Reservations/Tables/Laws.antt =====
-- What `syncReservationTableAssignments` leaves in the table of assignments.
use restaurant_reservation_s.Prelude.{
  ℕ, suc, ◌≡◌, sym, ap, ◌∙◌, ◌⊎◌, inl, inr, ◌↔◌, true, List, [], ◌∷◌, map, String, filter, contains,
  contains-In, contains-set_from, ◌==◌, string_eq, arith, In, of_In-map, In-filter_of_In,
  of_In-filter, Bool-cases, eq_of_==,
}
use restaurant_reservation_s.Booking.Types.{Assignment}
use restaurant_reservation_s.Reservations.Tables.{
  is_named, normalize_table_ids, upsert, upsert_all, sync_assignments,
}

-- The tables of a list of assignments.
abbrev pub ids : List Assignment → List String
ids rows = map (λ a. a.table_id) rows

In-upsert :
    (u t : String) (index : ℕ) (rows : List Assignment)
    → In u (ids (upsert t index rows)) ↔ ((u ≡ t) ⊎ In u (ids rows))
In-upsert u t index [] = (λ h. h, λ h. h)
In-upsert u t index (a ∷ rows) = elim (Bool-cases (a.table_id == t)) [
  | inl e ↦ rw e (ground (arith, eq_of_== a.table_id t e))
  | inr n ↦ rw n (ground (arith, In-upsert u t index rows))
]

In-upsert_all :
    (u : String) (ts : List String) (index : ℕ) (rows : List Assignment)
    → In u (ids (upsert_all ts index rows)) ↔ (In u ts ⊎ In u (ids rows))
In-upsert_all u [] index rows = ground arith
In-upsert_all u (t ∷ ts) index rows =
    ground (arith, In-upsert_all u ts (suc index) (upsert t index rows), In-upsert u t index rows)

-- The tables assigned after the call are exactly those asked for, blank ids left out: those no
-- longer asked for are gone, and none that is asked for is missing.
pub sync_assignments_iff :
    (existing : List Assignment) (table_ids : List String) (t : String)
    → In t (ids (sync_assignments existing table_ids)) ↔ (In t table_ids × (is_named t ≡ true))
unfolding sync_assignments normalize_table_ids
sync_assignments_iff existing table_ids t = (there, back)
  where
    wanted : List String
    wanted = normalize_table_ids table_ids

    kept : List Assignment
    kept = filter (λ a. contains wanted a.table_id) existing

    normalized : (contains wanted t ≡ contains (filter is_named table_ids) t)
    normalized = contains-set_from t [] (filter is_named table_ids)

    of_wanted : In t wanted → In t table_ids × (is_named t ≡ true)
    of_wanted i = of_In-filter is_named t table_ids (
        (contains-In t (filter is_named table_ids)).0 (sym normalized ∙ (contains-In t wanted).1 i))

    of_kept : In t (ids kept) → In t wanted
    of_kept i =
        let w = of_In-map (λ (a : Assignment). a.table_id) t kept i in
        let k = of_In-filter (λ a. contains wanted a.table_id) w.0 existing w.1 in
        (contains-In t wanted).0 (ap (contains wanted) w.2 ∙ k.1)

    there : In t (ids (sync_assignments existing table_ids)) → In t table_ids × (is_named t ≡ true)
    there i = elim ((In-upsert_all t wanted 0 kept).0 i) [
      | inl w ↦ of_wanted w
      | inr k ↦ of_wanted (of_kept k)
    ]

    back : In t table_ids × (is_named t ≡ true) → In t (ids (sync_assignments existing table_ids))
    back (i, e) = (In-upsert_all t wanted 0 kept).1 (
        inl (
          (contains-In t wanted).0 (
            normalized
            ∙ (contains-In t (filter is_named table_ids)).1
                (In-filter_of_In is_named t table_ids i e))))
