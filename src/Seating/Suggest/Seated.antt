-- ===== src/Seating/Suggest/Seated.antt =====
-- Every suggestion seats the party at free tables.
use restaurant_reservation_s.Prelude.{
  ℕ, ◌≤◌, ◌≡◌, refl, sym, subst, ◌⊎◌, inl, inr, true, false, ◌&&◌, some, List, [], ◌∷◌, map, String,
  filter, sum_by, length, take, sort, is_empty, ltb, leb, ◌==◌, nat_eq, string_eq, find, arith, In,
  All, All-intro, All-of_In, In-take, of_In-map, of_In-filter, find_cases, length-take-le,
  of_In-sort, In-append, Bool-cases, eq_of_==, max,
}
use restaurant_reservation_s.Booking.Types.{TableRow, ReservationRow, Store}
use restaurant_reservation_s.Booking.Results.{ok, or_throw, >>=-eq-ok, or_throw-eq-ok, ok_inj}
use restaurant_reservation_s.Seating.Combos.Laws.{Choice-In, find_minimal_combos_iff}
use restaurant_reservation_s.Seating.Score.{
  Collation, TableEntry, SeatingSuggestion, usage_of, build_suggestion, suggestion_le,
}
use restaurant_reservation_s.Seating.Suggest.{
  AvailableTable, count_table_usage, compute_table_availability, table_capacity, group_tables,
  entry_le, group_combos, combos_of_groups, build_join_group_combos, venue_tables,
  single_candidates, candidates, suggest,
}
use restaurant_reservation_s.Seating.Suggest.Laws.{
  IsOffered, Seats, availability-IsOffered, map-tables, sum-tables, sum-entries, All-tables, Fits,
  AreGroups, group_tables-AreGroups,
}

group_combos-Fits :
    (P : TableRow → Type 0) (order : Collation) (party_size : ℕ) (key : String)
    (l c : List TableEntry)
    → All (Fits P key) l
    → In c (group_combos order party_size l)
    → All (Fits P key) c × (party_size ≤ sum_by table_capacity c)
unfolding group_combos
group_combos-Fits P order party_size key l c h i = elim (Bool-cases (ltb (length l) 2)) [
  | inl e ↦ elim (rw e at i) [ ]
  | inr e ↦
      let m =
        (find_minimal_combos_iff table_capacity (sort (entry_le order) l) party_size c).0
          (rw e at i) in
      (
        All-intro (Fits P key) c (λ x j.
            All-of_In (Fits P key) x l h
              (of_In-sort (entry_le order) x l (Choice-In c (sort (entry_le order) l) x m.0 j))),
        m.2,
      )
]

combos_of_groups-Fits :
    (P : TableRow → Type 0) (order : Collation) (party_size : ℕ)
    (groups : List (String × List TableEntry)) (c : List TableEntry)
    → AreGroups P groups
    → In c (combos_of_groups order party_size groups)
    → (key : String) × (is_empty key ≡ false)
      × All (Fits P key) c
      × (party_size ≤ sum_by table_capacity c)
combos_of_groups-Fits P order party_size [] c h i = elim i [ ]
combos_of_groups-Fits P order party_size ((key, l) ∷ groups) c h i =
    elim (In-append c (group_combos order party_size l) (combos_of_groups order party_size groups)
      i) [
        | inl j ↦
            let f = group_combos-Fits P order party_size key l c h.0.1 j in (key, h.0.0, f.0, f.1)
        | inr j ↦ combos_of_groups-Fits P order party_size groups c h.1 j
      ]

pub All-map {ℓ κ} :
    {A : Type ℓ} {P Q : A → Type κ} (f : (a : A) → P a → Q a) (l : List A) → All P l → All Q l
All-map f [] h = tt
All-map f (x ∷ l) h = (f x h.0, All-map f l h.1)

-- A suggestion built from offered entries.
build_suggestion-Seats :
    (now : ℕ) (s : Store) (r : ReservationRow) (usage : List (String × ℕ)) (c : List TableEntry)
    → All (λ e. IsOffered now s r e.table) c
    → r.party_size ≤ sum_by table_capacity c
    → ((length (map (λ e. e.table) c) ≡ 1)
        ⊎ ((k : String) × (is_empty k ≡ false)
            × All (λ t. t.join_group_id ≡ some k) (map (λ e. e.table) c)))
    → Seats now s r (build_suggestion r.party_size usage c)
unfolding build_suggestion
build_suggestion-Seats now s r usage c o p j = record {
  chosen = map (λ e. e.table) c;
  names = map-tables usage c;
  capacity = sum-tables usage c;
  offered = All-tables (IsOffered now s r) c o;
  covers = omega (arith, sum-entries c);
  joined = j;
}

single_candidates-Seats :
    (order : Collation) (now : ℕ) (s : Store) (r : ReservationRow) (usage : List (String × ℕ))
    (g : SeatingSuggestion)
    → In g (
        single_candidates r.party_size usage
          (compute_table_availability now s r (venue_tables order s r.venue_id)))
    → Seats now s r g
unfolding single_candidates
single_candidates-Seats order now s r usage g i =
    let make : AvailableTable → SeatingSuggestion = λ a.
      build_suggestion r.party_size usage
        (record { table = a.table; wear = usage_of usage a.table.id } ∷ []) in
    let offers = compute_table_availability now s r (venue_tables order s r.venue_id) in
    let w =
      of_In-map make g (filter (λ a. a.available && leb r.party_size a.table.capacity) offers) i in
    let f =
      of_In-filter (λ (a : AvailableTable). a.available && leb r.party_size a.table.capacity) w.0
        offers w.1 in
    subst (Seats now s r) (sym w.2) (
      build_suggestion-Seats now s r usage
        (record { table = w.0.table; wear = usage_of usage w.0.table.id } ∷ [])
        (availability-IsOffered order now s r w.0 f.0 (ground arith), tt) (ground arith) (inl refl))

combos-Seats :
    (order : Collation) (now : ℕ) (s : Store) (r : ReservationRow) (usage : List (String × ℕ))
    (g : SeatingSuggestion)
    → In g (
        build_join_group_combos order r
          (compute_table_availability now s r (venue_tables order s r.venue_id))
          usage)
    → Seats now s r g
unfolding build_join_group_combos
combos-Seats order now s r usage g i =
    let offers = compute_table_availability now s r (venue_tables order s r.venue_id) in
    let groups = group_tables usage [] offers in
    let w =
      of_In-map (build_suggestion r.party_size usage) g (combos_of_groups order r.party_size groups)
        i in
    let f =
      combos_of_groups-Fits (IsOffered now s r) order r.party_size groups w.0
        (group_tables-AreGroups (IsOffered now s r) usage [] offers
          (All-intro (λ a. a.available ≡ true → IsOffered now s r a.table) offers
            (λ a j e. availability-IsOffered order now s r a j e))
          tt)
        w.1 in
    subst (Seats now s r) (sym w.2) (
      build_suggestion-Seats now s r usage w.0 (All-map (λ x q. q.0) w.0 f.2) f.3 (
        inr (
          f.0,
          f.1,
          All-tables (λ t. t.join_group_id ≡ some f.0) w.0 (All-map (λ x q. q.1) w.0 f.2),
        )))

pub candidates-Seats :
    (order : Collation) (now : ℕ) (s : Store) (r : ReservationRow) (g : SeatingSuggestion)
    → In g (candidates order now s r)
    → Seats now s r g
unfolding candidates
candidates-Seats order now s r g i =
    let usage = count_table_usage s r r.id in
    let offers = compute_table_availability now s r (venue_tables order s r.venue_id) in
    let parts =
      In-append g (single_candidates r.party_size usage offers)
        (build_join_group_combos order r offers usage) i in
    elim parts [
      | inl j ↦ single_candidates-Seats order now s r usage g j
      | inr j ↦ combos-Seats order now s r usage g j
    ]

-- A suggestion of an answer names free tables of the venue of a reservation with the id asked for,
-- with room for its party: one table, or tables of one join group. The answer has at most the
-- limit, and one where the limit is none.
pub suggest-Seats :
    (order : Collation) (now : ℕ) (s : Store) (id : String) (limit : ℕ)
    {gs : List SeatingSuggestion}
    → suggest order now s id limit ≡ ok gs
    → (r : ReservationRow) × In r s.reservations
      × (r.id ≡ id)
      × All (Seats now s r) gs
      × (length gs ≤ max 1 limit)
unfolding suggest
suggest-Seats order now s id limit {gs} h =
    let a = >>=-eq-ok (or_throw (find (λ o. o.id == id) s.reservations) _) _ h in
    let f =
      find_cases (λ (o : ReservationRow). o.id == id) s.reservations a.0
        (or_throw-eq-ok (find (λ o. o.id == id) s.reservations) _ a.1) in
    let all = candidates order now s a.0 in
    (
      a.0,
      f.0,
      eq_of_== a.0.id id f.1,
      subst (All (Seats now s a.0)) (ok_inj a.2) (
          All-intro (Seats now s a.0) (take (max 1 limit) (sort (suggestion_le order) all)) λ g i.
            candidates-Seats order now s a.0 g
              (of_In-sort (suggestion_le order) g all (In-take (max 1 limit) g _ i))),
      subst (λ l. length l ≤ max 1 limit) (ok_inj a.2)
          (length-take-le (max 1 limit) (sort (suggestion_le order) all)),
    )
