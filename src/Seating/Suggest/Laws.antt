-- ===== src/Seating/Suggest/Laws.antt =====
-- What a suggestion promises, and the groups of available tables behind it.
use restaurant_reservation_s.Prelude.{
  ℕ, ◌≤◌, ◌≡◌, refl, sym, ap, ◌∙◌, subst, ◌⊎◌, inl, inr, Bool, true, false, not, Option, none, some,
  List, [], ◌∷◌, ◌++◌, map, String, sum_by, length, is_empty, ◌==◌, nat_eq, string_eq,
  if◌then◌else◌, arith, In, All, of_In-map, of_In-filter, of_In-sort, Bool-cases, eq_of_==,
}
use restaurant_reservation_s.Booking.Types.{TableRow, ReservationRow, Store}
use restaurant_reservation_s.Booking.Conflicts.{find_slot_conflicts, has_slot_conflicts}
use restaurant_reservation_s.Booking.Conflicts.Laws.{IsFreeSlot, has_slot_conflicts_iff}
use restaurant_reservation_s.Seating.Score.{
  Collation, TableEntry, SeatingSuggestion, usage_of, summarise_table,
}
use restaurant_reservation_s.Seating.Suggest.{
  AvailableTable, seating_check, is_table_free, compute_table_availability, table_capacity,
  push_group, push_keyed, push_table, group_tables, venue_tables,
}

-- A table of the reservation's venue that no other booking of its slot stands in the way of.
pub record IsOffered (now : ℕ) (s : Store) (r : ReservationRow) (t : TableRow) : Type 0 where
  pub stands : In t s.tables
  pub venue : t.venue_id ≡ r.venue_id
  pub free : IsFreeSlot s (seating_check now r (some t.id) none)

-- A suggestion names such tables, enough for the party, and more than one only of one join group.
pub record Seats (now : ℕ) (s : Store) (r : ReservationRow) (g : SeatingSuggestion) : Type 0 where
  pub chosen : List TableRow
  pub names : g.table_ids ≡ map (λ t. t.id) chosen
  pub capacity : g.total_capacity ≡ sum_by (λ t. t.capacity) chosen
  pub offered : All (IsOffered now s r) chosen
  pub covers : r.party_size ≤ sum_by (λ t. t.capacity) chosen
  pub joined :
      (length chosen ≡ 1)
      ⊎ ((k : String) × (is_empty k ≡ false) × All (λ t. t.join_group_id ≡ some k) chosen)

pub is_table_free_lem :
    (now : ℕ) (s : Store) (r : ReservationRow) (t : TableRow)
    → is_table_free now s r t ≡ true
    → IsFreeSlot s (seating_check now r (some t.id) none)
unfolding is_table_free
is_table_free_lem now s r t h =
    (has_slot_conflicts_iff s (seating_check now r (some t.id) none)).0
      (off (has_slot_conflicts (find_slot_conflicts s (seating_check now r (some t.id) none))) h)
  where
    off : (b : Bool) → not b ≡ true → b ≡ false
    off b e = ground arith

pub venue_tables-In :
    (order : Collation) (s : Store) (v : String) (t : TableRow)
    → In t (venue_tables order s v)
    → In t s.tables × (t.venue_id ≡ v)
unfolding venue_tables
venue_tables-In order s v t i =
    let f = of_In-filter (λ (o : TableRow). o.venue_id == v) t s.tables (of_In-sort _ t _ i) in
    (f.0, eq_of_== t.venue_id v f.1)

-- The entries of the availability that are free are offered.
pub availability-IsOffered :
    (order : Collation) (now : ℕ) (s : Store) (r : ReservationRow) (a : AvailableTable)
    → In a (compute_table_availability now s r (venue_tables order s r.venue_id))
    → a.available ≡ true
    → IsOffered now s r a.table
unfolding compute_table_availability
availability-IsOffered order now s r a i e =
    let entry : TableRow → AvailableTable =
      λ t. record { table = t; available = is_table_free now s r t } in
    let w = of_In-map entry a (venue_tables order s r.venue_id) i in
    let v = venue_tables-In order s r.venue_id w.0 w.1 in
    let f =
      is_table_free_lem now s r w.0 (sym (ap (λ (x : AvailableTable). x.available) w.2) ∙ e) in
    subst (IsOffered now s r) (sym (ap (λ (x : AvailableTable). x.table) w.2))
      (record { stands = v.0; venue = v.1; free = f })

pub map-tables :
    (usage : List (String × ℕ)) (entries : List TableEntry)
    → map (λ t. t.table_id) (map (summarise_table usage) entries)
      ≡ map (λ t. t.id) (map (λ e. e.table) entries)
map-tables usage [] = refl
map-tables usage (e ∷ es) = ap (λ l. e.table.id ∷ l) (map-tables usage es)

pub sum-tables :
    (usage : List (String × ℕ)) (entries : List TableEntry)
    → sum_by (λ t. t.capacity) (map (summarise_table usage) entries)
      ≡ sum_by (λ t. t.capacity) (map (λ e. e.table) entries)
sum-tables usage [] = refl
sum-tables usage (e ∷ es) = omega (arith, sum-tables usage es)

pub sum-entries :
    (entries : List TableEntry)
    → sum_by table_capacity entries ≡ sum_by (λ t. t.capacity) (map (λ e. e.table) entries)
sum-entries [] = refl
sum-entries (e ∷ es) = omega (arith, sum-entries es)

pub All-tables :
    (P : TableRow → Type 0) (entries : List TableEntry)
    → All (λ e. P e.table) entries
    → All P (map (λ e. e.table) entries)
All-tables P [] h = tt
All-tables P (e ∷ es) h = (h.0, All-tables P es h.1)

-- The groups hold available tables of their key.
module _ (P : TableRow → Type 0) where
  abbrev pub Fits : String → TableEntry → Type 0
  Fits key entry = P entry.table × (entry.table.join_group_id ≡ some key)

  abbrev pub AreGroups : List (String × List TableEntry) → Type 0
  AreGroups groups = All (λ g. (is_empty g.0 ≡ false) × All (Fits g.0) g.1) groups

  All-snoc :
      (key : String) (l : List TableEntry) (entry : TableEntry)
      → All (Fits key) l
      → Fits key entry
      → All (Fits key) (l ++ entry ∷ [])
  All-snoc key [] entry h f = (f, tt)
  All-snoc key (x ∷ l) entry h f = (h.0, All-snoc key l entry h.1 f)

  push_group-AreGroups :
      (key : String) (entry : TableEntry) (groups : List (String × List TableEntry))
      → is_empty key ≡ false
      → Fits key entry
      → AreGroups groups
      → AreGroups (push_group key entry groups)
  push_group-AreGroups key entry [] n f h = ((n, (f, tt)), tt)
  push_group-AreGroups key entry ((k, l) ∷ groups) n f h = elim (Bool-cases (k == key)) [
    | inl e ↦
        rw e ((h.0.0, All-snoc k l entry h.0.1 (f.0, f.1 ∙ ap some (sym (eq_of_== k key e)))), h.1)
    | inr e ↦ rw e (h.0, push_group-AreGroups key entry groups n f h.1)
  ]

  push_keyed-AreGroups :
      (o : Option String) (entry : TableEntry) (groups : List (String × List TableEntry))
      → P entry.table
      → entry.table.join_group_id ≡ o
      → AreGroups groups
      → AreGroups (push_keyed o entry groups)
  push_keyed-AreGroups none entry groups p e h = h
  push_keyed-AreGroups (some key) entry groups p e h = elim (Bool-cases (is_empty key)) [
    | inl b ↦ rw b h
    | inr b ↦ rw b (push_group-AreGroups key entry groups b (p, e) h)
  ]

  push_table-AreGroups :
      (usage : List (String × ℕ)) (a : AvailableTable) (groups : List (String × List TableEntry))
      → (a.available ≡ true → P a.table)
      → AreGroups groups
      → AreGroups (push_table usage a groups)
  push_table-AreGroups usage a groups p h = elim (Bool-cases a.available) [
    | inr e ↦ subst (λ b. AreGroups (if b then made else groups)) (sym e) h
    | inl e ↦
        subst (λ b. AreGroups (if b then made else groups)) (sym e)
          (push_keyed-AreGroups a.table.join_group_id
            (record { table = a.table; wear = usage_of usage a.table.id }) groups (p e) refl h)
  ]
    where
      made : List (String × List TableEntry)
      made =
          push_keyed a.table.join_group_id
            (record { table = a.table; wear = usage_of usage a.table.id }) groups

  pub group_tables-AreGroups :
      (usage : List (String × ℕ)) (groups : List (String × List TableEntry))
      (offers : List AvailableTable)
      → All (λ a. a.available ≡ true → P a.table) offers
      → AreGroups groups
      → AreGroups (group_tables usage groups offers)
  group_tables-AreGroups usage groups [] p h = h
  group_tables-AreGroups usage groups (a ∷ rest) p h =
      group_tables-AreGroups usage (push_table usage a groups) rest p.1
        (push_table-AreGroups usage a groups p.0 h)
