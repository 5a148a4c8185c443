-- ===== src/Seating/Assign/Seated.antt =====
-- The tables that an assignment found.
use restaurant_reservation_s.Prelude.{
  contains-In, ap, sym, subst, ◌↔◌, ℕ, ◌≤◌, ◌<◌, ◌≡◌, refl, ◌∙◌, ◌⊎◌, inl, inr, Bool, true, false,
  ◌&&◌, not, Option, none, some, List, [], ◌∷◌, String, filter, sum_by, length, contains, is_empty,
  ltb, leb, ◌==◌, ◌!=◌, nat_eq, string_eq, option_eq, if◌then◌else◌, arith, In, of_In-filter,
  Bool-cases, leb→le, eq_of_==, any, All, All-intro, of_any-false, truthy,
}
use restaurant_reservation_s.Booking.Types.{TableRow, ReservationRow, Store}
use restaurant_reservation_s.Booking.Results.{
  ok, ok_inj, require, or_throw, >>=-eq-ok, require-eq-ok, or_throw-eq-ok,
}
use restaurant_reservation_s.Reservations.Update.{put_row, find_reservation}
use restaurant_reservation_s.Seating.Suggest.{seating_check}
use restaurant_reservation_s.Reservations.Tables.{is_named}
use restaurant_reservation_s.Reservations.Tables.Laws.{sync_assignments_iff}
use restaurant_reservation_s.Reservations.Create.{violates_index}
use restaurant_reservation_s.Booking.Conflicts.{assigned, find_slot_conflicts, has_slot_conflicts}
use restaurant_reservation_s.Seating.Assign.{
  first_of, assigned_row, write_tables, normalize_ids, tables_named, check_joined, check_tables,
  assign_tables,
}

-- Tables that seat a party: as many as the ids, each of the venue and with one of the ids, one or of
-- one join group, with room for the party.
pub record IsSeated (s : Store) (r : ReservationRow) (ids : List String) (c : List TableRow)
    : Type 0 where
  pub count : length c ≡ length ids
  pub named : All (λ t. In t.id ids) c
  pub at_venue : All (λ t. In t s.tables × (t.venue_id ≡ r.venue_id)) c
  pub covers : r.party_size ≤ sum_by (λ t. t.capacity) c
  pub joined :
      (length ids ≤ 1)
      ⊎ ((k : String) × (is_empty k ≡ false) × All (λ t. t.join_group_id ≡ some k) c)

check_joined_lem :
    (c : List TableRow)
    → check_joined c ≡ ok tt
    → 1 < length c
    → (k : String) × (is_empty k ≡ false) × All (λ t. t.join_group_id ≡ some k) c
unfolding check_joined
check_joined_lem [] h l = absurd (omega arith)
check_joined_lem (t ∷ ts) h l =
    let a = >>=-eq-ok (require (truthy t.join_group_id) _) _ h in
    let same =
      require-eq-ok (not (any (λ (x : TableRow). x.join_group_id != t.join_group_id) (t ∷ ts))) _
        a.2 in
    by_group t.join_group_id refl (require-eq-ok (truthy t.join_group_id) _ a.1) (λ x i.
      of_any-false (λ (y : TableRow). y.join_group_id != t.join_group_id) x (t ∷ ts)
        (off (any (λ (y : TableRow). y.join_group_id != t.join_group_id) (t ∷ ts)) same) i)
  where
    off : (b : Bool) → not b ≡ true → b ≡ false
    off b e = ground arith

    on : (b : Bool) → not b ≡ false → b ≡ true
    on b e = ground arith

    by_group :
        (o : Option String)
        → t.join_group_id ≡ o
        → truthy o ≡ true
        → ((x : TableRow) → In x (t ∷ ts) → (x.join_group_id != t.join_group_id) ≡ false)
        → (k : String) × (is_empty k ≡ false) × All (λ x. x.join_group_id ≡ some k) (t ∷ ts)
    by_group none e q f = absurd cc
    by_group (some k) e q f = (
      k,
      off (is_empty k) q,
      All-intro (λ x. x.join_group_id ≡ some k) (t ∷ ts)
          (λ x i.
            eq_of_== x.join_group_id t.join_group_id
              (on (x.join_group_id == t.join_group_id) (f x i))
            ∙ e),
    )

tables_named-at_venue :
    (s : Store) (v : String) (ids : List String)
    → All (λ t. In t s.tables × (t.venue_id ≡ v)) (tables_named s v ids)
unfolding tables_named
tables_named-at_venue s v ids =
    All-intro (λ t. In t s.tables × (t.venue_id ≡ v))
      (filter (λ t. t.venue_id == v && contains ids t.id) s.tables)
      λ t i.
        let f =
          of_In-filter (λ (x : TableRow). x.venue_id == v && contains ids x.id) t s.tables i in
        (f.0, eq_of_== t.venue_id v (ground arith))

tables_named-named :
    (s : Store) (v : String) (ids : List String) → All (λ t. In t.id ids) (tables_named s v ids)
unfolding tables_named
tables_named-named s v ids =
    All-intro (λ (t : TableRow). In t.id ids)
      (filter (λ t. t.venue_id == v && contains ids t.id) s.tables)
      λ t i. (contains-In t.id ids).0 (
        and_right (t.venue_id == v) (contains ids t.id)
          (of_In-filter (λ (x : TableRow). x.venue_id == v && contains ids x.id) t s.tables i).1)
  where
    and_right : (a b : Bool) → (a && b) ≡ true → b ≡ true
    and_right a b e = ground arith

-- The written row is assigned exactly the ids that are not blank, with the first as its own table, and
-- is put in place of the old one.
pub record IsWritten (s : Store) (r row : ReservationRow) (ids : List String) (s' : Store)
    : Type 0 where
  pub same_id : row.id ≡ r.id
  pub own : row.table_id ≡ first_of ids
  pub assigns : (t : String) → In t (assigned row) ↔ (In t ids × (is_named t ≡ true))
  pub stored : s' ≡ record s { reservations = put_row row s.reservations }

write_tables-IsWritten :
    (now : ℕ) (s : Store) (r : ReservationRow) (ids : List String) {row : ReservationRow}
    {s' : Store}
    → write_tables now s r ids ≡ ok (row, s')
    → IsWritten s r row ids s'
unfolding write_tables assigned_row
write_tables-IsWritten now s r ids {row} {s'} h =
    let new = assigned_row r ids in
    let p = seating_check now r (first_of ids) (some ids) in
    let a = >>=-eq-ok (require (not (has_slot_conflicts (find_slot_conflicts s p))) _) _ h in
    let b =
      >>=-eq-ok (require (not (any (λ o. o.id != r.id && violates_index new o) s.reservations)) _) _
        a.2 in
    let both = ok_inj b.2 in
    let is_new : new ≡ row = ap (λ x. x.0) both in
    subst (λ x. IsWritten s r x ids s') is_new
      (record {
        same_id = refl;
        own = refl;
        assigns = sync_assignments_iff r.tables ids;
        stored = sym (ap (λ x. x.1) both);
      })

check_tables-IsSeated :
    (s : Store) (r : ReservationRow) (ids : List String) {u : Unit {0}}
    → check_tables r ids (tables_named s r.venue_id ids) ≡ ok u
    → IsSeated s r ids (tables_named s r.venue_id ids)
unfolding check_tables
check_tables-IsSeated s r ids {u} h =
    let c = tables_named s r.venue_id ids in
    let a = >>=-eq-ok (require (length c == length ids) _) _ h in
    let b = >>=-eq-ok (if ltb 1 (length ids) then check_joined c else ok tt) _ a.2 in
    let n = eq_of_== (length c) (length ids) (require-eq-ok (length c == length ids) _ a.1) in
    record {
      count = n;
      named = tables_named-named s r.venue_id ids;
      at_venue = tables_named-at_venue s r.venue_id ids;
      covers =
          leb→le r.party_size (sum_by (λ (t : TableRow). t.capacity) c)
            (require-eq-ok (leb r.party_size (sum_by (λ (t : TableRow). t.capacity) c)) _ b.2);
      joined = elim (Bool-cases (ltb 1 (length ids))) [
        | inl e ↦ inr (check_joined_lem c (rw e at b.1) (ground arith))
        | inr e ↦ inl (ground arith)
      ];
    }

-- An assignment that succeeds found as many tables as distinct ids were given, one at least: each is a
-- table of the venue of the reservation with one of the ids, they are of one join group where they
-- are several, and have room for the party. The row it wrote in place of the reservation's has the
-- first id as its own table and is assigned exactly the ids that are not blank.
pub assign_tables-IsSeated :
    (now : ℕ) (s : Store) (id : String) (table_ids : List String) {row : ReservationRow}
    {s' : Store}
    → assign_tables now s id table_ids ≡ ok (row, s')
    → (1 ≤ length (normalize_ids table_ids))
      × (r : ReservationRow) × (find_reservation s id ≡ some r)
      × IsWritten s r row (normalize_ids table_ids) s'
      × IsSeated s r (normalize_ids table_ids) (tables_named s r.venue_id (normalize_ids table_ids))
unfolding assign_tables
assign_tables-IsSeated now s id table_ids {row} {s'} h =
    let ids = normalize_ids table_ids in
    let a = >>=-eq-ok (require (ltb 0 (length ids)) _) _ h in
    let b = >>=-eq-ok (or_throw (find_reservation s id) _) _ a.2 in
    let c = >>=-eq-ok (check_tables b.0 ids (tables_named s b.0.venue_id ids)) _ b.2 in
    let n : ltb 0 (length ids) ≡ true = require-eq-ok (ltb 0 (length ids)) _ a.1 in
    (
      ground arith,
      b.0,
      or_throw-eq-ok (find_reservation s id) _ b.1,
      write_tables-IsWritten now s b.0 ids c.2,
      check_tables-IsSeated s b.0 ids c.1,
    )
