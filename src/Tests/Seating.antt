-- ===== src/Tests/Seating.antt =====
-- Tables for a party of two at a venue with two tables of one join group.
use restaurant_reservation_s.Reservations.Create.{violates_index}
use restaurant_reservation_s.Prelude.{trim}
use restaurant_reservation_s.Seating.Score.{suggestion_le}
use restaurant_reservation_s.Booking.Conflicts.{
  has_slot_conflicts, find_slot_conflicts, reservation_where,
}
use restaurant_reservation_s.Seating.Suggest.{
  single_candidates, compute_table_availability, venue_tables, build_join_group_combos,
  group_combos, entry_le,
}
use restaurant_reservation_s.Prelude.{
  ℕ, ◌+◌, ◌*◌, ◌-◌, arith, inr, sym, subst, ◌∙◌, ap, ==_of_eq, string_eq, ◌≢◌, false, ◌≤◌, ◌≡◌,
  refl, ◌↔◌, ◌⊎◌, inl, true, none, some, [], ◌∷◌, String, In, All, length, max,
}
use restaurant_reservation_s.Booking.Types.{ReservationStatus, TableRow, ReservationRow, Store}
use restaurant_reservation_s.Booking.Results.{ok}
use restaurant_reservation_s.Reservations.Update.{find_reservation}
use restaurant_reservation_s.Reservations.Exclusive.{IsExclusive, DoubleBooked, DoubleBooked-comm}
use restaurant_reservation_s.Seating.Combos.{find_minimal_combos}
use restaurant_reservation_s.Seating.Combos.Laws.{MinimalFrom, find_minimal_combos_iff}
use restaurant_reservation_s.Seating.Score.{Collation, usage_of}
use restaurant_reservation_s.Seating.Suggest.{count_table_usage, suggest, is_table_free, candidates}
use restaurant_reservation_s.Seating.Suggest.Laws.{IsOffered, Seats, is_table_free_lem}
use restaurant_reservation_s.Seating.Suggest.Seated.{suggest-Seats}
use restaurant_reservation_s.Seating.Suggest.Ranking.{IsOrdered, alone, suggest-best}
use restaurant_reservation_s.Seating.Assign.{
  assign_tables, assigned_row, normalize_ids, tables_named,
}
use restaurant_reservation_s.Seating.Assign.Laws.{assign_tables-IsExclusive}
use restaurant_reservation_s.Seating.Assign.Seated.{IsSeated, IsWritten, assign_tables-IsSeated}

abbrev table : String → ℕ → TableRow
table id capacity = record {
  id = id;
  venue_id = "v";
  label = id;
  capacity = capacity;
  join_group_id = some "g";
  area = none;
  zone = none;
}

abbrev party : ReservationRow
party = record {
  id = "r1";
  venue_id = "v";
  table_id = none;
  code = "RAAAAAA";
  status = ReservationStatus.confirmed;
  guest_name = "Ada";
  guest_phone = none;
  guest_email = none;
  party_size = 2;
  slot_local_date = "1970-01-02";
  slot_local_time = "19:00";
  slot_start_utc = 241_200_000;
  duration_minutes = 90;
  notes = none;
  channel = none;
  created_by = none;
  tables = [];
}

abbrev later : ReservationRow
later = record party {
  id = "r2";
  table_id = some "t2";
  code = "RBBBBBB";
  slot_local_time = "21:00";
}

abbrev evening : Store
evening = record {
  tables = table "t2" 4 ∷ table "t1" 2 ∷ [];
  reservations = party ∷ later ∷ [];
  holds = [];
}

abbrev order : Collation
order = record { locale_le = λ a b. true; column_le = λ a b. true }

order-IsOrdered : IsOrdered order.locale_le
order-IsOrdered = record { trans = λ a b c h k. refl; total = λ a b h. refl }

find_minimal_combos_iff_example :
    In (3 ∷ 4 ∷ []) (find_minimal_combos (λ n. n) (2 ∷ 3 ∷ 4 ∷ []) 7)
    ↔ MinimalFrom (λ n. n) 7 2 (2 ∷ 3 ∷ 4 ∷ []) (3 ∷ 4 ∷ [])
find_minimal_combos_iff_example = find_minimal_combos_iff (λ n. n) (2 ∷ 3 ∷ 4 ∷ []) 7 (3 ∷ 4 ∷ [])

suggested : suggest order 1_000 evening "r1" 1 ≡ ok (alone evening party (table "t1" 2) ∷ [])
unfolding suggest candidates single_candidates compute_table_availability venue_tables
    has_slot_conflicts find_slot_conflicts reservation_where build_join_group_combos group_combos
    entry_le suggestion_le count_table_usage
suggested = refl

suggest-Seats_example :
    (r : ReservationRow) × In r evening.reservations
    × (r.id ≡ "r1")
    × All (Seats 1_000 evening r) (alone evening party (table "t1" 2) ∷ [])
    × (1 ≤ max 1 1)
suggest-Seats_example = suggest-Seats order 1_000 evening "r1" 1 suggested

large_is_free : is_table_free 1_000 evening party (table "t2" 4) ≡ true
unfolding is_table_free has_slot_conflicts find_slot_conflicts reservation_where
large_is_free = refl

large-IsOffered : IsOffered 1_000 evening party (table "t2" 4)
large-IsOffered = record {
  stands = inl refl;
  venue = refl;
  free = is_table_free_lem 1_000 evening party (table "t2" 4) large_is_free;
}

suggest-best_example :
    (1 ≤ 1)
    × (In (alone evening party (table "t2" 4)) (alone evening party (table "t1" 2) ∷ [])
        ⊎ All
            (λ g.
              g.score
              ≤ usage_of (count_table_usage evening party "r1") "t2" * 101_000 + 100 + (4 - 2))
            (alone evening party (table "t1" 2) ∷ []))
suggest-best_example =
    suggest-best order order-IsOrdered 1_000 evening "r1" 1 party (table "t2" 4) refl suggested
      large-IsOffered (omega arith)

abbrev after : Store
after = record evening { reservations = assigned_row party ("t1" ∷ "t2" ∷ []) ∷ later ∷ [] }

both_assigned :
    assign_tables 1_000 evening "r1" ("t2" ∷ " t1" ∷ "" ∷ [])
    ≡ ok (assigned_row party ("t1" ∷ "t2" ∷ []), after)
unfolding assign_tables trim has_slot_conflicts find_slot_conflicts reservation_where violates_index
both_assigned = refl

apart : ¬ DoubleBooked party later
apart d = off (==_of_eq "19:00" "21:00" d.same_time)
  where
    off : ¬ (false ≡ true)
    off e = cc

pairs :
    (a b : ReservationRow)
    → In a evening.reservations
    → In b evening.reservations
    → a.id ≢ b.id
    → ¬ DoubleBooked a b
pairs a b (inl e) (inl f) n d = n (ap (λ (r : ReservationRow). r.id) (e ∙ sym f))
pairs a b (inl e) (inr (inl f)) n d =
    apart (subst (λ x. DoubleBooked x later) e (subst (DoubleBooked a) f d))
pairs a b (inr (inl e)) (inl f) n d =
    apart (DoubleBooked-comm (subst (λ x. DoubleBooked x party) e (subst (DoubleBooked a) f d)))
pairs a b (inr (inl e)) (inr (inl f)) n d = n (ap (λ (r : ReservationRow). r.id) (e ∙ sym f))
pairs a b (inr (inr i)) j n d = elim i [ ]
pairs a b i (inr (inr j)) n d = elim j [ ]

evening-IsExclusive : IsExclusive evening.reservations
evening-IsExclusive = record { once = (refl, (refl, tt)); exclusive = pairs }

assign_tables-IsExclusive_example : IsExclusive after.reservations
assign_tables-IsExclusive_example =
    assign_tables-IsExclusive 1_000 evening "r1" ("t2" ∷ " t1" ∷ "" ∷ []) both_assigned
      evening-IsExclusive

assign_tables-IsSeated_example :
    (1 ≤ length (normalize_ids ("t2" ∷ " t1" ∷ "" ∷ [])))
    × (r : ReservationRow) × (find_reservation evening "r1" ≡ some r)
    × IsWritten evening r
        (assigned_row party ("t1" ∷ "t2" ∷ []))
        (normalize_ids ("t2" ∷ " t1" ∷ "" ∷ []))
        after
    × IsSeated evening r
        (normalize_ids ("t2" ∷ " t1" ∷ "" ∷ []))
        (tables_named evening r.venue_id (normalize_ids ("t2" ∷ " t1" ∷ "" ∷ [])))
assign_tables-IsSeated_example =
    assign_tables-IsSeated 1_000 evening "r1" ("t2" ∷ " t1" ∷ "" ∷ []) both_assigned
