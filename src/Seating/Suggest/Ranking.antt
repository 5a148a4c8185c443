-- ===== src/Seating/Suggest/Ranking.antt =====
-- The suggestions are the best ones: the order of suggestions, and what the limit cuts off.
use restaurant_reservation_s.Prelude.{
  ℕ, zero, suc, ◌+◌, ◌-◌, ◌*◌, ◌≤◌, ◌≡◌, refl, subst, ◌⊎◌, inl, inr, Bool, true, false, ◌&&◌, none,
  some, List, [], ◌∷◌, String, length, take, sort, IsSorted, sort-IsSorted, leb, ◌==◌, nat_eq,
  string_eq, find, arith, In, All, All-of_In, In-sort, In-map, In-append_left, In-filter_of_In,
  le→leb, ==_of_eq, max,
}
use restaurant_reservation_s.Booking.Types.{TableRow, ReservationRow, Store}
use restaurant_reservation_s.Booking.Conflicts.{find_slot_conflicts, has_slot_conflicts}
use restaurant_reservation_s.Booking.Conflicts.Laws.{has_slot_conflicts_iff}
use restaurant_reservation_s.Booking.Results.{ok, ok_inj}
use restaurant_reservation_s.Seating.Score.{
  Collation, SeatingSuggestion, usage_of, build_suggestion, suggestion_le, join_ids,
}
use restaurant_reservation_s.Seating.Suggest.{
  AvailableTable, count_table_usage, seating_check, is_table_free, compute_table_availability,
  venue_tables, single_candidates, build_join_group_combos, candidates, row_le, suggest,
}
use restaurant_reservation_s.Seating.Suggest.Laws.{IsOffered}
use restaurant_reservation_s.Seating.Suggest.Seated.{All-map}

-- What the comparison of texts is relied on for: it is a total order up to equal texts.
pub record IsOrdered (le : String → String → Bool) : Type 0 where
  pub trans : (a b c : String) → le a b ≡ true → le b c ≡ true → le a c ≡ true
  pub total : (a b : String) → le a b ≡ false → le b a ≡ true

suggestion_le_trans :
    (order : Collation)
    → IsOrdered order.locale_le
    → (a b c : SeatingSuggestion) → suggestion_le order a b ≡ true
    → suggestion_le order b c ≡ true
    → suggestion_le order a c ≡ true
unfolding suggestion_le
suggestion_le_trans order o a b c h k =
    ground (arith, o.trans (join_ids a.table_ids) (join_ids b.table_ids) (join_ids c.table_ids))

suggestion_le_total :
    (order : Collation)
    → IsOrdered order.locale_le
    → (a b : SeatingSuggestion) → suggestion_le order a b ≡ false
    → suggestion_le order b a ≡ true
unfolding suggestion_le
suggestion_le_total order o a b h =
    ground (arith, o.total (join_ids a.table_ids) (join_ids b.table_ids))

suggestion_le-score :
    (order : Collation) (a b : SeatingSuggestion)
    → suggestion_le order a b ≡ true
    → a.score ≤ b.score
unfolding suggestion_le
suggestion_le-score order a b h = ground arith

-- What a cut leaves out of a sorted list stands after all that it keeps.
take-IsSorted {ℓ} :
    {A : Type ℓ} (le : A → A → Bool) (n : ℕ) (x : A) (l : List A)
    → IsSorted le l
    → In x l
    → In x (take n l) ⊎ All (λ y. le y x ≡ true) (take n l)
take-IsSorted le zero x l s i = inr tt
take-IsSorted le (suc n) x [] s i = elim i [ ]
take-IsSorted le (suc n) x (y ∷ l) s (inl e) = inl (inl e)
take-IsSorted le (suc n) x (y ∷ l) s (inr i) = elim (take-IsSorted le n x l s.1 i) [
  | inl j ↦ inl (inr j)
  | inr a ↦ inr (All-of_In (λ z. le y z ≡ true) x l s.0 i, a)
]

-- The suggestion of one table alone.
abbrev pub alone : Store → ReservationRow → TableRow → SeatingSuggestion
alone s r t =
    let usage = count_table_usage s r r.id in
    build_suggestion r.party_size usage (record { table = t; wear = usage_of usage t.id } ∷ [])

alone-In :
    (order : Collation) (now : ℕ) (s : Store) (r : ReservationRow) (t : TableRow)
    → IsOffered now s r t
    → r.party_size ≤ t.capacity
    → In (alone s r t) (candidates order now s r)
unfolding candidates single_candidates compute_table_availability venue_tables is_table_free
alone-In order now s r t o p =
    let usage = count_table_usage s r r.id in
    let tables = venue_tables order s r.venue_id in
    let offers = compute_table_availability now s r tables in
    let entry : AvailableTable = record { table = t; available = is_table_free now s r t } in
    let make : AvailableTable → SeatingSuggestion = λ a.
      build_suggestion r.party_size usage
        (record { table = a.table; wear = usage_of usage a.table.id } ∷ []) in
    let offer : TableRow → AvailableTable =
      λ x. record { table = x; available = is_table_free now s r x } in
    let at_venue =
      In-filter_of_In (λ (x : TableRow). x.venue_id == r.venue_id) t s.tables o.stands
        (==_of_eq t.venue_id r.venue_id o.venue) in
    let listed : In entry offers = In-map offer t tables (In-sort (row_le order) t _ at_venue) in
    let conflicts = find_slot_conflicts s (seating_check now r (some t.id) none) in
    let is_free : has_slot_conflicts conflicts ≡ false =
      (has_slot_conflicts_iff s (seating_check now r (some t.id) none)).1 o.free in
    In-append_left (alone s r t) (single_candidates r.party_size usage offers)
      (build_join_group_combos order r offers usage)
      (In-map make entry _ (
        In-filter_of_In (λ (a : AvailableTable). a.available && leb r.party_size a.table.capacity)
          entry offers listed (rw (is_free, le→leb r.party_size t.capacity p) refl)))

take-some {ℓ} : {A : Type ℓ} (n : ℕ) (x : A) (l : List A) → 1 ≤ n → In x l → 1 ≤ length (take n l)
take-some n x [] p i = elim i [ ]
take-some zero x (y ∷ l) p i = absurd (omega arith)
take-some (suc n) x (y ∷ l) p i = omega arith

alone-score :
    (s : Store) (r : ReservationRow) (t : TableRow)
    → (alone s r t).score
      ≡ usage_of (count_table_usage s r r.id) t.id * 101_000 + 100 + (t.capacity - r.party_size)
unfolding build_suggestion
alone-score s r t = omega arith

-- A free table of the venue with room for the party is suggested alone, or scores no better than
-- each suggestion; and there is a suggestion then. The score of the table counts its use by other
-- reservations of the day before the seats that stay empty.
pub suggest-best :
    (order : Collation)
    → IsOrdered order.locale_le
    → (now : ℕ) (s : Store) (id : String) (limit : ℕ) (r : ReservationRow) (t : TableRow)
      {gs : List SeatingSuggestion}
    → find (λ o. o.id == id) s.reservations ≡ some r
    → suggest order now s id limit ≡ ok gs
    → IsOffered now s r t
    → r.party_size ≤ t.capacity
    → (1 ≤ length gs)
      × (In (alone s r t) gs
          ⊎ All
              (λ g.
                g.score
                ≤ usage_of (count_table_usage s r r.id) t.id * 101_000
                  + 100
                  + (t.capacity - r.party_size))
              gs)
unfolding suggest
suggest-best order o now s id limit r t {gs} found h offered room =
    let sorted = sort (suggestion_le order) (candidates order now s r) in
    let answer : take (max 1 limit) sorted ≡ gs = ok_inj (rw found at h) in
    let listed =
      In-sort (suggestion_le order) (alone s r t) (candidates order now s r)
        (alone-In order now s r t offered room) in
    let best =
      take-IsSorted (suggestion_le order) (max 1 limit) (alone s r t) sorted
        (sort-IsSorted (suggestion_le order) (suggestion_le_trans order o)
          (suggestion_le_total order o) (candidates order now s r))
        listed in
    subst (λ l. (1 ≤ length l) × (In (alone s r t) l ⊎ All Beaten l)) answer
      (
        take-some (max 1 limit) (alone s r t) sorted (omega arith) listed,
        elim best [
          | inl i ↦ inl i
          | inr a ↦ inr (All-map (λ g q. beaten g q) (take (max 1 limit) sorted) a)
        ],
      )
  where
    Beaten : SeatingSuggestion → Type 0
    Beaten g =
        g.score
        ≤ usage_of (count_table_usage s r r.id) t.id * 101_000 + 100 + (t.capacity - r.party_size)

    beaten : (g : SeatingSuggestion) → suggestion_le order g (alone s r t) ≡ true → Beaten g
    beaten g q =
        let e = alone-score s r t in
        let l = suggestion_le-score order g (alone s r t) q in omega arith
