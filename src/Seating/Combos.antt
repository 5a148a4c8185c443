-- ===== src/Seating/Combos.antt =====
-- `combinationsOfSize` and `findMinimalCombos` of apps/api/src/seating.service.ts, over entries of
-- which only the capacity matters.
pub mod Laws
use restaurant_reservation_s.Prelude.{
  ℕ, zero, suc, ◌-◌, List, [], ◌∷◌, ◌++◌, map, filter, sum_by, length, leb, ltb, if◌then◌else◌,
}
use restaurant_reservation_s.Booking.Conflicts.{none_left}

module _ {ℓ} {A : Type ℓ} where
  -- The loop over the heads stops where fewer items than the size are left.
  abbrev pub combinations_of_size : ℕ → List A → List (List A)
  combinations_of_size zero items = []
  combinations_of_size (suc zero) items = map (λ x. x ∷ []) items
  combinations_of_size (suc (suc n)) [] = []
  combinations_of_size (suc (suc n)) (head ∷ tail) =
      let tail_combos = combinations_of_size (suc n) tail in
      let rest = combinations_of_size (suc (suc n)) tail in
      if ltb (length tail) (suc n) then [] else map (λ c. head ∷ c) tail_combos ++ rest

  -- The combinations of a size that seat the party.
  abbrev pub covering : (A → ℕ) → ℕ → List A → ℕ → List (List A)
  covering capacity party_size tables size =
      filter (λ c. leb party_size (sum_by capacity c)) (combinations_of_size size tables)

  -- The loop over the sizes, with the number of sizes that are left.
  abbrev pub combos_from : (A → ℕ) → ℕ → List A → ℕ → ℕ → List (List A)
  combos_from capacity party_size tables zero size = []
  combos_from capacity party_size tables (suc left) size =
      let combos = covering capacity party_size tables size in
      let rest = combos_from capacity party_size tables left (suc size) in
      if none_left combos then rest else combos

  -- Sizes from two to the number of tables.
  unfoldable pub find_minimal_combos : (A → ℕ) → List A → ℕ → List (List A)
  find_minimal_combos capacity tables party_size =
      combos_from capacity party_size tables (length tables - 1) 2
