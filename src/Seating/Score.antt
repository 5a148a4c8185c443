-- ===== src/Seating/Score.antt =====
-- The counts of a table's use, the score of a suggestion and the order of suggestions in
-- apps/api/src/seating.service.ts. The sentence that explains a suggestion is left out.
use restaurant_reservation_s.Prelude.{
  ℕ, ◌+◌, ◌-◌, ◌*◌, max, Bool, Option, List, [], ◌∷◌, map, String, sum_by, length, leb, ◌==◌, ◌!=◌,
  nat_eq, string_eq, if◌then◌else◌,
}
use restaurant_reservation_s.Booking.Types.{TableRow}

-- Whether `a.localeCompare(b) <= 0`, and whether the database sorts one label before another.
pub record Collation : Type 0 where
  pub locale_le : String → String → Bool
  pub column_le : String → String → Bool

pub record TableEntry : Type 0 where
  pub table : TableRow
  pub wear : ℕ

pub record SeatingSuggestionTable : Type 0 where
  pub table_id : String
  pub label : String
  pub capacity : ℕ
  pub area : Option String
  pub zone : Option String
  pub join_group_id : Option String
  pub wear : ℕ

pub record SeatingSuggestion : Type 0 where
  pub table_ids : List String
  pub tables : List SeatingSuggestionTable
  pub total_capacity : ℕ
  pub split_count : ℕ
  pub excess_capacity : ℕ
  pub wear_total : ℕ
  pub wear_max : ℕ
  pub score : ℕ

abbrev pub score_wear_max : ℕ
score_wear_max = 100_000

abbrev pub score_wear_total : ℕ
score_wear_total = 1_000

abbrev pub score_split : ℕ
score_split = 100

abbrev pub score_excess : ℕ
score_excess = 1

-- A map of counts: `get(id) ?? 0`, and `set(id, (get(id) ?? 0) + 1)`.
abbrev pub usage_of : List (String × ℕ) → String → ℕ
usage_of [] id = 0
usage_of ((key, n) ∷ counts) id = if key == id then n else usage_of counts id

abbrev pub count_row : List (String × ℕ) → String → List (String × ℕ)
count_row [] id = (id, 1) ∷ []
count_row ((key, n) ∷ counts) id =
    let rest = count_row counts id in if key == id then (key, n + 1) ∷ counts else (key, n) ∷ rest

abbrev pub count_rows : List (String × ℕ) → List String → List (String × ℕ)
count_rows counts [] = counts
count_rows counts (id ∷ rows) = count_rows (count_row counts id) rows

abbrev pub summarise_table : List (String × ℕ) → TableEntry → SeatingSuggestionTable
summarise_table usage entry = record {
  table_id = entry.table.id;
  label = entry.table.label;
  capacity = entry.table.capacity;
  area = entry.table.area;
  zone = entry.table.zone;
  join_group_id = entry.table.join_group_id;
  wear = usage_of usage entry.table.id;
}

abbrev pub highest_wear : List SeatingSuggestionTable → ℕ
highest_wear [] = 0
highest_wear (t ∷ ts) = max t.wear (highest_wear ts)

unfoldable pub build_suggestion : ℕ → List (String × ℕ) → List TableEntry → SeatingSuggestion
build_suggestion party_size usage entries =
    let tables = map (summarise_table usage) entries in
    let total_capacity = sum_by (λ (t : SeatingSuggestionTable). t.capacity) tables in
    let split_count = length tables in
    let wear_total = sum_by (λ (t : SeatingSuggestionTable). t.wear) tables in
    let wear_max = highest_wear tables in
    let excess_capacity = total_capacity - party_size in
    record {
      table_ids = map (λ (t : SeatingSuggestionTable). t.table_id) tables;
      tables = tables;
      total_capacity = total_capacity;
      split_count = split_count;
      excess_capacity = excess_capacity;
      wear_total = wear_total;
      wear_max = wear_max;
      score =
          wear_max * score_wear_max
          + wear_total * score_wear_total
          + split_count * score_split
          + excess_capacity * score_excess;
    }

append_text : String → String → String
append_text String.[] t = t
append_text (String.◌∷◌ c s) t = String.◌∷◌ c (append_text s t)

-- `ids.join(',')`
unfoldable pub join_ids : List String → String
unfolding append_text
join_ids [] = ""
join_ids (id ∷ []) = id
join_ids (id ∷ x ∷ ids) = append_text id (append_text "," (join_ids (x ∷ ids)))

unfoldable pub suggestion_le : Collation → SeatingSuggestion → SeatingSuggestion → Bool
unfolding join_ids
suggestion_le order a b =
    if a.score != b.score
    then leb a.score b.score
    else if a.split_count != b.split_count
    then leb a.split_count b.split_count
    else if a.total_capacity != b.total_capacity
    then leb a.total_capacity b.total_capacity
    else order.locale_le (join_ids a.table_ids) (join_ids b.table_ids)
