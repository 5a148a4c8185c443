-- ===== src/Engine/Rules.antt =====
-- `pickRule`: the availability rule for a party size.
pub mod Laws
use restaurant_reservation_s.Prelude.{
  ℕ, ◌-◌, ◌≤◌, ◌<◌, ◌≡◌, refl, ◌⊎◌, inl, inr, Bool, true, false, ◌&&◌, ◌||◌, not, Option, none,
  some, List, [], ◌∷◌, arith, ltb, ◌==◌, nat_eq, if◌then◌else◌, In, Bool-cases,
}
use restaurant_reservation_s.Engine.Types.{AvailabilityRule}

abbrev pub covers : ℕ → AvailabilityRule → Bool
covers party_size rule =
    not (ltb party_size rule.min_party_size || ltb rule.max_party_size party_size)

abbrev pub span : AvailabilityRule → ℕ
span rule = rule.max_party_size - rule.min_party_size

-- A rule that covers the party has its minimum at or below its maximum, so its span is a number.
abbrev pub is_better : AvailabilityRule → AvailabilityRule → Bool
is_better rule candidate =
    ltb (span rule) (span candidate)
    || (span rule == span candidate && ltb candidate.min_party_size rule.min_party_size)

abbrev pub better_of : AvailabilityRule → Option AvailabilityRule → Option AvailabilityRule
better_of rule none = some rule
better_of rule (some candidate) = if is_better rule candidate then some rule else some candidate

unfoldable pub pick_from :
    Option AvailabilityRule → List AvailabilityRule → ℕ → Option AvailabilityRule
pick_from candidate [] party_size = candidate
pick_from candidate (rule ∷ rules) party_size =
    pick_from (if covers party_size rule then better_of rule candidate else candidate) rules
      party_size

unfoldable pub pick_rule : List AvailabilityRule → ℕ → Option AvailabilityRule
unfolding pick_from
pick_rule rules party_size = pick_from none rules party_size
