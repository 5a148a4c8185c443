-- ===== src/Engine/Rules/Laws.antt =====
-- `pickRule` answers the tightest rule that covers the party.
use restaurant_reservation_s.Prelude.{
  ℕ, ◌≤◌, ◌<◌, ◌≡◌, refl, ◌⊎◌, inl, inr, true, false, Option, none, some, List, [], ◌∷◌, arith,
  if◌then◌else◌, In, Bool-cases, Option-cases,
}
use restaurant_reservation_s.Engine.Types.{AvailabilityRule}
use restaurant_reservation_s.Engine.Rules.{covers, span, is_better, better_of, pick_from, pick_rule}

-- `r` is no better a choice than `best`: its span is larger, or equal with no larger a minimum.
abbrev pub NoBetter : AvailabilityRule → AvailabilityRule → Type 0
NoBetter best r =
    (span best < span r) ⊎ ((span best ≡ span r) × (r.min_party_size ≤ best.min_party_size))

NoBetter-is_better : (a b : AvailabilityRule) → is_better a b ≡ false → NoBetter b a
NoBetter-is_better a b h = ground arith

NoBetter-refl : (a : AvailabilityRule) → NoBetter a a
NoBetter-refl a = ground arith

NoBetter-trans : (a b c : AvailabilityRule) → NoBetter a b → NoBetter b c → NoBetter a c
NoBetter-trans a b c h k = ground arith

-- The candidate never gets worse.
pick_from-some :
    (party : ℕ) (c : AvailabilityRule) (rules : List AvailabilityRule)
    → (b : AvailabilityRule) × (pick_from (some c) rules party ≡ some b) × NoBetter b c
unfolding pick_from
pick_from-some party c [] = (c, refl, NoBetter-refl c)
pick_from-some party c (rule ∷ rules) = elim (Bool-cases (covers party rule)) [
  | inr other ↦
      let w : (b : AvailabilityRule) × (pick_from (some c) rules party ≡ some b) × NoBetter b c =
        pick_from-some party c rules in
      (w.0, ground (arith, w.1), w.2)
  | inl fits ↦ elim (Bool-cases (is_better rule c)) [
    | inr worse ↦
        let w : (b : AvailabilityRule) × (pick_from (some c) rules party ≡ some b) × NoBetter b c =
          pick_from-some party c rules in
        (w.0, ground (arith, w.1), w.2)
    | inl better ↦
        let w : (b : AvailabilityRule) × (pick_from (some rule) rules party ≡ some b)
            × NoBetter b rule =
          pick_from-some party rule rules in
        (w.0, ground (arith, w.1), NoBetter-trans w.0 rule c w.2 (ground arith))
  ]
]

pick_from-NoBetter :
    (party : ℕ) (candidate : Option AvailabilityRule) (rules : List AvailabilityRule)
    (b r : AvailabilityRule)
    → pick_from candidate rules party ≡ some b
    → In r rules
    → covers party r ≡ true
    → NoBetter b r
unfolding pick_from
pick_from-NoBetter party candidate [] b r h i k = elim i [ ]
pick_from-NoBetter party candidate (rule ∷ rules) b r h (inr i) k =
    pick_from-NoBetter party (if covers party rule then better_of rule candidate else candidate)
      rules b r h i k
pick_from-NoBetter party none (rule ∷ rules) b r h (inl e) k =
    ground (arith, pick_from-some party rule rules)
pick_from-NoBetter party (some c) (rule ∷ rules) b r h (inl e) k =
    elim (Bool-cases (is_better rule c)) [
      | inl better ↦ ground (arith, pick_from-some party rule rules)
      | inr worse ↦
          let w = pick_from-some party c rules in
          let q : b ≡ w.0 = ground (arith, w.1) in
          let v : NoBetter b c = rw q w.2 in
          NoBetter-trans b c r v (rw e (NoBetter-is_better rule c worse))
    ]

pick_from-In :
    (party : ℕ) (candidate : Option AvailabilityRule) (rules : List AvailabilityRule)
    (b : AvailabilityRule)
    → pick_from candidate rules party ≡ some b
    → (candidate ≡ some b) ⊎ (In b rules × (covers party b ≡ true))
unfolding pick_from
pick_from-In party candidate [] b h = inl h
pick_from-In party none (rule ∷ rules) b h =
    ground (arith, pick_from-In party none rules b, pick_from-In party (some rule) rules b)
pick_from-In party (some c) (rule ∷ rules) b h =
    ground (arith, pick_from-In party (some c) rules b, pick_from-In party (some rule) rules b)

pick_from-none :
    (party : ℕ) (rules : List AvailabilityRule) (r : AvailabilityRule)
    → pick_from none rules party ≡ none
    → In r rules
    → covers party r ≡ false
unfolding pick_from
pick_from-none party [] r h i = elim i [ ]
pick_from-none party (rule ∷ rules) r h i =
    ground (arith, pick_from-none party rules r, pick_from-some party rule rules)

-- What `pickRule` answers: nothing exactly where no rule covers the party; otherwise a rule of the
-- list that covers it, and that no rule of the list which covers it betters: none has a smaller
-- span, nor the same span and a larger minimum.
abbrev pub IsBestRule : List AvailabilityRule → ℕ → Option AvailabilityRule → Type 0
IsBestRule rules party none = (r : AvailabilityRule) → In r rules → covers party r ≡ false
IsBestRule rules party (some best) =
    In best rules
    × (covers party best ≡ true)
    × ((r : AvailabilityRule) → In r rules → covers party r ≡ true → NoBetter best r)

-- `pickRule` answers null exactly where no rule covers the party size, and otherwise a covering
-- rule of the list with the smallest span, and of those one with the largest minimum.
pub pick_rule-IsBestRule :
    (rules : List AvailabilityRule) (party : ℕ) → IsBestRule rules party (pick_rule rules party)
unfolding pick_rule
pick_rule-IsBestRule rules party = elim (Option-cases (pick_from none rules party)) [
  | inl e ↦ rw e (λ r. pick_from-none party rules r e)
  | inr (b, e) ↦
      let i : In b rules × (covers party b ≡ true) =
        ground (arith, pick_from-In party none rules b) in
      rw e (i.0, i.1, λ r. pick_from-NoBetter party none rules b r e)
]
