-- ===== src/Seating/Combos/Laws.antt =====
-- What the search for tables to join finds: the smallest choices that seat the party.
use restaurant_reservation_s.Prelude.{
  ℕ, zero, suc, ◌+◌, ◌-◌, ◌≤◌, ◌<◌, ◌≡◌, refl, ap, sym, ◌∙◌, subst, ◌⊎◌, inl, inr, ◌↔◌, true, List,
  [], ◌∷◌, ◌++◌, map, sum_by, length, leb, ltb, arith, In, In-map, of_In-map, In-append,
  In-append_left, In-append_right, In-filter_of_In, of_In-filter, Bool-cases, List-cases, leb→le,
  le→leb,
}
use restaurant_reservation_s.Seating.Combos.{
  combinations_of_size, covering, combos_from, find_minimal_combos,
}

module _ {ℓ} {A : Type ℓ} where
  -- A choice of items, in their order.
  abbrev pub Choice : List A → List A → Type ℓ
  Choice c [] = c ≡ []
  Choice c (x ∷ xs) = Choice c xs ⊎ ((d : List A) × (c ≡ x ∷ d) × Choice d xs)

  Choice-length : (c xs : List A) → Choice c xs → length c ≤ length xs
  Choice-length c [] h = rw h (omega arith)
  Choice-length c (x ∷ xs) (inl h) = omega (arith, Choice-length c xs h)
  Choice-length c (x ∷ xs) (inr (d, e, h)) = rw e (omega (arith, Choice-length d xs h))

  nil-Choice : (c xs : List A) → c ≡ [] → Choice c xs
  nil-Choice c [] e = e
  nil-Choice c (x ∷ xs) e = inl (nil-Choice c xs e)

  pub Choice-In : (c xs : List A) (a : A) → Choice c xs → In a c → In a xs
  Choice-In c [] a h i = elim (subst (λ l. In a l) h i) [ ]
  Choice-In c (x ∷ xs) a (inl h) i = inr (Choice-In c xs a h i)
  Choice-In c (x ∷ xs) a (inr (d, e, h)) i = elim (subst (λ l. In a l) e i) [
    | inl q ↦ inl q
    | inr j ↦ inr (Choice-In d xs a h j)
  ]

  length-nil : (c : List A) → length c ≡ 0 → c ≡ []
  length-nil [] e = refl
  length-nil (x ∷ c) e = absurd (omega arith)

  tail-length : (x : A) (c d : List A) (n : ℕ) → c ≡ x ∷ d → length c ≡ suc n → length d ≡ n
  tail-length x c d n e l = let f : length c ≡ suc (length d) = ap length e in omega arith

  abbrev pub AreChoices : ℕ → List A → Type ℓ
  AreChoices n xs = (c : List A) → In c (combinations_of_size n xs) ↔ (Choice c xs × (length c ≡ n))

  singles-AreChoices : (xs : List A) → AreChoices 1 xs
  singles-AreChoices xs c = (there xs, λ h. back xs h.0 h.1)
    where
      there : (ys : List A) → In c (map (λ x. x ∷ []) ys) → Choice c ys × (length c ≡ 1)
      there [] i = elim i [ ]
      there (y ∷ ys) (inl e) = (inr ([], e, nil-Choice [] ys refl), ap length e)
      there (y ∷ ys) (inr i) = let r = there ys i in (inl r.0, r.1)

      back : (ys : List A) → Choice c ys → length c ≡ 1 → In c (map (λ x. x ∷ []) ys)
      back [] h l = absurd (let f : length c ≡ 0 = ap length h in omega arith)
      back (y ∷ ys) (inl h) l = inr (back ys h l)
      back (y ∷ ys) (inr (d, e, h)) l =
          inl (e ∙ ap (λ t. y ∷ t) (length-nil d (tail-length y c d 0 e l)))

  longer-AreChoices :
      (n : ℕ) (x : A) (xs : List A)
      → AreChoices (suc n) xs
      → AreChoices (suc (suc n)) xs
      → AreChoices (suc (suc n)) (x ∷ xs)
  longer-AreChoices n x xs with_x without c = elim (Bool-cases (ltb (length xs) (suc n))) [
    | inl few ↦ rw few (λ i. elim i [ ], λ h. absurd (too_few few h.0 h.1))
    | inr many ↦ rw many (there, back)
  ]
    where
      too_few : ltb (length xs) (suc n) ≡ true → Choice c (x ∷ xs) → length c ≡ suc (suc n) → ⊥
      too_few few h l = ground (arith, Choice-length c (x ∷ xs) h)

      heads : List (List A)
      heads = map (λ d. x ∷ d) (combinations_of_size (suc n) xs)

      there :
          In c (heads ++ combinations_of_size (suc (suc n)) xs)
          → Choice c (x ∷ xs) × (length c ≡ suc (suc n))
      there i = elim (In-append c heads (combinations_of_size (suc (suc n)) xs) i) [
        | inl j ↦
            let w = of_In-map (λ (d : List A). x ∷ d) c (combinations_of_size (suc n) xs) j in
            let r = (with_x w.0).0 w.1 in (inr (w.0, w.2, r.0), ap length w.2 ∙ ap suc r.1)
        | inr j ↦ let r = (without c).0 j in (inl r.0, r.1)
      ]

      back :
          Choice c (x ∷ xs) × (length c ≡ suc (suc n))
          → In c (heads ++ combinations_of_size (suc (suc n)) xs)
      back (inl h, l) =
          In-append_right c heads (combinations_of_size (suc (suc n)) xs) ((without c).1 (h, l))
      back (inr (d, e, h), l) = In-append_left c heads (combinations_of_size (suc (suc n)) xs) (
          subst (λ t. In t heads) (sym e)
            (In-map (λ (t : List A). x ∷ t) d (combinations_of_size (suc n) xs)
              ((with_x d).1 (h, tail-length x c d (suc n) e l))))

  -- The combinations of a size are the choices of that many items.
  pub combinations_of_size_iff :
      (n : ℕ) (xs c : List A)
      → In c (combinations_of_size (suc n) xs) ↔ (Choice c xs × (length c ≡ suc n))
  combinations_of_size_iff zero xs = singles-AreChoices xs
  combinations_of_size_iff (suc n) [] =
      λ c. (λ i. elim i [ ], λ h. absurd (let f : length c ≡ 0 = ap length h.0 in omega arith))
  combinations_of_size_iff (suc n) (x ∷ xs) =
      longer-AreChoices n x xs (combinations_of_size_iff n xs) (combinations_of_size_iff (suc n) xs)

  module _ (capacity : A → ℕ) (party_size : ℕ) where
    covering_iff :
        (n : ℕ) (xs c : List A)
        → In c (covering capacity party_size xs (suc n))
          ↔ (Choice c xs × (length c ≡ suc n) × (party_size ≤ sum_by capacity c))
    covering_iff n xs c = (
      λ i.
          let f =
            of_In-filter (λ d. leb party_size (sum_by capacity d)) c
              (combinations_of_size (suc n) xs) i in
          let g = (combinations_of_size_iff n xs c).0 f.0 in
          (g.0, g.1, leb→le party_size (sum_by capacity c) f.1),
      λ h.
          In-filter_of_In (λ d. leb party_size (sum_by capacity d)) c
            (combinations_of_size (suc n) xs) ((combinations_of_size_iff n xs c).1 (h.0, h.1))
            (le→leb party_size (sum_by capacity c) h.2),
    )

    -- A choice of at least a size that seats the party, where none of fewer items does.
    abbrev pub MinimalFrom : ℕ → List A → List A → Type ℓ
    MinimalFrom size xs c =
        Choice c xs
        × (size ≤ length c)
        × (party_size ≤ sum_by capacity c)
        × (¬ (
            (d : List A) × Choice d xs
            × (size ≤ length d)
            × (length d < length c)
            × (party_size ≤ sum_by capacity d)))

    none_covers :
        (n : ℕ) (xs d : List A)
        → covering capacity party_size xs (suc n) ≡ []
        → Choice d xs
        → length d ≡ suc n
        → ¬ (party_size ≤ sum_by capacity d)
    none_covers n xs d e h l p =
        elim (subst (λ t. In d t) e ((covering_iff n xs d).1 (h, l, p))) [ ]

    next_size :
        (n : ℕ) (xs c : List A)
        → covering capacity party_size xs (suc n) ≡ []
        → MinimalFrom (suc (suc n)) xs c ↔ MinimalFrom (suc n) xs c
    next_size n xs c e = (
      λ h. (h.0, omega (arith, h.1), h.2, λ w. h.3 (w.0, w.1, longer w.0 w.1 w.2 w.4, w.3, w.4)),
      λ h. (h.0, longer c h.0 h.1 h.2, h.2, λ w. h.3 (w.0, w.1, omega (arith, w.2), w.3, w.4)),
    )
      where
        longer :
            (d : List A)
            → Choice d xs
            → suc n ≤ length d
            → party_size ≤ sum_by capacity d
            → suc (suc n) ≤ length d
        longer d h l p = let no = none_covers n xs d e h in ground arith

    this_size :
        (n : ℕ) (xs c x : List A)
        → In x (covering capacity party_size xs (suc n))
        → In c (covering capacity party_size xs (suc n)) ↔ MinimalFrom (suc n) xs c
    this_size n xs c x found =
        let f = (covering_iff n xs x).0 found in
        (
          λ i.
              let g = (covering_iff n xs c).0 i in
              (g.0, omega (arith, g.1), g.2, λ w. absurd (omega (arith, g.1, w.2, w.3))),
          λ h. (covering_iff n xs c).1 (h.0, exact h f, h.2),
        )
      where
        exact :
            MinimalFrom (suc n) xs c
            → Choice x xs × (length x ≡ suc n) × (party_size ≤ sum_by capacity x)
            → length c ≡ suc n
        exact h f =
            let no : ¬ (length x < length c) = λ l. h.3 (x, f.0, omega (arith, f.1), l, f.2) in
            ground arith

    combos_from_iff :
        (left n : ℕ) (xs c : List A)
        → length xs ≤ left + n
        → In c (combos_from capacity party_size xs left (suc n)) ↔ MinimalFrom (suc n) xs c
    combos_from_iff zero n xs c l =
        (λ i. elim i [ ], λ h. absurd (omega (arith, Choice-length c xs h.0, h.1)))
    combos_from_iff (suc left) n xs c l =
        elim (List-cases (covering capacity party_size xs (suc n))) [
          | inl e ↦
              let later = combos_from_iff left (suc n) xs c (omega arith) in
              let step = next_size n xs c e in
              rw e (λ i. step.0 (later.0 i), λ h. later.1 (step.1 h))
          | inr (x, rest, e) ↦
              let all = this_size n xs c x (subst (λ t. In x t) (sym e) (inl refl)) in
              rw e (rw e at all)
        ]

  -- The tables to join: exactly the choices of two or more that seat the party, where no choice
  -- of two or more that seats the party has fewer tables.
  pub find_minimal_combos_iff :
      (capacity : A → ℕ) (tables : List A) (party_size : ℕ) (c : List A)
      → In c (find_minimal_combos capacity tables party_size)
        ↔ MinimalFrom capacity party_size 2 tables c
  unfolding find_minimal_combos
  find_minimal_combos_iff capacity tables party_size c =
      combos_from_iff capacity party_size (length tables - 1) 1 tables c (omega arith)
