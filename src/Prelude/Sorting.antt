-- ===== src/Prelude/Sorting.antt =====
-- `xs.sort(compare)`: a stable sort, by insertion. `le` is `compare(a, b) <= 0`.
use mathlib.Core.Path.{◌≡◌, refl, ap, ◌∙◌}
use mathlib.Core.Logic.{◌⊎◌, inl, inr}
use mathlib.Core.List.{List, [], ◌∷◌}
use mathlib.Core.Bool.{Bool, true, false}
use Prim.Native.Nat.{ℕ, suc, ◌+◌}
use native.Mathlib.Omega.{arith}
use restaurant_reservation_s.Prelude.Tests.{if◌then◌else◌, Bool-cases}
use restaurant_reservation_s.Prelude.Lists.{length, In, All, sum_by, All-of_In, All-intro}

module _ {ℓ} {A : Type ℓ} (le : A → A → Bool) where
  -- `x` stands before what it is not after, so equal elements keep their order.
  abbrev pub insert_sorted : A → List A → List A
  insert_sorted x [] = x ∷ []
  insert_sorted x (y ∷ ys) = if le x y then x ∷ y ∷ ys else y ∷ insert_sorted x ys

  abbrev pub sort : List A → List A
  sort [] = []
  sort (x ∷ xs) = insert_sorted x (sort xs)

  -- Each element is at or before all that follow it.
  abbrev pub IsSorted : List A → Type ℓ
  IsSorted [] = Unit
  IsSorted (x ∷ xs) = All (λ y. le x y ≡ true) xs × IsSorted xs

  pub length-insert_sorted : (x : A) (xs : List A) → length (insert_sorted x xs) ≡ suc (length xs)
  length-insert_sorted x [] = refl
  length-insert_sorted x (y ∷ ys) = ground (arith, length-insert_sorted x ys)

  pub length-sort : (xs : List A) → length (sort xs) ≡ length xs
  length-sort [] = refl
  length-sort (x ∷ xs) = length-insert_sorted x (sort xs) ∙ ap suc (length-sort xs)

  pub In-insert_sorted : (a x : A) (xs : List A) → (a ≡ x) ⊎ In a xs → In a (insert_sorted x xs)
  In-insert_sorted a x [] h = ground arith
  In-insert_sorted a x (y ∷ ys) h = ground (arith, In-insert_sorted a x ys)

  pub of_In-insert_sorted : (a x : A) (xs : List A) → In a (insert_sorted x xs) → (a ≡ x) ⊎ In a xs
  of_In-insert_sorted a x [] h = ground arith
  of_In-insert_sorted a x (y ∷ ys) h = ground (arith, of_In-insert_sorted a x ys)

  pub In-sort : (a : A) (xs : List A) → In a xs → In a (sort xs)
  In-sort a [] h = h
  In-sort a (x ∷ xs) (inl e) = In-insert_sorted a x (sort xs) (inl e)
  In-sort a (x ∷ xs) (inr h) = In-insert_sorted a x (sort xs) (inr (In-sort a xs h))

  pub of_In-sort : (a : A) (xs : List A) → In a (sort xs) → In a xs
  of_In-sort a [] h = h
  of_In-sort a (x ∷ xs) h = elim (of_In-insert_sorted a x (sort xs) h) [
    | inl e ↦ inl e
    | inr i ↦ inr (of_In-sort a xs i)
  ]

  pub sum_by-insert_sorted :
      (f : A → ℕ) (x : A) (xs : List A) → sum_by f (insert_sorted x xs) ≡ f x + sum_by f xs
  sum_by-insert_sorted f x [] = refl
  sum_by-insert_sorted f x (y ∷ ys) = ground (arith, sum_by-insert_sorted f x ys)

  pub sum_by-sort : (f : A → ℕ) (xs : List A) → sum_by f (sort xs) ≡ sum_by f xs
  sum_by-sort f [] = refl
  sum_by-sort f (x ∷ xs) = omega (arith, sum_by-insert_sorted f x (sort xs), sum_by-sort f xs)

  module _ (le_trans : (x y z : A) → le x y ≡ true → le y z ≡ true → le x z ≡ true)
      (le_total : (x y : A) → le x y ≡ false → le y x ≡ true) where
    All-trans :
        (x y : A) (ys : List A)
        → le x y ≡ true
        → All (λ z. le y z ≡ true) ys
        → All (λ z. le x z ≡ true) ys
    All-trans x y [] h a = tt
    All-trans x y (z ∷ zs) h a = (le_trans x y z h a.0, All-trans x y zs h a.1)

    All-insert_sorted :
        (z x : A) (ys : List A)
        → le z x ≡ true
        → All (λ y. le z y ≡ true) ys
        → All (λ y. le z y ≡ true) (insert_sorted x ys)
    All-insert_sorted z x ys h a = All-intro _ (insert_sorted x ys) λ y i.
        elim (of_In-insert_sorted y x ys i) [
          | inl e ↦ rw e h
          | inr j ↦ All-of_In (λ w. le z w ≡ true) y ys a j
        ]

    insert_sorted-IsSorted : (x : A) (xs : List A) → IsSorted xs → IsSorted (insert_sorted x xs)
    insert_sorted-IsSorted x [] s = (tt, tt)
    insert_sorted-IsSorted x (y ∷ ys) s = elim (Bool-cases (le x y)) [
      | inl e ↦ rw e ((e, All-trans x y ys e s.0), s)
      | inr e ↦
          rw e (All-insert_sorted y x ys (le_total x y e) s.0, insert_sorted-IsSorted x ys s.1)
    ]

    pub sort-IsSorted : (xs : List A) → IsSorted (sort xs)
    sort-IsSorted [] = tt
    sort-IsSorted (x ∷ xs) = insert_sorted-IsSorted x (sort xs) (sort-IsSorted xs)
