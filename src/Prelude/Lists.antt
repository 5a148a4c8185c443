-- ===== src/Prelude/Lists.antt =====
-- Lists as the source's arrays: Boolean filters and searches, sums, sets kept as lists.
use Prim.Native.Nat.{ℕ, zero, suc, ◌+◌, ◌≤◌}
use mathlib.Core.Path.{◌≡◌, refl, ap, sym}
use mathlib.Core.Logic.{◌⊎◌, inl, inr, ◌↔◌}
use mathlib.Core.List.{List, [], ◌∷◌, ◌++◌, map}
use mathlib.Core.Option
use mathlib.Core.Option.{Option, none, some}
use mathlib.Core.Bool.{Bool, true, false, ◌&&◌, ◌||◌}
use native.Mathlib.Omega.{arith}
use restaurant_reservation_s.Prelude.Tests.{if◌then◌else◌, Eq, ◌==◌, Bool-cases}

-- The type with no element, at every level.
pub data Never {ℓ} : Type ℓ where

module _ {ℓ} {A : Type ℓ} where
  abbrev pub length : List A → ℕ
  length [] = 0
  length (x ∷ xs) = suc (length xs)

  abbrev pub take : ℕ → List A → List A
  take zero xs = []
  take (suc n) [] = []
  take (suc n) (x ∷ xs) = x ∷ take n xs

  -- `xs.filter(p)`
  abbrev pub filter : (A → Bool) → List A → List A
  filter p [] = []
  filter p (x ∷ xs) = if p x then x ∷ filter p xs else filter p xs

  -- `xs.some(p)`
  abbrev pub any : (A → Bool) → List A → Bool
  any p [] = false
  any p (x ∷ xs) = p x || any p xs

  -- `xs.find(p)`
  abbrev pub find : (A → Bool) → List A → Option A
  find p [] = none
  find p (x ∷ xs) = if p x then some x else find p xs

  -- Being an element, by recursion.
  abbrev pub In : A → List A → Type ℓ
  In a [] = Never
  In a (x ∷ xs) = (a ≡ x) ⊎ In a xs

  -- A predicate of every element.
  abbrev pub All {κ} : (A → Type κ) → List A → Type κ
  All P [] = Unit
  All P (x ∷ xs) = P x × All P xs

  -- The sum of a measure over a list, `xs.reduce((sum, x) => sum + f(x), 0)`.
  abbrev pub sum_by : (A → ℕ) → List A → ℕ
  sum_by f [] = 0
  sum_by f (x ∷ xs) = f x + sum_by f xs

  -- To split on a computed list and keep the equation.
  pub List-cases : (l : List A) → (l ≡ []) ⊎ ((x : A) × (xs : List A) × (l ≡ x ∷ xs))
  List-cases [] = inl refl
  List-cases (x ∷ xs) = inr (x, xs, refl)

  pub length-append : (xs ys : List A) → length (xs ++ ys) ≡ length xs + length ys
  length-append [] ys = omega arith
  length-append (x ∷ xs) ys = omega (arith, length-append xs ys)

  pub length-filter-le : (p : A → Bool) (xs : List A) → length (filter p xs) ≤ length xs
  length-filter-le p [] = omega arith
  length-filter-le p (x ∷ xs) = ground (arith, length-filter-le p xs)

  pub length-take-le : (n : ℕ) (xs : List A) → length (take n xs) ≤ n
  length-take-le zero xs = omega arith
  length-take-le (suc n) [] = omega arith
  length-take-le (suc n) (x ∷ xs) = omega (arith, length-take-le n xs)

  pub In-append_left : (a : A) (xs ys : List A) → In a xs → In a (xs ++ ys)
  In-append_left a [] ys h = elim h [ ]
  In-append_left a (x ∷ xs) ys (inl e) = inl e
  In-append_left a (x ∷ xs) ys (inr h) = inr (In-append_left a xs ys h)

  pub In-append_right : (a : A) (xs ys : List A) → In a ys → In a (xs ++ ys)
  In-append_right a [] ys h = h
  In-append_right a (x ∷ xs) ys h = inr (In-append_right a xs ys h)

  pub In-append : (a : A) (xs ys : List A) → In a (xs ++ ys) → In a xs ⊎ In a ys
  In-append a [] ys h = inr h
  In-append a (x ∷ xs) ys (inl e) = inl (inl e)
  In-append a (x ∷ xs) ys (inr h) = elim (In-append a xs ys h) [
    | inl l ↦ inl (inr l)
    | inr r ↦ inr r
  ]

  pub In-take : (n : ℕ) (a : A) (xs : List A) → In a (take n xs) → In a xs
  In-take zero a xs h = elim h [ ]
  In-take (suc n) a [] h = elim h [ ]
  In-take (suc n) a (x ∷ xs) (inl e) = inl e
  In-take (suc n) a (x ∷ xs) (inr h) = inr (In-take n a xs h)

  -- What a filter keeps: the elements that pass.
  pub In-filter_of_In :
      (p : A → Bool) (a : A) (xs : List A) → In a xs → p a ≡ true → In a (filter p xs)
  In-filter_of_In p a [] h e = elim h [ ]
  In-filter_of_In p a (x ∷ xs) h e = ground (arith, In-filter_of_In p a xs)

  pub of_In-filter :
      (p : A → Bool) (a : A) (xs : List A) → In a (filter p xs) → In a xs × (p a ≡ true)
  of_In-filter p a [] h = elim h [ ]
  of_In-filter p a (x ∷ xs) h = ground (arith, of_In-filter p a xs)

  pub any-of_In : (p : A → Bool) (a : A) (xs : List A) → In a xs → p a ≡ true → any p xs ≡ true
  any-of_In p a [] h e = elim h [ ]
  any-of_In p a (x ∷ xs) h e = ground (arith, any-of_In p a xs)

  pub any_cases : (p : A → Bool) (xs : List A) → any p xs ≡ true → (a : A) × In a xs × (p a ≡ true)
  any_cases p [] h = absurd (ground arith)
  any_cases p (x ∷ xs) h = elim (Bool-cases (p x)) [
    | inl e ↦ (x, inl refl, e)
    | inr e ↦
        let r : (a : A) × In a xs × (p a ≡ true) = any_cases p xs (ground arith) in
        (r.0, inr r.1, r.2)
  ]

  pub of_any-false : (p : A → Bool) (a : A) (xs : List A) → any p xs ≡ false → In a xs → p a ≡ false
  of_any-false p a [] h i = elim i [ ]
  of_any-false p a (x ∷ xs) h i = ground (arith, of_any-false p a xs)

  pub any-false :
      (p : A → Bool) (xs : List A) → ((a : A) → In a xs → p a ≡ false) → any p xs ≡ false
  any-false p [] h = refl
  any-false p (x ∷ xs) h = ground (arith, h x (inl refl), any-false p xs (λ a i. h a (inr i)))

  pub filter-eq-nil :
      (p : A → Bool) (a : A) (xs : List A) → filter p xs ≡ [] → In a xs → p a ≡ false
  filter-eq-nil p a [] h i = elim i [ ]
  filter-eq-nil p a (x ∷ xs) h i = ground (arith, filter-eq-nil p a xs)

  pub filter_congr :
      (p q : A → Bool) (xs : List A) → ((a : A) → In a xs → p a ≡ q a) → filter p xs ≡ filter q xs
  filter_congr p q [] h = refl
  filter_congr p q (x ∷ xs) h =
      ground (arith, h x (inl refl), filter_congr p q xs (λ a i. h a (inr i)))

  pub filter-filter :
      (p q : A → Bool) (xs : List A) → filter p (filter q xs) ≡ filter (λ a. q a && p a) xs
  filter-filter p q [] = refl
  filter-filter p q (x ∷ xs) = ground (arith, filter-filter p q xs)

  pub All-of_In {κ} : (P : A → Type κ) (a : A) (xs : List A) → All P xs → In a xs → P a
  All-of_In P a [] h i = elim i [ ]
  All-of_In P a (x ∷ xs) h (inl e) = subst' (sym e) h.0
    where
      subst' : x ≡ a → P x → P a
      subst' q = λ v. rw q at v
  All-of_In P a (x ∷ xs) h (inr i) = All-of_In P a xs h.1 i

  pub All-intro {κ} : (P : A → Type κ) (xs : List A) → ((a : A) → In a xs → P a) → All P xs
  All-intro P [] h = tt
  All-intro P (x ∷ xs) h = (h x (inl refl), All-intro P xs (λ a i. h a (inr i)))

  pub find_cases :
      (p : A → Bool) (xs : List A) (a : A) → find p xs ≡ some a → In a xs × (p a ≡ true)
  find_cases p [] a h = absurd (ground arith)
  find_cases p (x ∷ xs) a h = ground (arith, find_cases p xs a)

  -- A search after a change that the search does not see.
  pub find-map :
      (p : A → Bool) (f : A → A) (xs : List A)
      → ((a : A) → p (f a) ≡ p a)
      → find p (map f xs) ≡ Option.map f (find p xs)
  find-map p f [] h = refl
  find-map p f (x ∷ xs) h = elim (Bool-cases (p x)) [
    | inl e ↦ ground (arith, h x)
    | inr e ↦ ground (arith, h x, find-map p f xs h)
  ]

module _ {ℓ κ} {A : Type ℓ} {B : Type κ} where
  pub length-map : (f : A → B) (xs : List A) → length (map f xs) ≡ length xs
  length-map f [] = refl
  length-map f (x ∷ xs) = ap suc (length-map f xs)

  pub In-map : (f : A → B) (a : A) (xs : List A) → In a xs → In (f a) (map f xs)
  In-map f a [] h = elim h [ ]
  In-map f a (x ∷ xs) (inl e) = inl (ap f e)
  In-map f a (x ∷ xs) (inr h) = inr (In-map f a xs h)

  pub of_In-map :
      (f : A → B) (b : B) (xs : List A) → In b (map f xs) → (a : A) × In a xs × (b ≡ f a)
  of_In-map f b [] h = elim h [ ]
  of_In-map f b (x ∷ xs) (inl e) = (x, inl refl, e)
  of_In-map f b (x ∷ xs) (inr h) =
      let r : (a : A) × In a xs × (b ≡ f a) = of_In-map f b xs h in (r.0, inr r.1, r.2)

-- JavaScript's `Set` and `includes`: a list without repetition, in the order of insertion.
module _ {ℓ} {A : Type ℓ} ⦃e : Eq A⦄ where
  abbrev pub contains : List A → A → Bool
  contains xs a = any (λ x. a == x) xs

  abbrev pub add_to_set : List A → A → List A
  add_to_set xs a = if contains xs a then xs else xs ++ a ∷ []

  -- `Array.from(new Set(ys))` begins at `[]`
  abbrev pub set_from : List A → List A → List A
  set_from acc [] = acc
  set_from acc (y ∷ ys) = set_from (add_to_set acc y) ys

  pub contains-In : (a : A) (xs : List A) → (contains xs a ≡ true) ↔ In a xs
  contains-In a [] = ground arith
  contains-In a (x ∷ xs) = ground (arith, e.beq_iff a x, contains-In a xs)

  pub contains-append :
      (a : A) (xs ys : List A) → contains (xs ++ ys) a ≡ (contains xs a || contains ys a)
  contains-append a [] ys = refl
  contains-append a (x ∷ xs) ys = ground (arith, contains-append a xs ys)

  pub contains-add_to_set :
      (a b : A) (xs : List A) → contains (add_to_set xs b) a ≡ (contains xs a || (a == b))
  contains-add_to_set a b xs = ground (
    arith,
    e.beq_iff a b,
    contains-append a xs (b ∷ []),
    contains-In a xs,
    contains-In b xs,
    λ (p : a ≡ b). ap (contains xs) p,
  )

  pub contains-set_from :
      (a : A) (acc ys : List A) → contains (set_from acc ys) a ≡ (contains acc a || contains ys a)
  contains-set_from a acc [] = ground arith
  contains-set_from a acc (y ∷ ys) =
      ground (arith, contains-set_from a (add_to_set acc y) ys, contains-add_to_set a y acc)

  -- No element twice.
  abbrev pub IsNodup : List A → Type 0
  IsNodup [] = Unit {0}
  IsNodup (x ∷ xs) = (contains xs x ≡ false) × IsNodup xs

  IsNodup-snoc : (xs : List A) (a : A) → IsNodup xs → contains xs a ≡ false → IsNodup (xs ++ a ∷ [])
  IsNodup-snoc [] a n h = (refl, tt)
  IsNodup-snoc (x ∷ xs) a n h = (
    ground (arith, contains-append x xs (a ∷ []), e.beq_iff x a, e.beq_iff a x),
    IsNodup-snoc xs a n.1 (ground arith),
  )

  pub set_from-IsNodup : (acc ys : List A) → IsNodup acc → IsNodup (set_from acc ys)
  set_from-IsNodup acc [] n = n
  set_from-IsNodup acc (y ∷ ys) n = elim (Bool-cases (contains acc y)) [
    | inl old ↦ rw old (set_from-IsNodup acc ys n)
    | inr new ↦ rw new (set_from-IsNodup (acc ++ y ∷ []) ys (IsNodup-snoc acc y n new))
  ]
