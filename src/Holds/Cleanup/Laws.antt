-- ===== src/Holds/Cleanup/Laws.antt =====
-- The sweep of holds ends.
use restaurant_reservation_s.Prelude.{
  ℕ, zero, suc, ◌+◌, ◌≤◌, ◌<◌, ◌≡◌, refl, sym, ap, ◌∙◌, subst, inl, inr, Bool, true, false, some,
  List, [], ◌∷◌, map, filter, sort, take, length, contains, contains-In, ltb, leb, ◌==◌, string_eq,
  if◌then◌else◌, arith, In, In-map, of_In-filter, of_In-sort, In-take, length-sort, filter-eq-nil,
  All, All-intro, Bool-cases, List-cases, String,
}
use restaurant_reservation_s.Booking.Types.{HoldStatus, hold_status_eq, HoldRow}
use restaurant_reservation_s.Holds.{expire}
use restaurant_reservation_s.Holds.Cleanup.{
  sweep_batch_size, has_run_out, batch_of, expire_batch, Sweep, sweep_from, sweep,
}

abbrev pub is_held : HoldRow → Bool
is_held h = h.status == HoldStatus.held

abbrev pub hold_ids : List HoldRow → List String
hold_ids holds = map (λ h. h.id) holds

-- What a batch takes are rows that ran out.
pub batch_of-run_out :
    (now : ℕ) (holds : List HoldRow) (h : HoldRow)
    → In h (batch_of now holds)
    → In h holds × (has_run_out now h ≡ true)
unfolding batch_of
batch_of-run_out now holds h i =
    of_In-filter (has_run_out now) h holds (of_In-sort _ h _ (In-take sweep_batch_size h _ i))

nil-take {ℓ} : {A : Type ℓ} (n : ℕ) (xs : List A) → take (suc n) xs ≡ [] → xs ≡ []
nil-take n [] e = refl
nil-take n (x ∷ xs) e = cc

nil-length {ℓ} : {A : Type ℓ} (xs : List A) → length xs ≡ 0 → xs ≡ []
nil-length [] e = refl
nil-length (x ∷ xs) e = absurd (omega arith)

-- An empty batch means that none ran out.
pub batch_of-nil :
    (now : ℕ) (holds : List HoldRow)
    → batch_of now holds ≡ []
    → All (λ h. has_run_out now h ≡ false) holds
unfolding batch_of
batch_of-nil now holds e =
    let late = filter (has_run_out now) holds in
    let sorted = sort (λ (a b : HoldRow). leb a.expires_at b.expires_at) late in
    let n : late ≡ [] = nil-length late (
      sym (length-sort (λ (a b : HoldRow). leb a.expires_at b.expires_at) late)
      ∙ ap length (nil-take 49 sorted e)) in
    All-intro (λ h. has_run_out now h ≡ false) holds
      (λ h i. filter-eq-nil (has_run_out now) h holds n i)

-- A change that makes no row held, and one row no longer held, leaves fewer held rows.
count-le :
    (g : HoldRow → HoldRow) (holds : List HoldRow)
    → ((h : HoldRow) → is_held (g h) ≡ true → is_held h ≡ true)
    → length (filter is_held (map g holds)) ≤ length (filter is_held holds)
count-le g [] k = omega arith
count-le g (h ∷ holds) k = ground (arith, k h, count-le g holds k)

count-lt :
    (g : HoldRow → HoldRow) (holds : List HoldRow) (x : HoldRow)
    → ((h : HoldRow) → is_held (g h) ≡ true → is_held h ≡ true)
    → In x holds
    → is_held x ≡ true
    → is_held (g x) ≡ false
    → length (filter is_held (map g holds)) < length (filter is_held holds)
count-lt g [] x k i a b = elim i [ ]
count-lt g (h ∷ holds) x k (inl e) a b =
    let a' : is_held h ≡ true = subst (λ y. is_held y ≡ true) e a in
    let b' : is_held (g h) ≡ false = subst (λ y. is_held (g y) ≡ false) e b in
    let l = count-le g holds k in rw (a', b') (omega arith)
count-lt g (h ∷ holds) x k (inr i) a b = ground (arith, k h, count-lt g holds x k i a b)

expire_batch-fewer :
    (now : ℕ) (holds : List HoldRow) (x : HoldRow)
    → In x (batch_of now holds)
    → length (filter is_held (expire_batch (batch_of now holds) holds))
      < length (filter is_held holds)
unfolding expire_batch
expire_batch-fewer now holds x i =
    let batch = batch_of now holds in
    let q = batch_of-run_out now holds x i in
    let c : contains (map (λ b. b.id) batch) x.id ≡ true =
      (contains-In x.id (map (λ b. b.id) batch)).1 (In-map (λ (b : HoldRow). b.id) x batch i) in
    count-lt (λ h. if contains (map (λ b. b.id) batch) h.id then expire h else h) holds x keeps q.0
      (ground arith) (rw c refl)
  where
    keeps :
        (h : HoldRow)
        → is_held (if contains (map (λ b. b.id) (batch_of now holds)) h.id then expire h else h)
          ≡ true
        → is_held h ≡ true
    keeps h e = elim (Bool-cases (contains (map (λ b. b.id) (batch_of now holds)) h.id)) [
      | inl c ↦ absurd (let d : is_held (expire h) ≡ true = rw c at e in cc)
      | inr c ↦ rw c at e
    ]

sweep_from-total :
    (fuel : ℕ) (clock : ℕ → ℕ) (total batches : ℕ) (holds : List HoldRow)
    → length (filter is_held holds) < fuel
    → (r : Sweep) × (sweep_from fuel clock total batches holds ≡ some r)
unfolding sweep_from
sweep_from-total zero clock total batches holds h = absurd (omega arith)
sweep_from-total (suc fuel) clock total batches holds h =
    elim (List-cases (batch_of (clock batches) holds)) [
      | inl e ↦ (record { total_expired = total; batches = batches; holds = holds }, rw e refl)
      | inr (x, rest, e) ↦
          let fewer =
            expire_batch-fewer (clock batches) holds x (subst (λ l. In x l) (sym e) (inl refl)) in
          let batch = batch_of (clock batches) holds in
          let r =
            sweep_from-total fuel clock (total + length batch) (suc batches)
              (expire_batch batch holds) (omega arith) in
          let some_left : ltb 0 (length batch) ≡ true = rw e (ground arith) in
          (r.0, rw some_left r.1)
    ]

-- The sweep ends, whatever the clock: one batch more than there are held rows is enough.
pub sweep_total :
    (clock : ℕ → ℕ) (holds : List HoldRow)
    → (r : Sweep) × (sweep (suc (length (filter is_held holds))) clock holds ≡ some r)
unfolding sweep
sweep_total clock holds =
    sweep_from-total (suc (length (filter is_held holds))) clock 0 0 holds (omega arith)
