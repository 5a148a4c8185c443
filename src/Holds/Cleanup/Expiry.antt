-- ===== src/Holds/Cleanup/Expiry.antt =====
-- The sweep expires the holds that ran out and no others.
use restaurant_reservation_s.Prelude.{
  ℕ, zero, suc, ◌+◌, ◌<◌, ◌≡◌, refl, sym, ap, ◌∙◌, subst, ◌⊎◌, inl, inr, true, false, some, List,
  [], ◌∷◌, map, length, contains, contains-In, ltb, string_eq, if◌then◌else◌, arith, In, In-map,
  of_In-map, All, IsNodup, Bool-cases, List-cases, eq_of_==,
}
use restaurant_reservation_s.Booking.Types.{HoldStatus, hold_status_eq, HoldRow}
use restaurant_reservation_s.Holds.{expire}
use restaurant_reservation_s.Holds.Cleanup.{
  has_run_out, batch_of, expire_batch, Sweep, sweep_from, sweep,
}
use restaurant_reservation_s.Holds.Cleanup.Laws.{hold_ids, batch_of-run_out, batch_of-nil}

-- What the sweep may do to a row: nothing, or expire it where it was held and had run out.
abbrev pub IsSwept : (ℕ → ℕ) → HoldRow → HoldRow → Type 0
IsSwept clock h k =
    (k ≡ h) ⊎ ((k ≡ expire h) × (h.status ≡ HoldStatus.held) × ((m : ℕ) × (h.expires_at < clock m)))

abbrev pub AreSwept : (ℕ → ℕ) → List HoldRow → List HoldRow → Type 0
AreSwept clock [] [] = Unit {0}
AreSwept clock [] (k ∷ ks) = ⊥
AreSwept clock (h ∷ hs) [] = ⊥
AreSwept clock (h ∷ hs) (k ∷ ks) = IsSwept clock h k × AreSwept clock hs ks

IsSwept-trans :
    (clock : ℕ → ℕ) (h k l : HoldRow) → IsSwept clock h k → IsSwept clock k l → IsSwept clock h l
IsSwept-trans clock h k l (inl e) q = subst (λ x. IsSwept clock x l) e q
IsSwept-trans clock h k l (inr p) (inl f) = inr (f ∙ p.0, p.1, p.2)
IsSwept-trans clock h k l (inr p) (inr q) = absurd (
    let d : (expire h).status ≡ HoldStatus.held = sym (ap (λ (x : HoldRow). x.status) p.0) ∙ q.1 in
    cc)

AreSwept-refl : (clock : ℕ → ℕ) (hs : List HoldRow) → AreSwept clock hs hs
AreSwept-refl clock [] = tt
AreSwept-refl clock (h ∷ hs) = (inl refl, AreSwept-refl clock hs)

AreSwept-trans :
    (clock : ℕ → ℕ) (hs ks ls : List HoldRow)
    → AreSwept clock hs ks
    → AreSwept clock ks ls
    → AreSwept clock hs ls
AreSwept-trans clock [] [] ls p q = q
AreSwept-trans clock [] (k ∷ ks) ls p q = absurd p
AreSwept-trans clock (h ∷ hs) [] ls p q = absurd p
AreSwept-trans clock (h ∷ hs) (k ∷ ks) [] p q = absurd q
AreSwept-trans clock (h ∷ hs) (k ∷ ks) (l ∷ ls) p q =
    (IsSwept-trans clock h k l p.0 q.0, AreSwept-trans clock hs ks ls p.1 q.1)

map-AreSwept :
    (clock : ℕ → ℕ) (g : HoldRow → HoldRow) (hs : List HoldRow)
    → ((h : HoldRow) → In h hs → IsSwept clock h (g h))
    → AreSwept clock hs (map g hs)
map-AreSwept clock g [] k = tt
map-AreSwept clock g (h ∷ hs) k = (k h (inl refl), map-AreSwept clock g hs (λ x i. k x (inr i)))

hold_ids-once :
    (hs : List HoldRow) (a b : HoldRow)
    → IsNodup (hold_ids hs)
    → In a hs
    → In b hs
    → a.id ≡ b.id
    → a ≡ b
hold_ids-once [] a b n i j e = elim i [ ]
hold_ids-once (h ∷ hs) a b n (inl p) (inl q) e = p ∙ sym q
hold_ids-once (h ∷ hs) a b n (inr i) (inr j) e = hold_ids-once hs a b n.1 i j e
hold_ids-once (h ∷ hs) a b n (inl p) (inr j) e = absurd (
    let c = (contains-In b.id (hold_ids hs)).1 (In-map (λ (x : HoldRow). x.id) b hs j) in
    let d : h.id ≡ b.id = sym (ap (λ (x : HoldRow). x.id) p) ∙ e in
    cc (n.0, ap (contains (hold_ids hs)) d, c))
hold_ids-once (h ∷ hs) a b n (inr i) (inl q) e = absurd (
    let c = (contains-In a.id (hold_ids hs)).1 (In-map (λ (x : HoldRow). x.id) a hs i) in
    let d : h.id ≡ a.id = sym (ap (λ (x : HoldRow). x.id) q) ∙ sym e in
    cc (n.0, ap (contains (hold_ids hs)) d, c))

hold_ids-expire_batch : (batch hs : List HoldRow) → hold_ids (expire_batch batch hs) ≡ hold_ids hs
unfolding expire_batch
hold_ids-expire_batch batch [] = refl
hold_ids-expire_batch batch (h ∷ hs) = elim (Bool-cases (contains (map (λ b. b.id) batch) h.id)) [
  | inl e ↦ rw (e, hold_ids-expire_batch batch hs) refl
  | inr e ↦ rw (e, hold_ids-expire_batch batch hs) refl
]

expire_batch-AreSwept :
    (clock : ℕ → ℕ) (n : ℕ) (hs : List HoldRow)
    → IsNodup (hold_ids hs)
    → AreSwept clock hs (expire_batch (batch_of (clock n) hs) hs)
unfolding expire_batch
expire_batch-AreSwept clock n hs once =
    map-AreSwept clock
      (λ h. if contains (map (λ b. b.id) (batch_of (clock n) hs)) h.id then expire h else h) hs
      (λ h i. elim (Bool-cases (contains (map (λ b. b.id) (batch_of (clock n) hs)) h.id)) [
        | inr e ↦ rw e (inl refl)
        | inl e ↦ rw e (taken h i e)
      ])
  where
    taken :
        (h : HoldRow)
        → In h hs
        → contains (map (λ b. b.id) (batch_of (clock n) hs)) h.id ≡ true
        → IsSwept clock h (expire h)
    taken h i e =
        let ids = map (λ (b : HoldRow). b.id) (batch_of (clock n) hs) in
        let w =
          of_In-map (λ (b : HoldRow). b.id) h.id (batch_of (clock n) hs)
            ((contains-In h.id ids).0 e) in
        let q = batch_of-run_out (clock n) hs w.0 w.1 in
        let same = hold_ids-once hs w.0 h once q.0 i (sym w.2) in
        let late : has_run_out (clock n) h ≡ true =
          subst (λ x. has_run_out (clock n) x ≡ true) same q.1 in
        inr (refl, eq_of_== h.status HoldStatus.held (ground arith), (n, ground arith))

sweep_from-AreSwept :
    (fuel : ℕ) (clock : ℕ → ℕ) (total batches : ℕ) (hs : List HoldRow) {r : Sweep}
    → IsNodup (hold_ids hs)
    → sweep_from fuel clock total batches hs ≡ some r
    → AreSwept clock hs r.holds × All (λ h. has_run_out (clock r.batches) h ≡ false) r.holds
unfolding sweep_from
sweep_from-AreSwept zero clock total batches hs {r} once h = cc
sweep_from-AreSwept (suc fuel) clock total batches hs {r} once h =
    elim (List-cases (batch_of (clock batches) hs)) [
      | inl e ↦
          let q : some _ ≡ some r = rw e at h in
          done (some-inj q) (batch_of-nil (clock batches) hs e)
      | inr (x, rest, e) ↦
          let batch = batch_of (clock batches) hs in
          let some_left : ltb 0 (length batch) ≡ true = rw e (ground arith) in
          let later =
            sweep_from-AreSwept fuel clock (total + length batch) (suc batches)
              (expire_batch batch hs) (subst IsNodup (sym (hold_ids-expire_batch batch hs)) once)
              (rw some_left at h) in
          (
            AreSwept-trans clock hs (expire_batch batch hs) r.holds
                (expire_batch-AreSwept clock batches hs once) later.0,
            later.1,
          )
    ]
  where
    some-inj : {a b : Sweep} → some a ≡ some b → a ≡ b
    some-inj q = cc

    done :
        record { total_expired = total; batches = batches; holds = hs } ≡ r
        → All (λ k. has_run_out (clock batches) k ≡ false) hs
        → AreSwept clock hs r.holds × All (λ k. has_run_out (clock r.batches) k ≡ false) r.holds
    done e a =
        subst
          (λ x.
            AreSwept clock hs x.holds × All (λ k. has_run_out (clock x.batches) k ≡ false) x.holds)
          e (AreSwept-refl clock hs, a)

-- Where ids are unique, a sweep that ends has expired only holds that were held and had run out,
-- has left every other row as it was, and leaves none that has run out by the instant that its last
-- batch read.
pub sweep-AreSwept :
    (fuel : ℕ) (clock : ℕ → ℕ) (holds : List HoldRow) {r : Sweep}
    → IsNodup (hold_ids holds)
    → sweep fuel clock holds ≡ some r
    → AreSwept clock holds r.holds × All (λ h. has_run_out (clock r.batches) h ≡ false) r.holds
unfolding sweep
sweep-AreSwept fuel clock holds once h = sweep_from-AreSwept fuel clock 0 0 holds once h
