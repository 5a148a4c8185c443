-- ===== src/RateLimit/Laws.antt =====
-- What a call does to the bucket of its key and to the buckets of other keys.
use restaurant_reservation_s.Prelude.{
  ℕ, ◌+◌, ◌-◌, ◌*◌, ◌≤◌, ◌≡◌, refl, sym, ap, ◌∙◌, inl, inr, min, Bool, false, ◌||◌, not, Option,
  none, some, List, [], ◌∷◌, String, is_some, ltb, leb, ◌==◌, string_eq, if◌then◌else◌, arith,
  Bool-cases, Option-cases, ==_refl, ==_sym,
}
use restaurant_reservation_s.RateLimit.{
  bucket_ttl_ms, ConsumeParams, Bucket, Buckets, kept_bucket, capacity_of, allow_cost, refilled,
  consume_bucket, try_consume,
}
use restaurant_reservation_s.RateLimit.Spec.{Level, rise, rise-rise, rise-le, draw, scale_mono}

-- The answers that the calls of one key get, among the calls of all keys.
unfoldable pub answers : String → Buckets → List ConsumeParams → List Bool
unfolding try_consume
answers key buckets [] = []
answers key buckets (p ∷ ps) =
    let r = try_consume buckets p in
    let rest = answers key r.1 ps in if p.bucket_key == key then r.0.allowed ∷ rest else rest

-- The calls of one key, as draws.
abbrev pub draws_of : String → List ConsumeParams → List (ℕ × ℕ)
draws_of key [] = []
draws_of key (p ∷ ps) =
    let rest = draws_of key ps in if p.bucket_key == key then (allow_cost p, p.now) ∷ rest else rest

-- The calls come in the order of their instants.
abbrev pub AreInOrder : ℕ → List ConsumeParams → ℕ → Type 0
AreInOrder start [] end = start ≤ end
AreInOrder start (p ∷ ps) end = (start ≤ p.now) × AreInOrder p.now ps end

module _ (cap rate : ℕ) where
  -- What a level answers to a list of draws.
  abbrev pub level_answers : Level → List (ℕ × ℕ) → List Bool
  level_answers l [] = []
  level_answers l ((cost, now) ∷ draws) =
      let d = draw cap rate l cost now in let rest = level_answers d.1 draws in d.0 ∷ rest

  -- A stored bucket stands for a level: at every later instant both have the same tokens.
  abbrev pub Tracks : ℕ → Option Bucket → Level → Type 0
  Tracks now none l = (rise cap rate l.available (now - l.at) ≡ cap) × (l.at ≤ now)
  Tracks now (some b) l =
      (rise cap rate b.tokens (now - b.updated_at) ≡ rise cap rate l.available (now - l.at))
      × (l.at ≤ now)
      × (b.updated_at ≤ now)
      × (b.tokens ≤ cap)

  rise-later :
      (x u t t' : ℕ)
      → u ≤ t
      → t ≤ t'
      → rise cap rate x (t' - u) ≡ rise cap rate (rise cap rate x (t - u)) (t' - t)
  rise-later x u t t' h k =
      let e : t - u + (t' - t) ≡ t' - u = omega arith in
      sym (rise-rise cap rate x (t - u) (t' - t) ∙ ap (rise cap rate x) e)

  pub Tracks-later :
      (t t' : ℕ) (o : Option Bucket) (l : Level) → t ≤ t' → Tracks t o l → Tracks t' o l
  Tracks-later t t' none l k h = (
    rise-later l.available l.at t t' h.1 k ∙ ap (λ x. rise cap rate x (t' - t)) h.0 ∙ (omega arith),
    omega (arith, h.1),
  )
  Tracks-later t t' (some b) l k h = (
    rise-later b.tokens b.updated_at t t' h.2 k
        ∙ ap (λ x. rise cap rate x (t' - t)) h.0
        ∙ sym (rise-later l.available l.at t t' h.1 k),
    omega (arith, h.1),
    omega (arith, h.2),
    h.3,
  )

  -- An evicted bucket would be full by now.
  pub Tracks-kept :
      (now : ℕ) (o : Option Bucket) (l : Level)
      → cap ≤ bucket_ttl_ms * rate
      → Tracks now o l
      → Tracks now (kept_bucket now o) l
  Tracks-kept now none l k h = h
  Tracks-kept now (some b) l k h = elim (Bool-cases (ltb bucket_ttl_ms (now - b.updated_at))) [
    | inr e ↦ rw e h
    | inl e ↦
        let m = scale_mono bucket_ttl_ms (now - b.updated_at) rate (ground arith) in
        rw e (sym h.0 ∙ (omega arith), h.1)
  ]

  module _ (p : ConsumeParams) (is_cap : capacity_of p ≡ cap)
      (is_rate : p.config.requests_per_minute ≡ rate) where
    refilled_lem :
        (o : Option Bucket) (l : Level)
        → Tracks p.now o l
        → refilled p o ≡ rise cap rate l.available (p.now - l.at)
    refilled_lem none l h = is_cap ∙ sym h.0
    refilled_lem (some b) l h = elim (Bool-cases (ltb b.updated_at p.now)) [
      | inl e ↦ rw e (
          ap (λ c. min c (b.tokens + (p.now - b.updated_at) * p.config.requests_per_minute)) is_cap
          ∙ ap (λ r. min cap (b.tokens + (p.now - b.updated_at) * r)) is_rate
          ∙ h.0)
      | inr e ↦
          let z : p.now - b.updated_at ≡ 0 = ground (arith, h.2) in
          rw e ((omega (arith, h.3)) ∙ ap (rise cap rate b.tokens) (sym z) ∙ h.0)
    ]

    -- The bucket of the call once the call is over, at most `cap` full.
    stored-Tracks :
        (now a : ℕ)
        → a ≤ cap
        → cap ≤ bucket_ttl_ms * rate
        → Tracks now
            (kept_bucket now (some (record { tokens = a; updated_at = now })))
            (record { available = a; at = now })
    stored-Tracks now a h k =
        Tracks-kept now (some (record { tokens = a; updated_at = now }))
          (record { available = a; at = now }) k (refl, omega arith, omega arith, h)

    missing-Tracks : (now a : ℕ) → a ≡ cap → Tracks now none (record { available = a; at = now })
    missing-Tracks now a h = (omega arith, omega arith)

    pub own_call :
        (buckets : Buckets) (l : Level)
        → cap ≤ bucket_ttl_ms * rate
        → Tracks p.now (buckets p.bucket_key) l
        → let d = draw cap rate l (allow_cost p) p.now in
          ((consume_bucket buckets p).0.allowed ≡ d.0)
          × Tracks p.now ((consume_bucket buckets p).1 p.bucket_key) d.1
    unfolding consume_bucket
    own_call buckets l k h =
        let a = rise cap rate l.available (p.now - l.at) in
        let full = rise-le cap rate l.available (p.now - l.at) in
        let same = refilled_lem (buckets p.bucket_key) l h in
        elim (Bool-cases (ltb a (allow_cost p))) [
          | inr e ↦
              rw (same, e, ==_refl p.bucket_key)
                (refl, stored-Tracks p.now (a - allow_cost p) (omega arith) k)
          | inl e ↦ elim (Option-cases (buckets p.bucket_key)) [
            | inr (b, o) ↦
                rw (same, e, o, ==_refl p.bucket_key) (refl, stored-Tracks p.now a full k)
            | inl o ↦
                rw (same, e, o)
                  (refl, rw o (missing-Tracks p.now a (sym same ∙ ap (refilled p) o ∙ is_cap)))
          ]
        ]

  pub other_call :
      (buckets : Buckets) (p : ConsumeParams) (key : String)
      → (p.bucket_key == key) ≡ false
      → (consume_bucket buckets p).1 key ≡ kept_bucket p.now (buckets key)
  unfolding consume_bucket
  other_call buckets p key n =
      elim (Bool-cases (
        not (ltb (refilled p (buckets p.bucket_key)) (allow_cost p))
        || is_some (buckets p.bucket_key))) [
          | inl e ↦ rw (e, ==_sym key p.bucket_key, n) refl
          | inr e ↦ rw e refl
        ]

pub try_consume-limited :
    (buckets : Buckets) (p : ConsumeParams)
    → 1 ≤ p.config.requests_per_minute
    → try_consume buckets p ≡ consume_bucket buckets p
unfolding try_consume
try_consume-limited buckets p h =
    let n : leb p.config.requests_per_minute 0 ≡ false = ground arith in rw n refl
