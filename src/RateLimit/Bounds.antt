-- ===== src/RateLimit/Bounds.antt =====
-- What a key is granted, what it is never refused, and the numbers of a configuration.
use restaurant_reservation_s.Prelude.{
  ℕ, ◌+◌, ◌-◌, ◌*◌, ◌≤◌, ◌<◌, ◌≡◌, refl, ap, inl, inr, Bool, true, false, Option, none, some, List,
  [], ◌∷◌, ltb, leb, string_eq, if◌then◌else◌, arith, Bool-cases, or_else,
}
use restaurant_reservation_s.RateLimit.{
  RateLimitConfig, ConsumeParams, Bucket, Buckets, capacity_of, allow_cost, refilled,
  consume_bucket, try_consume, sanitize_rate, sanitize_burst, resolve_config,
}

-- The cost of the calls that were allowed.
abbrev pub granted : List Bool → List (ℕ × ℕ) → ℕ
granted [] draws = 0
granted (b ∷ bs) [] = 0
granted (b ∷ bs) ((cost, now) ∷ draws) =
    let rest = granted bs draws in (if b then cost else 0) + rest

-- The bucket has had more than the time to gain what a call costs.
abbrev pub HasWaited : ConsumeParams → Option Bucket → Type 0
HasWaited p none = Unit {0}
HasWaited p (some b) =
    (b.updated_at < p.now) × (allow_cost p < (p.now - b.updated_at) * p.config.requests_per_minute)

-- No call is refused for ever: one that costs no more than the capacity is allowed once it comes
-- longer after the bucket's last change than the rate takes to give its cost. (At exactly that time
-- the rounding of the source's numbers may refuse it.)
pub try_consume-after_wait :
    (buckets : Buckets) (p : ConsumeParams)
    → allow_cost p ≤ capacity_of p
    → HasWaited p (buckets p.bucket_key)
    → (try_consume buckets p).0.allowed ≡ true
unfolding try_consume
try_consume-after_wait buckets p fits waited =
    elim (Bool-cases (leb p.config.requests_per_minute 0)) [
      | inl e ↦ rw e refl
      | inr e ↦ rw e (
          let n : ltb (refilled p (buckets p.bucket_key)) (allow_cost p) ≡ false =
            enough (buckets p.bucket_key) waited in
          allowed n)
    ]
  where
    enough : (o : Option Bucket) → HasWaited p o → ltb (refilled p o) (allow_cost p) ≡ false
    enough none w = ground arith
    enough (some b) w =
        let t : ltb b.updated_at p.now ≡ true = ground (arith, w.0) in rw t (ground (arith, w.1))

    allowed :
        ltb (refilled p (buckets p.bucket_key)) (allow_cost p) ≡ false
        → (consume_bucket buckets p).0.allowed ≡ true
    allowed n = rw n refl

-- A configuration that is resolved has a rate between one and 50000, and a burst of at least the
-- rate.
pub resolve_config-bounds :
    (rate burst : ℕ) (override_rate override_burst : Option ℕ) {c : RateLimitConfig}
    → resolve_config rate burst override_rate override_burst ≡ some c
    → (1 ≤ c.requests_per_minute)
      × (c.requests_per_minute ≤ 50_000)
      × (c.requests_per_minute ≤ c.burst_limit)
unfolding resolve_config sanitize_rate sanitize_burst
resolve_config-bounds rate burst override_rate override_burst {c} h =
    let r = sanitize_rate (or_else override_rate rate) in
    elim (Bool-cases (leb r 0)) [
      | inl e ↦ absurd (let q = rw e at h in cc)
      | inr e ↦ made r (ground arith) (ground arith) (rw e at h)
    ]
  where
    some-inj : {a b : RateLimitConfig} → some a ≡ some b → a ≡ b
    some-inj q = cc

    made :
        (r : ℕ)
        → 1 ≤ r
        → r ≤ 50_000
        → some (record {
          requests_per_minute = r;
          burst_limit = sanitize_burst (some (or_else override_burst burst)) r;
        })
          ≡ some c
        → (1 ≤ c.requests_per_minute)
          × (c.requests_per_minute ≤ 50_000)
          × (c.requests_per_minute ≤ c.burst_limit)
    made r a b q =
        let e = ap (λ (x : RateLimitConfig). x.requests_per_minute) (some-inj q) in
        let f = ap (λ (x : RateLimitConfig). x.burst_limit) (some-inj q) in
        let g : r ≤ sanitize_burst (some (or_else override_burst burst)) r = ground arith in
        (omega arith, omega arith, omega arith)
