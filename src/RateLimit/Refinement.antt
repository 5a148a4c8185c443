-- ===== src/RateLimit/Refinement.antt =====
-- The store refines one level for each key.
use restaurant_reservation_s.Prelude.{
  ℕ, ◌*◌, ◌≤◌, ◌≡◌, refl, sym, ap, ◌∙◌, subst, inl, inr, ◌⊎◌, false, none, List, [], ◌∷◌, String,
  leb, ◌==◌, string_eq, arith, Bool-cases, All, eq_of_==,
}
use restaurant_reservation_s.RateLimit.{
  token_unit, bucket_ttl_ms, RateLimitConfig, ConsumeParams, Buckets, allow_cost, consume_bucket,
  try_consume,
}
use restaurant_reservation_s.RateLimit.Spec.{Level, draw}
use restaurant_reservation_s.RateLimit.Laws.{
  answers, draws_of, AreInOrder, level_answers, Tracks, Tracks-later, Tracks-kept, other_call,
  own_call, try_consume-limited,
}

-- A key is configured with one burst and rate, wherever it is used.
abbrev pub IsConfigured : String → RateLimitConfig → ConsumeParams → Type 0
IsConfigured key c p = ((p.bucket_key == key) ≡ false) ⊎ (p.config ≡ c)

module _ (key : String) (c : RateLimitConfig) (limited : 1 ≤ c.requests_per_minute)
    (modest : c.burst_limit ≤ 10 * c.requests_per_minute) where
  abbrev full_level : ℕ
  full_level = c.burst_limit * token_unit

  evicted_full : full_level ≤ bucket_ttl_ms * c.requests_per_minute
  evicted_full = omega (arith, modest)

  after_own :
      (start : ℕ) (buckets : Buckets) (l : Level) (p : ConsumeParams)
      → start ≤ p.now
      → Tracks full_level c.requests_per_minute start (buckets key) l
      → p.bucket_key ≡ key
      → p.config ≡ c
      → let d = draw full_level c.requests_per_minute l (allow_cost p) p.now in
        ((try_consume buckets p).0.allowed ≡ d.0)
        × Tracks full_level c.requests_per_minute p.now ((try_consume buckets p).1 key) d.1
  after_own start buckets l p o t k e =
      let d = draw full_level c.requests_per_minute l (allow_cost p) p.now in
      let t' =
        Tracks-later full_level c.requests_per_minute start p.now (buckets p.bucket_key) l o
          (subst (λ x. Tracks full_level c.requests_per_minute start (buckets x) l) (sym k) t) in
      let own =
        own_call full_level c.requests_per_minute p
          (ap (λ (x : RateLimitConfig). x.burst_limit * token_unit) e)
          (ap (λ (x : RateLimitConfig). x.requests_per_minute) e) buckets l evicted_full t' in
      let same =
        try_consume-limited buckets p
          (subst (λ (x : RateLimitConfig). 1 ≤ x.requests_per_minute) (sym e) limited) in
      (
        ap (λ x. x.0.allowed) same ∙ own.0,
        subst (λ x. Tracks full_level c.requests_per_minute p.now (x.1 key) d.1) (sym same)
            (subst
              (λ x.
                Tracks full_level c.requests_per_minute p.now ((consume_bucket buckets p).1 x) d.1)
              k own.1),
      )

  after_other :
      (start : ℕ) (buckets : Buckets) (l : Level) (p : ConsumeParams)
      → start ≤ p.now
      → Tracks full_level c.requests_per_minute start (buckets key) l
      → (p.bucket_key == key) ≡ false
      → Tracks full_level c.requests_per_minute p.now ((try_consume buckets p).1 key) l
  unfolding try_consume
  after_other start buckets l p o t n =
      let t' = Tracks-later full_level c.requests_per_minute start p.now (buckets key) l o t in
      elim (Bool-cases (leb p.config.requests_per_minute 0)) [
        | inl e ↦ rw e t'
        | inr e ↦ rw e (
            subst (λ x. Tracks full_level c.requests_per_minute p.now x l)
              (sym (other_call full_level c.requests_per_minute buckets p key n))
              (Tracks-kept full_level c.requests_per_minute p.now (buckets key) l evicted_full t'))
      ]

  tracked_answers :
      (start end : ℕ) (buckets : Buckets) (l : Level) (ps : List ConsumeParams)
      → AreInOrder start ps end
      → All (IsConfigured key c) ps
      → Tracks full_level c.requests_per_minute start (buckets key) l
      → answers key buckets ps ≡ level_answers full_level c.requests_per_minute l (draws_of key ps)
  unfolding answers
  tracked_answers start end buckets l [] o a t = refl
  tracked_answers start end buckets l (p ∷ ps) o (inr e, a) t =
      elim (Bool-cases (p.bucket_key == key)) [
        | inl k ↦
            let own = after_own start buckets l p o.0 t (eq_of_== p.bucket_key key k) e in
            let rest =
              tracked_answers p.now end (try_consume buckets p).1
                (draw full_level c.requests_per_minute l (allow_cost p) p.now).1 ps o.1 a own.1 in
            rw k (rw (own.0, rest) refl)
        | inr k ↦ rw k (
            tracked_answers p.now end (try_consume buckets p).1 l ps o.1 a
              (after_other start buckets l p o.0 t k))
      ]
  tracked_answers start end buckets l (p ∷ ps) o (inl k, a) t = rw k (
      tracked_answers p.now end (try_consume buckets p).1 l ps o.1 a
        (after_other start buckets l p o.0 t k))

-- The store refines one level for each key: where the calls come in the order of their instants, a
-- key always has the same limited configuration, and its burst is at most ten times its rate, the
-- calls of the key are answered as a level that begins full answers its draws, whatever the calls
-- of other keys are and whatever is evicted.
pub try_consume-level_answers :
    (key : String) (c : RateLimitConfig) (start end : ℕ) (ps : List ConsumeParams)
    → 1 ≤ c.requests_per_minute
    → c.burst_limit ≤ 10 * c.requests_per_minute
    → AreInOrder start ps end
    → All (IsConfigured key c) ps
    → answers key (λ k. none) ps
      ≡ level_answers
          (c.burst_limit * token_unit)
          c.requests_per_minute
          (record { available = c.burst_limit * token_unit; at = start })
          (draws_of key ps)
try_consume-level_answers key c start end ps limited modest o a =
    tracked_answers key c limited modest start end (λ k. none)
      (record { available = c.burst_limit * token_unit; at = start }) ps o a
      (omega arith, omega arith)
