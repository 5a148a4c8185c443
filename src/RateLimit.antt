-- ===== src/RateLimit.antt =====
-- apps/api/src/rate-limit/rate-limit.service.ts: the token buckets of the API, kept in the memory of
-- the process. The code counts tokens in fractions and refills `requestsPerMinute / 60_000` of one
-- in a millisecond; here a token is `token_unit` parts, so that counts stay natural numbers. The
-- counts of the source are floating point numbers, whose rounding is left out: it can change an answer
-- where the tokens are within a part of the cost. The store in Redis is left out too.
pub mod Spec
pub mod Laws
pub mod Refinement
pub mod Bounds
use restaurant_reservation_s.Prelude.{
  ℕ, suc, ◌+◌, ◌-◌, ◌*◌, min, max, Bool, true, false, ◌&&◌, ◌||◌, not, Option, none, some, List, [],
  ◌∷◌, String, is_some, or_else, ltb, leb, ◌==◌, nat_eq, string_eq, if◌then◌else◌,
}

abbrev pub token_unit : ℕ
token_unit = 60_000

-- `ttlMs` of the store in memory.
abbrev pub bucket_ttl_ms : ℕ
bucket_ttl_ms = 600_000

pub record RateLimitConfig : Type 0 where
  pub requests_per_minute : ℕ
  pub burst_limit : ℕ

unfoldable pub sanitize_rate : ℕ → ℕ
sanitize_rate rate = if leb rate 0 then 0 else min rate 50_000

unfoldable pub sanitize_burst : Option ℕ → ℕ → ℕ
sanitize_burst burst rate =
    if leb (or_else burst 0) 0 then max rate 1 else max (or_else burst 0) (max rate 1)

-- `resolveConfig`: the key's own numbers, each replaced where the route gives one.
unfoldable pub resolve_config : ℕ → ℕ → Option ℕ → Option ℕ → Option RateLimitConfig
unfolding sanitize_rate sanitize_burst
resolve_config rate_limit_per_min key_burst override_rate override_burst =
    let per_minute = sanitize_rate (or_else override_rate rate_limit_per_min) in
    if leb per_minute 0
    then none
    else some (record {
      requests_per_minute = per_minute;
      burst_limit = sanitize_burst (some (or_else override_burst key_burst)) per_minute;
    })

pub record ConsumeParams : Type 0 where
  pub bucket_key : String
  pub cost : ℕ
  pub config : RateLimitConfig
  pub now : ℕ

pub record TokenBucketResult : Type 0 where
  pub allowed : Bool
  pub remaining : ℕ

pub record Bucket : Type 0 where
  pub tokens : ℕ
  pub updated_at : ℕ

-- The map of buckets.
abbrev pub Buckets : Type 0
Buckets = String → Option Bucket

abbrev pub set_bucket : Buckets → String → Bucket → Buckets
set_bucket buckets key b k = if k == key then some b else buckets k

abbrev pub kept_bucket : ℕ → Option Bucket → Option Bucket
kept_bucket now none = none
kept_bucket now (some b) = if ltb bucket_ttl_ms (now - b.updated_at) then none else some b

-- `evictExpired`
abbrev pub evict_expired : ℕ → Buckets → Buckets
evict_expired now buckets k = kept_bucket now (buckets k)

abbrev pub capacity_of : ConsumeParams → ℕ
capacity_of p = p.config.burst_limit * token_unit

abbrev pub allow_cost : ConsumeParams → ℕ
allow_cost p = (if ltb 0 p.cost then p.cost else 1) * token_unit

-- The tokens of a bucket once they are refilled; a missing bucket is full.
abbrev pub refilled : ConsumeParams → Option Bucket → ℕ
refilled p none = capacity_of p
refilled p (some b) =
    if ltb b.updated_at p.now
    then min (capacity_of p) (b.tokens + (p.now - b.updated_at) * p.config.requests_per_minute)
    else b.tokens

-- `tryConsume` of the store in memory.
unfoldable pub consume_bucket : Buckets → ConsumeParams → TokenBucketResult × Buckets
consume_bucket buckets p =
    let state = buckets p.bucket_key in
    let available = refilled p state in
    let allowed = not (ltb available (allow_cost p)) in
    let tokens = if allowed then available - allow_cost p else available in
    (
      record { allowed = allowed; remaining = tokens },
      evict_expired p.now (
          if allowed || is_some state
          then set_bucket buckets p.bucket_key (record { tokens = tokens; updated_at = p.now })
          else buckets),
    )

-- `tryConsume` of the service.
unfoldable pub try_consume : Buckets → ConsumeParams → TokenBucketResult × Buckets
unfolding consume_bucket
try_consume buckets p =
    if leb p.config.requests_per_minute 0
    then (record { allowed = true; remaining = capacity_of p }, buckets)
    else consume_bucket buckets p
