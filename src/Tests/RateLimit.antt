-- ===== src/Tests/RateLimit.antt =====
-- A key with a burst of two calls and a rate of sixty a minute, among calls of another key.
use restaurant_reservation_s.Prelude.{
  ℕ, ◌≤◌, ◌≡◌, refl, true, none, some, List, [], ◌∷◌, String, arith,
}
use restaurant_reservation_s.RateLimit.{
  RateLimitConfig, ConsumeParams, Buckets, try_consume, resolve_config,
}
use restaurant_reservation_s.RateLimit.Bounds.{try_consume-after_wait, resolve_config-bounds}

abbrev config : RateLimitConfig
config = record { requests_per_minute = 60; burst_limit = 2 }

abbrev call : String → ℕ → ConsumeParams
call key now = record { bucket_key = key; cost = 1; config = config; now = now }

abbrev calls : List ConsumeParams
calls = call "a" 0 ∷ call "a" 10 ∷ call "b" 20 ∷ call "a" 30 ∷ call "a" 1_040 ∷ []

abbrev empty_bucket : Buckets
empty_bucket k = some (record { tokens = 0; updated_at = 500 })

try_consume-after_wait_example : (try_consume empty_bucket (call "a" 1_600)).0.allowed ≡ true
try_consume-after_wait_example =
    try_consume-after_wait empty_bucket (call "a" 1_600) (omega arith) (omega arith, omega arith)

resolved :
    resolve_config 60 2 none (some 100)
    ≡ some (record { requests_per_minute = 60; burst_limit = 100 })
unfolding resolve_config
resolved = refl

resolve_config-bounds_example : (1 ≤ 60) × (60 ≤ 50_000) × (60 ≤ 100)
resolve_config-bounds_example = resolve_config-bounds 60 2 none (some 100) resolved
