-- ===== src/Webhooks.antt =====
-- apps/api/src/workers/webhooks.worker.ts: the delivery of one webhook. What `fetch` answers is an
-- argument; the signature and the body that it sends are left out.
pub mod Laws
use restaurant_reservation_s.Prelude.{
  ℕ, zero, suc, ◌+◌, ◌-◌, ◌≡◌, ◌↔◌, min, Bool, true, false, ◌&&◌, Option, none, some, List, [], ◌∷◌,
  String, ltb, leb, is_empty, trim, ◌==◌, Eq, arith, if◌then◌else◌, length,
}

pub data DeliveryStatus : Type 0 where
  pending success failed : DeliveryStatus

abbrev pub is_pending : DeliveryStatus → Bool
is_pending pending = true
is_pending success = false
is_pending failed = false

pub record Endpoint : Type 0 where
  pub url : String
  pub secret : Option String

-- A row with its endpoint; `has_reservation` is the test of `extractPayload`.
pub record Delivery : Type 0 where
  pub id : String
  pub endpoint : Option Endpoint
  pub has_reservation : Bool
  pub status : DeliveryStatus
  pub attempts : ℕ
  pub last_error : Option String
  pub next_attempt_at : ℕ
  pub delivered_at : Option ℕ
  pub failure_reason : Option String
  pub failed_at : Option ℕ

-- What comes of the request: an answer that is ok, or the message of the error thrown.
pub data Response : Type 0 where
  accepted : Response
  refused : String → Response

abbrev pub backoff_schedule_ms : List ℕ
backoff_schedule_ms = 0 ∷ 60_000 ∷ 300_000 ∷ 900_000 ∷ 3_600_000 ∷ []

abbrev pub max_attempts : ℕ
max_attempts = length backoff_schedule_ms

abbrev pub nth : ℕ → List ℕ → ℕ
nth n [] = 0
nth zero (x ∷ xs) = x
nth (suc n) (x ∷ xs) = nth n xs

unfoldable pub compute_next_schedule : ℕ → ℕ → ℕ
compute_next_schedule now next_attempt_number =
    now + nth (min (next_attempt_number - 1) (max_attempts - 1)) backoff_schedule_ms

unfoldable pub resolve_endpoint_secret : Option String → Option String
resolve_endpoint_secret none = none
resolve_endpoint_secret (some secret) = if is_empty (trim secret) then none else some (trim secret)

-- The update after a request that was answered, or not.
unfoldable pub record_response : ℕ → Response → Delivery → Delivery
record_response now accepted job = record job {
  status = DeliveryStatus.success;
  attempts = suc job.attempts;
  last_error = none;
  delivered_at = some now;
  failure_reason = none;
  failed_at = none;
}
record_response now (refused message) job =
    let attempt = suc job.attempts in
    let should_retry = ltb attempt max_attempts in
    record job {
      status = if should_retry then DeliveryStatus.pending else DeliveryStatus.failed;
      attempts = attempt;
      last_error = some message;
      next_attempt_at =
          if should_retry then compute_next_schedule now (suc attempt) else job.next_attempt_at;
      failure_reason = if should_retry then none else some message;
      failed_at = if should_retry then none else some now;
    }

-- A payload without a reservation throws before anything is written.
abbrev pub send : ℕ → Response → Delivery → Delivery
send now response job = if job.has_reservation then record_response now response job else job

abbrev pub missing_secret : ℕ → Delivery → Delivery
missing_secret now job = record job {
  status = DeliveryStatus.failed;
  last_error = some "Missing endpoint secret";
  failure_reason = some "Missing endpoint secret";
  failed_at = some now;
}

unfoldable pub process_secret : ℕ → Response → Delivery → Option String → Delivery
process_secret now response job none = missing_secret now job
process_secret now response job (some secret) = send now response job

unfoldable pub process_endpoint : ℕ → Response → Delivery → Option Endpoint → Delivery
process_endpoint now response job none = record job {
  status = DeliveryStatus.failed;
  last_error = some "Missing endpoint";
}
process_endpoint now response job (some endpoint) =
    process_secret now response job (resolve_endpoint_secret endpoint.secret)

unfoldable pub process_job : ℕ → Response → Delivery → Delivery
process_job now response job = process_endpoint now response job job.endpoint

-- The query of the main loop, for one row.
unfoldable pub is_due : ℕ → Delivery → Bool
is_due now job = is_pending job.status && leb job.next_attempt_at now

-- One turn of the main loop, as one row sees it.
unfoldable pub cycle : ℕ → Response → Delivery → Delivery
cycle now response job = if is_due now job then process_job now response job else job
