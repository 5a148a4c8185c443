-- ===== src/Webhooks/Laws.antt =====
-- How often a webhook is tried, and when.
use restaurant_reservation_s.Prelude.{
  ℕ, zero, suc, ◌+◌, ◌-◌, ◌≤◌, ◌<◌, ◌≡◌, refl, sym, subst, ◌⊎◌, inl, inr, min, true, false, ◌&&◌,
  Option, none, some, String, ltb, leb, arith, Bool-cases, if◌then◌else◌,
}
use restaurant_reservation_s.Webhooks.{
  DeliveryStatus, is_pending, Endpoint, Delivery, Response, max_attempts, compute_next_schedule,
  resolve_endpoint_secret, record_response, process_secret, process_endpoint, process_job, is_due,
  cycle,
}

-- The retries that are left to a row: none once it is settled.
abbrev pub IsBounded : Delivery → Type 0
IsBounded job =
    ((is_pending job.status ≡ true) × (job.attempts < max_attempts))
    ⊎ ((is_pending job.status ≡ false) × (job.attempts ≤ max_attempts))

-- The delay before an attempt lies between one minute and one hour from the second attempt on.
compute_next_schedule_bounds :
    (now n : ℕ)
    → (now + 60_000 ≤ compute_next_schedule now (suc (suc n)))
      × (compute_next_schedule now (suc (suc n)) ≤ now + 3_600_000)
unfolding compute_next_schedule
compute_next_schedule_bounds now zero = (omega arith, omega arith)
compute_next_schedule_bounds now (suc zero) = (omega arith, omega arith)
compute_next_schedule_bounds now (suc (suc zero)) = (omega arith, omega arith)
compute_next_schedule_bounds now (suc (suc (suc n))) =
    let last : min (suc (suc (suc (suc (suc n)))) - 1) (max_attempts - 1) ≡ 4 = omega arith in
    rw last (omega arith, omega arith)

record_response-IsBounded :
    (now : ℕ) (response : Response) (job : Delivery)
    → job.attempts < max_attempts
    → IsBounded (record_response now response job)
unfolding record_response
record_response-IsBounded now Response.accepted job l = inr (refl, omega arith)
record_response-IsBounded now (Response.refused message) job l =
    elim (Bool-cases (ltb (suc job.attempts) max_attempts)) [
      | inl e ↦ rw e (inl (refl, ground arith))
      | inr e ↦ rw e (inr (refl, omega arith))
    ]

process_secret-IsBounded :
    (now : ℕ) (response : Response) (job : Delivery) (secret : Option String)
    → job.attempts < max_attempts
    → IsBounded job
    → IsBounded (process_secret now response job secret)
unfolding process_secret
process_secret-IsBounded now response job none l b = inr (refl, omega arith)
process_secret-IsBounded now response job (some secret) l b =
    elim (Bool-cases job.has_reservation) [
      | inl e ↦
          subst (λ t. IsBounded (if t then record_response now response job else job)) (sym e)
            (record_response-IsBounded now response job l)
      | inr e ↦
          subst (λ t. IsBounded (if t then record_response now response job else job)) (sym e) b
    ]

process_endpoint-IsBounded :
    (now : ℕ) (response : Response) (job : Delivery) (endpoint : Option Endpoint)
    → job.attempts < max_attempts
    → IsBounded job
    → IsBounded (process_endpoint now response job endpoint)
unfolding process_endpoint
process_endpoint-IsBounded now response job none l b = inr (refl, omega arith)
process_endpoint-IsBounded now response job (some endpoint) l b =
    process_secret-IsBounded now response job (resolve_endpoint_secret endpoint.secret) l b

-- A turn of the worker keeps the bound on the attempts: a pending row has had fewer than five, a
-- settled one at most five.
pub cycle-IsBounded :
    (now : ℕ) (response : Response) (job : Delivery)
    → IsBounded job
    → IsBounded (cycle now response job)
unfolding cycle is_due process_job
cycle-IsBounded now response job (inr (settled, l)) =
    subst
      (λ t.
        IsBounded (if t && leb job.next_attempt_at now then process_job now response job else job))
      (sym settled) (inr (settled, l))
cycle-IsBounded now response job (inl (open_still, l)) = elim (Bool-cases (is_due now job)) [
  | inl e ↦
      subst (λ t. IsBounded (if t then process_job now response job else job)) (sym e)
        (process_endpoint-IsBounded now response job job.endpoint l (inl (open_still, l)))
  | inr e ↦
      subst (λ t. IsBounded (if t then process_job now response job else job)) (sym e)
        (inl (open_still, l))
]

-- A row with an endpoint, a secret and a payload that was refused: it is pending again, with one
-- attempt more, between one minute and one hour from now, or, at the fifth attempt, failed for good.
pub refused_cases :
    (now : ℕ) (message : String) (job : Delivery)
    → job.attempts < max_attempts
    → (((record_response now (Response.refused message) job).status ≡ DeliveryStatus.pending)
        × (suc job.attempts < max_attempts)
        × (now + 60_000 ≤ (record_response now (Response.refused message) job).next_attempt_at)
        × ((record_response now (Response.refused message) job).next_attempt_at ≤ now + 3_600_000))
      ⊎ (((record_response now (Response.refused message) job).status ≡ DeliveryStatus.failed)
          × (suc job.attempts ≡ max_attempts)
          × ((record_response now (Response.refused message) job).failed_at ≡ some now))
unfolding record_response
refused_cases now message job l = elim (Bool-cases (ltb (suc job.attempts) max_attempts)) [
  | inl e ↦ rw e (
      inl (
        refl,
        ground arith,
        (compute_next_schedule_bounds now job.attempts).0,
        (compute_next_schedule_bounds now job.attempts).1,
      ))
  | inr e ↦ rw e (inr (refl, ground arith, refl))
]
