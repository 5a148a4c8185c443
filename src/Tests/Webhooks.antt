-- ===== src/Tests/Webhooks.antt =====
-- A webhook that has been refused four times.
use restaurant_reservation_s.Prelude.{refl, inl, true, some, none, arith}
use restaurant_reservation_s.Webhooks.{DeliveryStatus, Endpoint, Delivery, Response, cycle}
use restaurant_reservation_s.Webhooks.Laws.{IsBounded, cycle-IsBounded}

abbrev kitchen : Endpoint
kitchen = record { url = "https://example.org/hook"; secret = some "whsec" }

abbrev tried : Delivery
tried = record {
  id = "d1";
  endpoint = some kitchen;
  has_reservation = true;
  status = DeliveryStatus.pending;
  attempts = 4;
  last_error = some "500";
  next_attempt_at = 1_000;
  delivered_at = none;
  failure_reason = none;
  failed_at = none;
}

cycle-IsBounded_example : IsBounded (cycle 2_000 (Response.refused "500") tried)
cycle-IsBounded_example =
    cycle-IsBounded 2_000 (Response.refused "500") tried (inl (refl, omega arith))
