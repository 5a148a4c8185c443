-- ===== src/Idempotency/Replay.antt =====
-- A request is handled once and then replayed, whatever other requests come in between.
use restaurant_reservation_s.Prelude.{string_eq}
