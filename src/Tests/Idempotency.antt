-- ===== src/Tests/Idempotency.antt =====
-- A booking request that is sent twice.
use restaurant_reservation_s.Prelude.{List, ◌≡◌, refl, none, false, [], ◌∷◌}
use restaurant_reservation_s.Idempotency.{
  RequestMetadata, Server, Outcome, Arrival, look_up, is_locked, handle,
}
use restaurant_reservation_s.Idempotency.Laws.{handle_twice}

abbrev request : RequestMetadata
request = record { key = "k1"; method = "POST"; path = "/v1/reservations"; body_hash = "aa" }

abbrev altered : RequestMetadata
altered = record { key = "k1"; method = "POST"; path = "/v1/reservations"; body_hash = "bb" }

abbrev idle : Server
idle = record { entries = []; locks = []; handled = [] }

abbrev handler : RequestMetadata → Outcome
handler q = Outcome.answered 201 "RAAAAAA"

-- A request of another key, whose handler fails, and the altered one.
abbrev between : List Arrival
between =
    record { handler = λ q. Outcome.failed; now = 1_500; request = record request { key = "k2" } }
    ∷ record { handler = handler; now = 1_600; request = altered }
    ∷ []

idle_unlocked : is_locked 1_000 idle "k1" ≡ false
unfolding is_locked
idle_unlocked = refl

handle_twice_example :
    let looked = (look_up 900 (look_up 800 idle request).1 request).1 in
    let first = handle handler 1_000 looked request in
    let second = handle handler 1_100 first.1 request in
    ((look_up 800 idle request).0 ≡ none)
    × ((look_up 900 (look_up 800 idle request).1 request).0 ≡ none)
    × (second.1.handled ≡ request ∷ request ∷ [])
handle_twice_example = handle_twice handler 800 900 1_000 1_100 idle request refl idle_unlocked
