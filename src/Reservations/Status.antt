-- ===== src/Reservations/Status.antt =====
-- The statuses of a reservation: `STATUS_CAST`, `STATUS_TRANSITIONS`, `normalizeStatus`,
-- `ensureTransition`. `toUpperCase` is that of ASCII letters.
pub mod Laws
use Prim.Native.Char.{code}
use restaurant_reservation_s.Prelude.{
  ℕ, ◌-◌, Bool, true, false, ◌&&◌, ◌||◌, Option, none, some, List, [], ◌∷◌, map, String, contains,
  leb, ◌==◌, nat_eq, is_empty, if◌then◌else◌,
}
use restaurant_reservation_s.Booking.Types.{ReservationStatus, reservation_status_eq}
use restaurant_reservation_s.Booking.SlotTime.{chars}
use restaurant_reservation_s.Booking.Results.{Result, require, bad_request}

abbrev pub status_transitions : ReservationStatus → List ReservationStatus
status_transitions ReservationStatus.pending =
    ReservationStatus.confirmed ∷ ReservationStatus.cancelled ∷ []
status_transitions ReservationStatus.confirmed =
    ReservationStatus.seated ∷ ReservationStatus.cancelled ∷ []
status_transitions ReservationStatus.seated =
    ReservationStatus.completed ∷ ReservationStatus.cancelled ∷ []
status_transitions ReservationStatus.completed = []
status_transitions ReservationStatus.cancelled = []

abbrev pub to_upper : ℕ → ℕ
to_upper c = if leb b'a' c && leb c b'z' then c - 32 else c

abbrev pub upper_codes : String → List ℕ
upper_codes s = map (λ c. to_upper (code c)) (chars s)

abbrev pub same_codes : List ℕ → List ℕ → Bool
same_codes [] [] = true
same_codes (x ∷ xs) (y ∷ ys) = x == y && same_codes xs ys
same_codes _ _ = false

abbrev pub spells : String → String → Bool
spells status name = same_codes (upper_codes status) (upper_codes name)

-- `STATUS_CAST.has(status.toUpperCase())`, and the status.
unfoldable pub cast_status : String → Option ReservationStatus
cast_status s =
    if spells s "PENDING"
    then some ReservationStatus.pending
    else if spells s "CONFIRMED"
    then some ReservationStatus.confirmed
    else if spells s "SEATED"
    then some ReservationStatus.seated
    else if spells s "COMPLETED"
    then some ReservationStatus.completed
    else if spells s "CANCELLED"
    then some ReservationStatus.cancelled
    else none

unfoldable pub normalize_status : Option String → ReservationStatus → ReservationStatus
unfolding cast_status
normalize_status none fallback = fallback
normalize_status (some s) fallback =
    if is_empty s then fallback else elim (cast_status s) [ none ↦ fallback | some t ↦ t ]

unfoldable pub ensure_transition : ReservationStatus → ReservationStatus → Result (Unit {0})
ensure_transition current next =
    require (current == next || contains (status_transitions current) next)
      (bad_request "Invalid status transition")
