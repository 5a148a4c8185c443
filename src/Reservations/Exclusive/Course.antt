-- ===== src/Reservations/Exclusive/Course.antt =====
-- Any course of calls of the service.
use restaurant_reservation_s.Prelude.{◌≡◌, refl, Option, List, [], ◌∷◌, String}
use restaurant_reservation_s.Booking.Types.{ReservationRow, Store}
use restaurant_reservation_s.Booking.Results.{Result, ok, err}
use restaurant_reservation_s.Reservations.Create.{Context, CreateReservationDto, create}
use restaurant_reservation_s.Reservations.Update.{
  UpdateReservationDto, ReservationActor, update, update_status, remove,
}
use restaurant_reservation_s.Reservations.Exclusive.{IsSound}
use restaurant_reservation_s.Reservations.Exclusive.Conversion.{create-IsSound}
use restaurant_reservation_s.Reservations.Exclusive.Updating.{update-IsSound}
use restaurant_reservation_s.Reservations.Exclusive.Closing.{update_status-IsSound, remove-IsSound}

-- A call of the service, with its surroundings.
pub data Call : Type 0 where
  creates : Context → CreateReservationDto → Call
  updates : Context → String → UpdateReservationDto → ReservationActor → Call
  sets_status : Context → String → Option String → ReservationActor → Call
  removes : String → Call

-- The database after a call: a call that throws leaves it as it was.
abbrev pub after : Store → Result (ReservationRow × Store) → Store
after s (ok (r, s')) = s'
after s (err e) = s

abbrev pub after_removal : Store → Result Store → Store
after_removal s (ok s') = s'
after_removal s (err e) = s

unfoldable pub step : Store → Call → Store
step s (creates ctx dto) = after s (create ctx s dto)
step s (updates ctx id dto actor) = after s (update ctx s id dto actor)
step s (sets_status ctx id status actor) = after s (update_status ctx s id status actor)
step s (removes id) = after_removal s (remove s id)

unfoldable pub run : Store → List Call → Store
unfolding step
run s [] = s
run s (c ∷ cs) = run (step s c) cs

after-IsSound :
    (s : Store) (m : Result (ReservationRow × Store))
    → ((r : ReservationRow) (s' : Store) → m ≡ ok (r, s') → IsSound s'.reservations)
    → IsSound s.reservations
    → IsSound (after s m).reservations
after-IsSound s (ok (r, s')) h sound = h r s' refl
after-IsSound s (err e) h sound = sound

after_removal-IsSound :
    (s : Store) (m : Result Store)
    → ((s' : Store) → m ≡ ok s' → IsSound s'.reservations)
    → IsSound s.reservations
    → IsSound (after_removal s m).reservations
after_removal-IsSound s (ok s') h sound = h s' refl
after_removal-IsSound s (err e) h sound = sound

step-IsSound : (s : Store) (c : Call) → IsSound s.reservations → IsSound (step s c).reservations
unfolding step
step-IsSound s (creates ctx dto) sound =
    after-IsSound s (create ctx s dto) (λ r s' h. create-IsSound ctx s dto h sound) sound
step-IsSound s (updates ctx id dto actor) sound =
    after-IsSound s (update ctx s id dto actor)
      (λ r s' h. update-IsSound ctx s id dto actor h sound) sound
step-IsSound s (sets_status ctx id status actor) sound =
    after-IsSound s (update_status ctx s id status actor)
      (λ r s' h. update_status-IsSound ctx s id status actor h sound) sound
step-IsSound s (removes id) sound =
    after_removal-IsSound s (remove s id) (λ s' h. remove-IsSound s id h sound) sound

-- Whatever creations, conversions of holds, updates, changes of status and removals follow one
-- another, in any order and with any that throw, a database that is sound stays so: no two
-- reservations that count are ever at one table in overlapping times of one local slot.
pub run-IsSound :
    (s : Store) (cs : List Call) → IsSound s.reservations → IsSound (run s cs).reservations
unfolding run
run-IsSound s [] sound = sound
run-IsSound s (c ∷ cs) sound = run-IsSound (step s c) cs (step-IsSound s c sound)
