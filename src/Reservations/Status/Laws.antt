-- ===== src/Reservations/Status/Laws.antt =====
-- The graph of the statuses.
use restaurant_reservation_s.Prelude.{
  ◌≡◌, refl, ◌⊎◌, inl, inr, ◌↔◌, true, false, contains, ==_of_eq,
}
use restaurant_reservation_s.Booking.Types.{ReservationStatus, reservation_status_eq}
use restaurant_reservation_s.Booking.Conflicts.{blocking_reservation_statuses}
use restaurant_reservation_s.Booking.Results.{ok}
use restaurant_reservation_s.Reservations.Status.{ensure_transition}

-- A change of status that the service allows: one step of a reservation's course.
pub data Step : ReservationStatus → ReservationStatus → Type 0 where
  confirm : Step ReservationStatus.pending ReservationStatus.confirmed
  seat : Step ReservationStatus.confirmed ReservationStatus.seated
  complete : Step ReservationStatus.seated ReservationStatus.completed
  cancel_pending : Step ReservationStatus.pending ReservationStatus.cancelled
  cancel_confirmed : Step ReservationStatus.confirmed ReservationStatus.cancelled
  cancel_seated : Step ReservationStatus.seated ReservationStatus.cancelled

-- Any number of steps.
pub data Course (s : ReservationStatus) : ReservationStatus → Type 0 where
  here : Course s s
  next : {t u : ReservationStatus} → Course s t → Step t u → Course s u

abbrev pub IsBlocking : ReservationStatus → Type 0
IsBlocking s = contains blocking_reservation_statuses s ≡ true

pub Step-IsBlocking : {s t : ReservationStatus} → Step s t → IsBlocking s
Step-IsBlocking confirm = refl
Step-IsBlocking seat = refl
Step-IsBlocking complete = refl
Step-IsBlocking cancel_pending = refl
Step-IsBlocking cancel_confirmed = refl
Step-IsBlocking cancel_seated = refl

-- `ensureTransition` lets a status stay, and else lets exactly the steps pass.
pub ensure_transition_iff :
    (current next : ReservationStatus)
    → (ensure_transition current next ≡ ok tt) ↔ ((current ≡ next) ⊎ Step current next)
unfolding ensure_transition
ensure_transition_iff s t = (there s t, back s t)
  where
    there : (s t : ReservationStatus) → ensure_transition s t ≡ ok tt → (s ≡ t) ⊎ Step s t
    there ReservationStatus.pending ReservationStatus.pending h = inl refl
    there ReservationStatus.pending ReservationStatus.confirmed h = inr confirm
    there ReservationStatus.pending ReservationStatus.seated h = cc
    there ReservationStatus.pending ReservationStatus.completed h = cc
    there ReservationStatus.pending ReservationStatus.cancelled h = inr cancel_pending
    there ReservationStatus.confirmed ReservationStatus.pending h = cc
    there ReservationStatus.confirmed ReservationStatus.confirmed h = inl refl
    there ReservationStatus.confirmed ReservationStatus.seated h = inr seat
    there ReservationStatus.confirmed ReservationStatus.completed h = cc
    there ReservationStatus.confirmed ReservationStatus.cancelled h = inr cancel_confirmed
    there ReservationStatus.seated ReservationStatus.pending h = cc
    there ReservationStatus.seated ReservationStatus.confirmed h = cc
    there ReservationStatus.seated ReservationStatus.seated h = inl refl
    there ReservationStatus.seated ReservationStatus.completed h = inr complete
    there ReservationStatus.seated ReservationStatus.cancelled h = inr cancel_seated
    there ReservationStatus.completed ReservationStatus.pending h = cc
    there ReservationStatus.completed ReservationStatus.confirmed h = cc
    there ReservationStatus.completed ReservationStatus.seated h = cc
    there ReservationStatus.completed ReservationStatus.completed h = inl refl
    there ReservationStatus.completed ReservationStatus.cancelled h = cc
    there ReservationStatus.cancelled ReservationStatus.pending h = cc
    there ReservationStatus.cancelled ReservationStatus.confirmed h = cc
    there ReservationStatus.cancelled ReservationStatus.seated h = cc
    there ReservationStatus.cancelled ReservationStatus.completed h = cc
    there ReservationStatus.cancelled ReservationStatus.cancelled h = inl refl

    back : (s t : ReservationStatus) → (s ≡ t) ⊎ Step s t → ensure_transition s t ≡ ok tt
    back s t (inl e) = rw (==_of_eq s t e) refl
    back s t (inr confirm) = refl
    back s t (inr seat) = refl
    back s t (inr complete) = refl
    back s t (inr cancel_pending) = refl
    back s t (inr cancel_confirmed) = refl
    back s t (inr cancel_seated) = refl

-- A status that is not blocking is final: no course of steps leads from it to another one.
pub Course-final :
    {s t : ReservationStatus}
    → Course s t
    → contains blocking_reservation_statuses s ≡ false
    → t ≡ s
Course-final here h = refl
Course-final (next c st) h = cc (Step-IsBlocking st, Course-final c h)
