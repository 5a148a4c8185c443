-- ===== src/Reservations/Events.antt =====
-- The events that a change of a reservation sends: `resolveCreationEvents`, `resolveUpdateEvents`,
-- `resolveStatusEvents` for notifications, their webhook counterparts, and
-- `hasReservationDetailsChanged`.
pub mod Laws
use Prim.Native.String.{compare}
use text.Mathlib.Text.{is_le}
use restaurant_reservation_s.Prelude.{
  Bool, true, false, ◌&&◌, ◌||◌, not, Option, none, some, List, [], ◌∷◌, ◌++◌, String, sort, trim,
  is_empty, ◌==◌, ◌!=◌, nat_eq, string_eq, option_eq, if◌then◌else◌,
}
use restaurant_reservation_s.Booking.Types.{
  ReservationStatus, reservation_status_eq, ReservationRow,
}
use restaurant_reservation_s.Booking.Conflicts.{assigned}

pub data NotificationEvent : Type 0 where
  created confirmed cancelled modified : NotificationEvent

pub data WebhookEvent : Type 0 where
  created updated cancelled seated completed : WebhookEvent

abbrev pub normalize_nullable_string : Option String → Option String
normalize_nullable_string none = none
normalize_nullable_string (some s) = if is_empty (trim s) then none else some (trim s)

abbrev pub is_nullable_changed : Option String → Option String → Bool
is_nullable_changed a b = normalize_nullable_string a != normalize_nullable_string b

abbrev pub text_le : String → String → Bool
text_le a b = is_le (compare a b)

abbrev pub same_texts : List String → List String → Bool
same_texts [] [] = true
same_texts (x ∷ xs) (y ∷ ys) = x == y && same_texts xs ys
same_texts _ _ = false

unfoldable pub has_reservation_details_changed : ReservationRow → ReservationRow → Bool
has_reservation_details_changed before after =
    before.guest_name != after.guest_name
    || is_nullable_changed before.guest_email after.guest_email
    || is_nullable_changed before.guest_phone after.guest_phone
    || is_nullable_changed before.notes after.notes
    || is_nullable_changed before.channel after.channel
    || before.party_size != after.party_size
    || before.duration_minutes != after.duration_minutes
    || before.table_id != after.table_id
    || before.slot_local_date != after.slot_local_date
    || before.slot_local_time != after.slot_local_time
    || before.slot_start_utc != after.slot_start_utc
    || not (same_texts (sort text_le (assigned before)) (sort text_le (assigned after)))

abbrev pub when {ℓ} : {A : Type ℓ} → Bool → A → List A
when b a = if b then a ∷ [] else []

unfoldable pub resolve_creation_events : ReservationStatus → List NotificationEvent
resolve_creation_events status =
    NotificationEvent.created
    ∷ (if status == ReservationStatus.confirmed
        then NotificationEvent.confirmed ∷ []
        else when (status == ReservationStatus.cancelled) NotificationEvent.cancelled)

unfoldable pub resolve_status_events :
    ReservationStatus → ReservationStatus → List NotificationEvent
resolve_status_events previous next =
    if previous == next
    then []
    else when (next == ReservationStatus.confirmed) NotificationEvent.confirmed
      ++ when (next == ReservationStatus.cancelled) NotificationEvent.cancelled

unfoldable pub resolve_update_events : ReservationRow → ReservationRow → List NotificationEvent
unfolding resolve_status_events has_reservation_details_changed
resolve_update_events before after =
    resolve_status_events before.status after.status
    ++ when (has_reservation_details_changed before after) NotificationEvent.modified

unfoldable pub resolve_webhook_status_events :
    Option ReservationStatus → ReservationStatus → List WebhookEvent
resolve_webhook_status_events previous next =
    if previous == some next
    then []
    else when (next == ReservationStatus.cancelled) WebhookEvent.cancelled
      ++ when (next == ReservationStatus.seated) WebhookEvent.seated
      ++ when (next == ReservationStatus.completed) WebhookEvent.completed

unfoldable pub resolve_webhook_creation_events : ReservationStatus → List WebhookEvent
unfolding resolve_webhook_status_events
resolve_webhook_creation_events status =
    WebhookEvent.created ∷ resolve_webhook_status_events none status

unfoldable pub resolve_webhook_update_events : ReservationRow → ReservationRow → List WebhookEvent
unfolding resolve_webhook_status_events has_reservation_details_changed
resolve_webhook_update_events before after =
    resolve_webhook_status_events (some before.status) after.status
    ++ when (before.status == after.status && has_reservation_details_changed before after)
        WebhookEvent.updated
