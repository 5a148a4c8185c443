-- ===== src/Reservations/Events/Laws.antt =====
-- Which events a change of a reservation sends.
use restaurant_reservation_s.Prelude.{
  ◌≡◌, ◌≢◌, refl, ◌⊎◌, inl, inr, true, false, List, [], ◌∷◌, ◌++◌, String, ◌==◌, ==_refl, ==_of_eq,
  eq_of_==, nat_eq, string_eq, option_eq, arith, Bool-cases, sort,
}
use restaurant_reservation_s.Booking.Types.{
  ReservationStatus, reservation_status_eq, ReservationRow,
}
use restaurant_reservation_s.Booking.Conflicts.{assigned}
use restaurant_reservation_s.Reservations.Events.{
  WebhookEvent, normalize_nullable_string, same_texts, text_le, when,
  has_reservation_details_changed, resolve_update_events, resolve_webhook_update_events,
}

same_texts_refl : (xs : List String) → same_texts xs xs ≡ true
same_texts_refl [] = refl
same_texts_refl (x ∷ xs) = ground (arith, ==_refl x, same_texts_refl xs)

unchanged : (r : ReservationRow) → has_reservation_details_changed r r ≡ false
unfolding has_reservation_details_changed
unchanged r =
    rw
      (
        ==_refl r.guest_name,
        ==_refl (normalize_nullable_string r.guest_email),
        ==_refl (normalize_nullable_string r.guest_phone),
        ==_refl (normalize_nullable_string r.notes),
        ==_refl (normalize_nullable_string r.channel),
        ==_refl r.party_size,
        ==_refl r.duration_minutes,
        ==_refl r.table_id,
        ==_refl r.slot_local_date,
        ==_refl r.slot_local_time,
        ==_refl r.slot_start_utc,
        same_texts_refl (sort text_le (assigned r)),
      )
      refl

-- An update that leaves the reservation as it was sends no notification and no webhook.
pub update_events_quiet :
    (r : ReservationRow)
    → (resolve_update_events r r ≡ []) × (resolve_webhook_update_events r r ≡ [])
unfolding resolve_update_events resolve_webhook_update_events
update_events_quiet r =
    (rw (==_refl r.status, unchanged r) refl, rw (==_refl r.status, unchanged r) refl)

-- The webhooks that reaching a status sends.
abbrev pub on_reaching : ReservationStatus → List WebhookEvent
on_reaching ReservationStatus.pending = []
on_reaching ReservationStatus.confirmed = []
on_reaching ReservationStatus.seated = WebhookEvent.seated ∷ []
on_reaching ReservationStatus.completed = WebhookEvent.completed ∷ []
on_reaching ReservationStatus.cancelled = WebhookEvent.cancelled ∷ []

-- The webhooks of an update: where the status stays, `updated` exactly where a detail has changed;
-- where it changes, the webhook of the status reached, if it has one, and no `updated`.
pub resolve_webhook_update_events_cases :
    (before after : ReservationRow)
    → ((before.status ≡ after.status)
        × (resolve_webhook_update_events before after
            ≡ when (has_reservation_details_changed before after) WebhookEvent.updated))
      ⊎ ((before.status ≢ after.status)
          × (resolve_webhook_update_events before after ≡ on_reaching after.status))
unfolding resolve_webhook_update_events
resolve_webhook_update_events_cases before after =
    elim (Bool-cases (before.status == after.status)) [
      | inl e ↦ inl (eq_of_== before.status after.status e, rw e refl)
      | inr n ↦ inr (
        λ e. absurd (ground (arith, ==_of_eq before.status after.status e)),
        rw n (reach after.status),
      )
    ]
  where
    reach :
        (s : ReservationStatus)
        → ((when (s == ReservationStatus.cancelled) WebhookEvent.cancelled
              ++ when (s == ReservationStatus.seated) WebhookEvent.seated
              ++ when (s == ReservationStatus.completed) WebhookEvent.completed)
            ++ [])
          ≡ on_reaching s
    reach ReservationStatus.pending = refl
    reach ReservationStatus.confirmed = refl
    reach ReservationStatus.seated = refl
    reach ReservationStatus.completed = refl
    reach ReservationStatus.cancelled = refl
