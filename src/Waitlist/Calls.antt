-- ===== src/Waitlist/Calls.antt =====
-- `expire`, `convert`, `resolveOfferCode` and `consumeOffer` of
-- apps/api/src/waitlist/waitlist.service.ts, and the update of the waiting list in `createFromHold` of
-- apps/api/src/reservations.service.ts.
use restaurant_reservation_s.Prelude.{
  when_found, ℕ, Bool, false, ◌&&◌, ◌||◌, Option, none, some, String, is_empty, trim, ltb, ◌==◌,
  ◌!=◌, nat_eq, string_eq, option_eq, if◌then◌else◌, or_else,
}
use restaurant_reservation_s.Booking.Types.{HoldStatus, hold_status_eq, HoldRow}
use restaurant_reservation_s.Booking.Results.{Result, err, not_found, internal, gone}
use restaurant_reservation_s.Holds.{find_hold}
use restaurant_reservation_s.Waitlist.Rows.{
  WaitlistStatus, waitlist_status_eq, WaitlistRow, Waiting, find_entry, find_code, update_entries,
  has_id, expired_entry, converted_entry,
}
use restaurant_reservation_s.Waitlist.Offer.{safe_cancel_hold, to_admin_dto}

-- The hold that an entry names, if its row is there.
abbrev pub hold_of : Waiting → WaitlistRow → Option HoldRow
hold_of w e = elim e.hold_id [ none ↦ none | some h ↦ find_hold w.store h ]

-- Cancels the entry's hold where it is held.
abbrev pub cancel_held : Waiting → Option HoldRow → Waiting
cancel_held w none = w
cancel_held w (some h) = if h.status == HoldStatus.held then safe_cancel_hold w h.id else w

-- `waitlist.update({ where: { id }, data })`, also that of `forceExpire`.
abbrev pub update_entry : (WaitlistRow → WaitlistRow) → String → Waiting → Waiting
update_entry f id w = record w { entries = update_entries (has_id id) f w.entries }

unfoldable pub expire_call : (String → Bool) → Waiting → String → Result WaitlistRow × Waiting
unfolding safe_cancel_hold
expire_call decrypts w id =
    when_found (find_entry w.entries id) (err (not_found "Waitlist entry not found"), w)
      λ e. (
        to_admin_dto (decrypts id) (expired_entry e),
        update_entry expired_entry id (cancel_held w (hold_of w e)),
      )

unfoldable pub convert_call : (String → Bool) → Waiting → String → Result WaitlistRow × Waiting
convert_call decrypts w id =
    when_found (find_entry w.entries id) (err (internal "Record to update not found"), w)
      λ e. (to_admin_dto (decrypts id) (converted_entry e), update_entry converted_entry id w)

-- The update of the waiting list when a hold becomes a reservation.
unfoldable pub convert_held : Waiting → String → Waiting
convert_held w hold_id = record w {
  entries =
      update_entries (λ e. e.hold_id == some hold_id)
        (λ e. record e { status = WaitlistStatus.converted; expires_at = none }) w.entries;
}

-- An offer still stands: offered, not run out, and its hold held and not run out.
unfoldable pub is_live_offer : ℕ → WaitlistRow → HoldRow → Bool
is_live_offer now e hold =
    e.status == WaitlistStatus.offered
    && is_later e.expires_at
    && hold.status == HoldStatus.held
    && ltb now hold.expires_at
  where
    is_later : Option ℕ → Bool
    is_later none = false
    is_later (some t) = ltb now t

-- `resolveOfferCode`: the entry and its hold; an offer that no longer stands is expired.
unfoldable pub resolve_offer_code :
    (String → Bool)
    → ℕ
    → Waiting
    → String
    → Option String
    → Result (WaitlistRow × HoldRow) × Waiting
unfolding safe_cancel_hold is_live_offer
resolve_offer_code decrypts now w code token =
    if is_empty (trim code)
    then (err (not_found "Offer not found"), w)
    else when_found (find_code w.entries (trim code)) (err (not_found "Offer not found"), w)
        λ e.
          if is_empty (trim (or_else token "")) || e.offer_token != some (trim (or_else token ""))
          then (err (not_found "Offer not found"), w)
          else when_found (hold_of w e) (err (gone "Offer has no active hold"), w)
              λ hold.
                if is_live_offer now e hold then (to_admin_dto (decrypts e.id) (e, hold), w) else (
                  err (gone "Offer expired"),
                  update_entry expired_entry e.id (safe_cancel_hold w hold.id),
                )

unfoldable pub consume_offer :
    (String → Bool) → Waiting → String → Option String → Result WaitlistRow × Waiting
consume_offer decrypts w code token =
    if is_empty (trim code) || is_empty (trim (or_else token ""))
    then (err (not_found "Offer not found"), w)
    else when_found (find_code w.entries (trim code)) (err (not_found "Offer not found"), w)
        λ e.
          if e.offer_token != some (trim (or_else token ""))
          then (err (not_found "Offer not found"), w)
          else if e.status == WaitlistStatus.converted
          then (to_admin_dto (decrypts e.id) e, w)
          else if e.status != WaitlistStatus.offered
          then (err (gone "Offer expired"), w)
          else (
            to_admin_dto (decrypts e.id) (converted_entry e),
            update_entry converted_entry e.id w,
          )
