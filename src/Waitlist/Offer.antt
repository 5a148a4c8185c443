-- ===== src/Waitlist/Offer.antt =====
-- `offer` of apps/api/src/waitlist/waitlist.service.ts. A call that throws may have changed rows
-- before, so its answer comes with the database after it.
use restaurant_reservation_s.Prelude.{
  when_found, Bool, ℕ, zero, suc, ◌*◌, min, max, not, Option, none, some, List, [], ◌∷◌, String,
  any, find, sort, leb, ◌==◌, ◌!=◌, nat_eq, string_eq, option_eq, if◌then◌else◌, or_else, truthy,
}
use restaurant_reservation_s.Booking.Types.{hold_status_eq, VenueRow, HoldRow, Store}
use restaurant_reservation_s.Booking.Results.{
  Result, ok, err, bad_request, not_found, conflict, internal,
}
use restaurant_reservation_s.Holds
use restaurant_reservation_s.Holds.{HoldInput, find_hold}
use restaurant_reservation_s.Waitlist.Rows.{
  WaitlistStatus, waitlist_status_eq, WaitlistRow, Waiting, World, find_entry, update_entries,
  offered_entry, is_taken, is_offerable,
}

-- `normalizeTtl`, in minutes.
unfoldable pub normalize_ttl : Option ℕ → ℕ
normalize_ttl raw =
    let minutes = or_else raw 15 in if leb minutes 0 then 15 else max 5 (min 180 minutes)

-- The database after a call that may have failed, and that is not looked at.
abbrev pub after {ℓ} : {A : Type ℓ} → Store → Result (A × Store) → Store
after s (err e) = s
after s (ok (a, s')) = s'

unfoldable pub safe_cancel_hold : Waiting → String → Waiting
safe_cancel_hold w id = record w { store = after w.store (Holds.cancel w.store id) }

-- The attempts of `assignOffer`, numbered.
unfoldable pub assign_from :
    ℕ → World → Waiting → String → HoldRow → ℕ → Result WaitlistRow × Waiting
unfolding safe_cancel_hold
assign_from zero world w id hold attempt =
    (err (conflict "Unable to assign unique offer code"), safe_cancel_hold w hold.id)
assign_from (suc left) world w id hold attempt =
    let drawn = world.generate attempt in
    let again = assign_from left world w id hold (suc attempt) in
    let entries = update_entries (is_offerable id) (offered_entry hold drawn) w.entries in
    if not (any (is_offerable id) w.entries)
    then (
      err (conflict "Waitlist entry already updated"),
      safe_cancel_hold (safe_cancel_hold w hold.id) hold.id,
    )
    else if any (is_taken id hold drawn.0) w.entries
    then again
    else when_found (find_entry entries id)
        (
          err (not_found "Waitlist entry missing after offer update"),
          safe_cancel_hold (record w { entries = entries }) hold.id,
        )
        (λ e. (ok e, record w { entries = entries }))

unfoldable pub assign_offer : World → Waiting → String → HoldRow → Result WaitlistRow × Waiting
unfolding assign_from
assign_offer world w id hold = assign_from 5 world w id hold 1

-- The smallest of the tables that are found.
unfoldable pub pick_table : World → Store → String → String × String → ℕ → Option String
pick_table world s venue_id slot party_size =
    first_of
      (sort (λ (a b : String × ℕ). leb a.1 b.1) (world.get_availability s venue_id slot party_size))
  where
    first_of : List (String × ℕ) → Option String
    first_of [] = none
    first_of (t ∷ ts) = some t.0

abbrev pub offer_input : WaitlistRow → String × String → String → Option ℕ → HoldInput
offer_input e slot table_id ttl_minutes = record {
  date = slot.0;
  time = slot.1;
  party_size = e.party_size;
  table_id = some table_id;
  ttl_sec = some (normalize_ttl ttl_minutes * 60);
  created_by = some "waitlist-offer";
}

-- `toAdminDto` decrypts the mail address and the telephone number of the entry, as does the answer of
-- `resolveOfferCode`, and throws where it cannot.
abbrev pub to_admin_dto {ℓ} : {A : Type ℓ} → Bool → A → Result A
to_admin_dto decrypts x = if decrypts then ok x else err (internal "Unable to decrypt PII")

-- The answer of `offer`.
abbrev pub with_hold : Bool → HoldRow → Result WaitlistRow → Result (WaitlistRow × HoldRow)
with_hold decrypts hold (err thrown) = err thrown
with_hold decrypts hold (ok e) = to_admin_dto decrypts (e, hold)

-- What follows the hold of an offer: an exception passes, and a new hold is assigned to the entry.
unfoldable pub offer_held :
    World
    → Waiting
    → WaitlistRow
    → Result (HoldRow × Store)
    → Result (WaitlistRow × HoldRow) × Waiting
unfolding assign_offer
offer_held world w e (err thrown) = (err thrown, w)
offer_held world w e (ok (hold, s)) =
    let assigned = assign_offer world (record w { store = s }) e.id hold in
    (with_hold (world.decrypts e.id) hold assigned.0, assigned.1)

-- The hold of a table for the entry.
unfoldable pub offer_table :
    World
    → Waiting
    → WaitlistRow
    → VenueRow
    → String × String
    → Option ℕ
    → Option String
    → Result (WaitlistRow × HoldRow) × Waiting
unfolding offer_held
offer_table world w e venue slot ttl_minutes picked =
    if not (truthy picked)
    then (err (conflict "No tables available for the requested slot"), w)
    else offer_held world w e (
        Holds.create world.calendar w.store (some venue)
          (offer_input e slot (or_else picked "") ttl_minutes) world.now world.new_hold_id)

-- The entry must be waiting; the time of the slot is none where it does not parse.
unfoldable pub offer :
    World → Waiting → String → Option ℕ → Option ℕ → Result (WaitlistRow × HoldRow) × Waiting
unfolding offer_table pick_table
offer world w id slot_start ttl_minutes =
    when_found (find_entry w.entries id) (err (not_found "Waitlist entry not found"), w)
      λ e.
        if e.status != WaitlistStatus.waiting
        then (err (conflict "Only waiting entries can be offered"), w)
        else when_found slot_start (err (bad_request "slotStart must be a valid ISO timestamp"), w)
            λ start.
              when_found (find (λ v. v.id == e.venue_id) world.venues)
                (err (internal "Waitlist entry without venue"), w)
                λ venue.
                  let slot = world.to_local_slot start venue.timezone in
                  offer_table world w e venue slot ttl_minutes
                    (pick_table world w.store e.venue_id slot e.party_size)
