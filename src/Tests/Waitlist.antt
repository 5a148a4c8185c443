-- ===== src/Tests/Waitlist.antt =====
-- A party on the waiting list, and an offer of the one table.
use restaurant_reservation_s.Booking.Conflicts.{has_slot_conflicts, find_slot_conflicts, hold_where}
use restaurant_reservation_s.Booking.SlotTime.{
  normalize_time_to_24h, to_utc_instant, slot_fields, parse_date,
}
use restaurant_reservation_s.Holds.{create, insert_hold, assert_table_in_venue, is_same_place}
use restaurant_reservation_s.Prelude.{Bool, String, true, trim}
use restaurant_reservation_s.Prelude.{◌+◌, ◌*◌, ◌≡◌, refl, none, some, [], ◌∷◌, In}
use restaurant_reservation_s.Booking.Types.{HoldStatus, HoldRow, TableRow}
use restaurant_reservation_s.Booking.Results.{err, ok, not_found, gone, conflict}
use restaurant_reservation_s.Waitlist.Rows.{
  WaitlistStatus, WaitlistRow, Waiting, World, converted_entry, expired_entry,
}
use restaurant_reservation_s.Waitlist.Offer.{offer}
use restaurant_reservation_s.Waitlist.Calls.{consume_offer, resolve_offer_code, convert_held}
use restaurant_reservation_s.Waitlist.Invariant.{AreWell, Call, run, run-AreWell}
use restaurant_reservation_s.Waitlist.Consuming.{
  LeadsTo, consume_offer_once, resolve_offer_code-converted,
}
use restaurant_reservation_s.Waitlist.Holding.{HeldAmong, offer-LeavesNone}

abbrev entry : WaitlistRow
entry = record {
  id = "w1";
  venue_id = "v";
  party_size = 2;
  status = WaitlistStatus.waiting;
  offer_code = none;
  offer_token = none;
  hold_id = none;
  expires_at = none;
}

abbrev taken : WaitlistRow
taken = record entry {
  id = "w2";
  status = WaitlistStatus.offered;
  offer_code = some "AAAA";
  offer_token = some "T1";
  hold_id = some "h0";
  expires_at = some 900_000;
}

abbrev window : TableRow
window = record {
  id = "t1";
  venue_id = "v";
  label = "T1";
  capacity = 4;
  join_group_id = none;
  area = none;
  zone = none;
}

abbrev first_hold : HoldRow
first_hold = record {
  id = "h0";
  venue_id = "v";
  table_id = some "t1";
  reservation_id = none;
  status = HoldStatus.held;
  party_size = 2;
  slot_local_date = "1970-01-02";
  slot_local_time = "21:00";
  slot_start_utc = 248_400_000;
  expires_at = 900_000;
  created_by = none;
}

abbrev lobby : Waiting
lobby = record {
  store = record { tables = window ∷ []; reservations = []; holds = first_hold ∷ [] };
  entries = entry ∷ taken ∷ [];
}

abbrev readable : String → Bool
readable id = true

-- Every attempt draws the code that the other entry has.
abbrev world : World
world = record {
  calendar = record {
    date_utc = λ f. ((f.day * 24 + f.hour) * 60 + f.minute) * 60_000;
    to_locale = λ zone t. some t;
  };
  to_local_slot = λ t zone. ("1970-01-02", "19:00");
  get_availability = λ s v slot party. ("t1", 4) ∷ [];
  generate = λ attempt. ("AAAA", "T2");
  decrypts = readable;
  new_hold_id = "h1";
  venues =
      record {
        id = "v";
        timezone = "Europe/Rome";
        hold_ttl_min = 10;
        default_duration_min = 90;
        cancellation_window_min = 60;
        guest_can_modify_until_min = 60;
      }
      ∷ [];
  now = 0;
}

lobby-AreWell : AreWell lobby
lobby-AreWell = ((refl, refl, refl, refl), ((refl, refl, refl, refl), tt))

run-AreWell_example : AreWell (
    run lobby (
      Call.offers world "w1" (some 241_200_000) none
      ∷ Call.consumes readable "AAAA" (some "T1")
      ∷ []))
run-AreWell_example =
    run-AreWell lobby
      (Call.offers world "w1" (some 241_200_000) none
        ∷ Call.consumes readable "AAAA" (some "T1")
        ∷ [])
      lobby-AreWell

taken-LeadsTo : LeadsTo lobby "AAAA" "T1" taken
unfolding trim
taken-LeadsTo = record { has_code = refl; has_token = refl; found = refl; matches = refl }

consume_offer_once_example :
    ((consume_offer readable lobby "AAAA" (some "T1")).0 ≡ ok (converted_entry taken))
    × (consume_offer readable (consume_offer readable lobby "AAAA" (some "T1")).1 "AAAA" (some "T1")
        ≡ (err (not_found "Offer not found"), (consume_offer readable lobby "AAAA" (some "T1")).1))
consume_offer_once_example = consume_offer_once readable lobby "AAAA" "T1" taken taken-LeadsTo refl

resolve_offer_code-converted_example :
    ((resolve_offer_code readable 0 (convert_held lobby "h0") "AAAA" (some "T1")).0
      ≡ err (gone "Offer expired"))
    × In
        (expired_entry taken)
        (resolve_offer_code readable 0 (convert_held lobby "h0") "AAAA" (some "T1")).1.entries
resolve_offer_code-converted_example =
    resolve_offer_code-converted readable 0 lobby "AAAA" "T1" "h0" taken first_hold taken-LeadsTo
      refl refl

offer_fails :
    (offer world lobby "w1" (some 241_200_000) none).0
    ≡ err (conflict "Unable to assign unique offer code")
unfolding offer create normalize_time_to_24h to_utc_instant slot_fields parse_date insert_hold
    assert_table_in_venue has_slot_conflicts find_slot_conflicts hold_where is_same_place
offer_fails = refl

offer-LeavesNone_example :
    HeldAmong (offer world lobby "w1" (some 241_200_000) none).1.store.holds lobby.store.holds
offer-LeavesNone_example =
    offer-LeavesNone world lobby "w1" (some 241_200_000) none
      (conflict "Unable to assign unique offer code") (λ e f. refl) offer_fails
