-- ===== src/Waitlist/Rows.antt =====
-- The rows of the waiting list in prisma/schema.prisma, and what the calls of
-- apps/api/src/waitlist/waitlist.service.ts write into them.
use restaurant_reservation_s.Prelude.{
  ℕ, Bool, true, false, ◌&&◌, ◌||◌, Option, none, some, List, ◌≡◌, ◌↔◌, map, String, find, ◌==◌,
  ◌!=◌, nat_eq, string_eq, option_eq, if◌then◌else◌, arith, Eq,
}
use restaurant_reservation_s.Booking.Types.{hold_status_eq, VenueRow, HoldRow, Store}
use restaurant_reservation_s.Booking.SlotTime.{Calendar}

pub data WaitlistStatus : Type 0 where
  waiting offered expired converted : WaitlistStatus

abbrev pub waitlist_status_beq : WaitlistStatus → WaitlistStatus → Bool
waitlist_status_beq waiting waiting = true
waitlist_status_beq offered offered = true
waitlist_status_beq expired expired = true
waitlist_status_beq converted converted = true
waitlist_status_beq _ _ = false

pub waitlist_status_beq_iff : (a b : WaitlistStatus) → (waitlist_status_beq a b ≡ true) ↔ (a ≡ b)
waitlist_status_beq_iff a b = ground arith

instance abbrev pub waitlist_status_eq : Eq WaitlistStatus
waitlist_status_eq = record { beq = waitlist_status_beq; beq_iff = waitlist_status_beq_iff }

-- The columns that the offers read and write.
pub record WaitlistRow : Type 0 where
  pub id : String
  pub venue_id : String
  pub party_size : ℕ
  pub status : WaitlistStatus
  pub offer_code : Option String
  pub offer_token : Option String
  pub hold_id : Option String
  pub expires_at : Option ℕ

pub record Waiting : Type 0 where
  pub store : Store
  pub entries : List WaitlistRow

-- What the service takes from elsewhere: the calendar, `Intl`'s reading of an instant in a zone, the
-- tables that the availability service finds with their capacity (none where it throws), the code
-- and token drawn for an attempt, the id of the new hold, the venues and the time.
pub record World : Type 0 where
  pub calendar : Calendar
  pub to_local_slot : ℕ → String → String × String
  pub get_availability : Store → String → String × String → ℕ → List (String × ℕ)
  pub generate : ℕ → String × String
  pub decrypts : String → Bool
  pub new_hold_id : String
  pub venues : List VenueRow
  pub now : ℕ

abbrev pub find_entry : List WaitlistRow → String → Option WaitlistRow
find_entry entries id = find (λ e. e.id == id) entries

abbrev pub find_code : List WaitlistRow → String → Option WaitlistRow
find_code entries code = find (λ e. e.offer_code == some code) entries

abbrev pub update_entries :
    (WaitlistRow → Bool) → (WaitlistRow → WaitlistRow) → List WaitlistRow → List WaitlistRow
update_entries p f = map (λ e. if p e then f e else e)

abbrev pub has_id : String → WaitlistRow → Bool
has_id id e = e.id == id

abbrev pub expired_entry : WaitlistRow → WaitlistRow
expired_entry e = record e {
  status = expired;
  offer_code = none;
  offer_token = none;
  hold_id = none;
  expires_at = none;
}

abbrev pub converted_entry : WaitlistRow → WaitlistRow
converted_entry e = record e { status = converted; offer_token = none; expires_at = none }

abbrev pub offered_entry : HoldRow → String × String → WaitlistRow → WaitlistRow
offered_entry hold drawn e = record e {
  status = offered;
  offer_code = some drawn.0;
  offer_token = some drawn.1;
  hold_id = some hold.id;
  expires_at = some hold.expires_at;
}

-- The unique columns of the table: another entry with the code or the hold.
abbrev pub is_taken : String → HoldRow → String → WaitlistRow → Bool
is_taken id hold code e = e.id != id && (e.offer_code == some code || e.hold_id == some hold.id)

-- The `where` of the update of an offer.
abbrev pub is_offerable : String → WaitlistRow → Bool
is_offerable id e = e.id == id && e.status == waiting
