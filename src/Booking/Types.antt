-- ===== src/Booking/Types.antt =====
-- prisma/schema.prisma: the tables `Venue`, `Table`, `Reservation` with its table assignments, and
-- `Hold`. The database is the list of each table's rows; the columns that the services only carry
-- through are left out. Instants are milliseconds since 1970.
use restaurant_reservation_s.Prelude.{
  ℕ, ◌≡◌, ◌↔◌, Bool, true, false, Option, List, String, arith, Eq,
}

pub data ReservationStatus : Type 0 where
  pending confirmed seated completed cancelled : ReservationStatus

pub data HoldStatus : Type 0 where
  held consumed expired : HoldStatus

abbrev pub status_beq : ReservationStatus → ReservationStatus → Bool
status_beq pending pending = true
status_beq confirmed confirmed = true
status_beq seated seated = true
status_beq completed completed = true
status_beq cancelled cancelled = true
status_beq _ _ = false

pub status_beq_iff : (a b : ReservationStatus) → (status_beq a b ≡ true) ↔ (a ≡ b)
status_beq_iff a b = ground arith

instance abbrev pub reservation_status_eq : Eq ReservationStatus
reservation_status_eq = record { beq = status_beq; beq_iff = status_beq_iff }

abbrev pub hold_status_beq : HoldStatus → HoldStatus → Bool
hold_status_beq held held = true
hold_status_beq consumed consumed = true
hold_status_beq expired expired = true
hold_status_beq _ _ = false

pub hold_status_beq_iff : (a b : HoldStatus) → (hold_status_beq a b ≡ true) ↔ (a ≡ b)
hold_status_beq_iff a b = ground arith

instance abbrev pub hold_status_eq : Eq HoldStatus
hold_status_eq = record { beq = hold_status_beq; beq_iff = hold_status_beq_iff }

pub record VenueRow : Type 0 where
  pub id : String
  pub timezone : String
  pub hold_ttl_min : ℕ
  pub default_duration_min : ℕ
  pub cancellation_window_min : ℕ
  pub guest_can_modify_until_min : ℕ

pub record TableRow : Type 0 where
  pub id : String
  pub venue_id : String
  pub label : String
  pub capacity : ℕ
  pub join_group_id : Option String
  pub area : Option String
  pub zone : Option String

pub record Assignment : Type 0 where
  pub table_id : String
  pub assigned_order : ℕ

pub record ReservationRow : Type 0 where
  pub id : String
  pub venue_id : String
  pub table_id : Option String
  pub code : String
  pub status : ReservationStatus
  pub guest_name : String
  pub guest_phone : Option String
  pub guest_email : Option String
  pub party_size : ℕ
  pub slot_local_date : String
  pub slot_local_time : String
  pub slot_start_utc : ℕ
  pub duration_minutes : ℕ
  pub notes : Option String
  pub channel : Option String
  pub created_by : Option String
  pub tables : List Assignment

pub record HoldRow : Type 0 where
  pub id : String
  pub venue_id : String
  pub table_id : Option String
  pub reservation_id : Option String
  pub status : HoldStatus
  pub party_size : ℕ
  pub slot_local_date : String
  pub slot_local_time : String
  pub slot_start_utc : ℕ
  pub expires_at : ℕ
  pub created_by : Option String

pub record Store : Type 0 where
  pub tables : List TableRow
  pub reservations : List ReservationRow
  pub holds : List HoldRow
