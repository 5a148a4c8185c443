-- ===== src/Booking/Results.antt =====
-- What a service call answers: a value, or the exception that it throws. A call that throws inside
-- its transaction leaves the database as it was, so only a value carries a new database.
use restaurant_reservation_s.Prelude.{
  ◌≡◌, refl, Bool, true, false, if◌then◌else◌, Option, none, some, String,
}
use restaurant_reservation_s.Booking.Conflicts.{SlotConflicts}

-- NestJS's exceptions by class, with their messages; `slot_conflict` is the exception of
-- `throwSlotConflict`, and `internal` any other error.
pub data Error : Type 0 where
  bad_request not_found forbidden conflict gone internal : String → Error
  slot_conflict : SlotConflicts → Error

pub data Result {ℓ} (A : Type ℓ) : Type ℓ where
  err : Error → Result A
  ok : A → Result A

abbrev pub or_throw {ℓ} : {A : Type ℓ} → Option A → Error → Result A
or_throw (some a) e = ok a
or_throw none e = err e

-- `if (!test) throw e;`
abbrev pub require : Bool → Error → Result (Unit {0})
require test e = if test then ok tt else err e

-- One statement after another: the first exception ends the chain.
infixl 5 ◌>>=◌ ◌>>◌
abbrev pub ◌>>=◌ {ℓ κ} : {A : Type ℓ} {B : Type κ} → Result A → (A → Result B) → Result B
err thrown >>= next = err thrown
ok value >>= next = next value

abbrev pub ◌>>◌ {κ} : {B : Type κ} → Result (Unit {0}) → Result B → Result B
first >> then_this = first >>= λ done. then_this

-- What a chain that has succeeded passed through.
module _ {ℓ κ} {A : Type ℓ} {B : Type κ} where
  pub >>=-eq-ok :
      (first : Result A) (next : A → Result B) {answer : B}
      → (first >>= next) ≡ ok answer
      → (value : A) × (first ≡ ok value) × (next value ≡ ok answer)
  >>=-eq-ok (err thrown) next h = cc
  >>=-eq-ok (ok value) next h = (value, refl, h)

pub require-eq-ok : (b : Bool) (e : Error) {u : Unit {0}} → require b e ≡ ok u → b ≡ true
require-eq-ok true e h = refl
require-eq-ok false e h = cc

pub or_throw-eq-ok {ℓ} :
    {A : Type ℓ} (o : Option A) (e : Error) {a : A} → or_throw o e ≡ ok a → o ≡ some a
or_throw-eq-ok none e h = cc
or_throw-eq-ok (some a) e h = cc

pub ok_inj {ℓ} : {A : Type ℓ} {a b : A} → ok a ≡ ok b → a ≡ b
ok_inj h = cc
