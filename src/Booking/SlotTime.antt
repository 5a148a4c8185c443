-- ===== src/Booking/SlotTime.antt =====
-- apps/api/src/utils/time.ts. `Calendar` is what the code takes from the runtime: the instant that
-- `Date.UTC` makes of five numbers, and an instant's `toLocaleString` in a time zone read back by
-- `new Date`, none where the zone is unknown and `toLocaleString` throws. Instants before 1970 are outside the model.
pub mod Laws
use Prim.Native.Char.{Char, code}
use restaurant_reservation_s.Prelude.{
  ℕ, ◌+◌, ◌-◌, ◌*◌, ◌/◌, ◌%◌, ◌≡◌, refl, Bool, true, false, ◌&&◌, ◌||◌, not, Option, none, some,
  List, [], ◌∷◌, String, ltb, leb, ◌==◌, nat_eq, string_eq, is_empty, is_space, if◌then◌else◌,
}

pub record SlotFields : Type 0 where
  pub year : ℕ
  pub month : ℕ
  pub day : ℕ
  pub hour : ℕ
  pub minute : ℕ

pub record Calendar : Type 0 where
  pub date_utc : SlotFields → ℕ
  pub to_locale : String → ℕ → Option ℕ

-- A text as its characters.
abbrev pub chars : String → List Char
chars String.[] = []
chars (String.◌∷◌ c s) = c ∷ chars s

abbrev pub text : List Char → String
text [] = String.[]
text (c ∷ cs) = String.◌∷◌ c (text cs)

abbrev pub is_digit : Char → Bool
is_digit c = leb b'0' (code c) && leb (code c) b'9'

abbrev pub digit_value : Char → ℕ
digit_value c = code c - b'0'

abbrev pub is_char : ℕ → Char → Bool
is_char n c = code c == n

-- `/^\d{4}-\d{2}-\d{2}$/`, and the three numbers.
unfoldable pub parse_date : List Char → Option (ℕ × ℕ × ℕ)
parse_date (a ∷ b ∷ c ∷ d ∷ e ∷ f ∷ g ∷ h ∷ i ∷ j ∷ []) =
    if is_digit a
      && is_digit b
      && is_digit c
      && is_digit d
      && is_char b'-' e
      && is_digit f
      && is_digit g
      && is_char b'-' h
      && is_digit i
      && is_digit j
    then some (
      digit_value a * 1000 + digit_value b * 100 + digit_value c * 10 + digit_value d,
      digit_value f * 10 + digit_value g,
      digit_value i * 10 + digit_value j,
    )
    else none
parse_date _ = none

-- `/^\d{2}:\d{2}$/`, and the two numbers.
unfoldable pub parse_time : List Char → Option (ℕ × ℕ)
parse_time (a ∷ b ∷ c ∷ d ∷ e ∷ []) =
    if is_digit a && is_digit b && is_char b':' c && is_digit d && is_digit e
    then some (digit_value a * 10 + digit_value b, digit_value d * 10 + digit_value e)
    else none
parse_time _ = none

-- What `new Date(tzShifted.getTime() + offsetMs)` makes of the two instants: the offset
-- `naive - shifted` may be negative.
unfoldable pub shift_back : ℕ → ℕ → ℕ
shift_back naive shifted =
    if leb shifted naive then shifted + (naive - shifted) else shifted - (shifted - naive)

-- The two assertions and the five numbers.
unfoldable pub slot_fields : String → String → Option SlotFields
slot_fields date time = elim (parse_date (chars date)) [
  | none ↦ none
  | some (y, m, d) ↦ elim (parse_time (chars time)) [
    | none ↦ none
    | some (hh, mm) ↦ some (record { year = y; month = m; day = d; hour = hh; minute = mm })
  ]
]

-- `toUtcInstant`; `none` where it throws.
unfoldable pub to_utc_instant : Calendar → String → String → String → Option ℕ
unfolding shift_back
to_utc_instant calendar timezone date time = elim (slot_fields date time) [
  | none ↦ none
  | some fields ↦
      let naive = calendar.date_utc fields in
      elim (calendar.to_locale timezone naive) [
        | none ↦ none
        | some shifted ↦ some (shift_back naive shifted)
      ]
]

-- The digit of a number below ten.
abbrev pub digit_char : ℕ → Char
digit_char n =
    if n == 0
    then "0"
    else if n == 1
    then "1"
    else if n == 2
    then "2"
    else if n == 3
    then "3"
    else if n == 4
    then "4"
    else if n == 5
    then "5"
    else if n == 6
    then "6"
    else if n == 7
    then "7"
    else if n == 8
    then "8"
    else "9"

-- `` `${String(hours).padStart(2, '0')}:${minutes}` `` for hours below a hundred.
abbrev pub hh_mm : ℕ → Char → Char → List Char
hh_mm hours d e = digit_char (hours / 10) ∷ digit_char (hours % 10) ∷ ":" ∷ d ∷ e ∷ []

abbrev pub to_24h : ℕ → Bool → ℕ
to_24h hours pm =
    if pm && ltb hours 12 then hours + 12 else if not pm && hours == 12 then 0 else hours

-- `\s*([AP]M)$`, without regard to case: whether it is PM.
unfoldable pub meridiem : List Char → Option Bool
meridiem (p ∷ m ∷ []) =
    if is_char b'M' m || is_char b'm' m
    then (if is_char b'P' p || is_char b'p' p
        then some true
        else if is_char b'A' p || is_char b'a' p
        then some false
        else none)
    else none
meridiem (c ∷ cs) = let rest = meridiem cs in if is_space (code c) then rest else none
meridiem [] = none

-- The rest of the 12-hour form after the hours: `:(\d{2})\s*([AP]M)$`.
after_hours : ℕ → List Char → Option (List Char)
unfolding meridiem
after_hours hours (c ∷ d ∷ e ∷ cs) =
    if is_char b':' c && is_digit d && is_digit e
    then elim (meridiem cs) [ none ↦ none | some pm ↦ some (hh_mm (to_24h hours pm) d e) ]
    else none
after_hours hours _ = none

-- `/^(\d{1,2}):(\d{2})\s*([AP]M)$/i`, and the text that the code builds of its parts.
unfoldable pub twelve_hour : List Char → Option (List Char)
unfolding after_hours
twelve_hour (a ∷ b ∷ cs) =
    if is_digit a
    then (if is_digit b
        then after_hours (digit_value a * 10 + digit_value b) cs
        else after_hours (digit_value a) (b ∷ cs))
    else none
twelve_hour _ = none

abbrev pub is_some_time : Option (ℕ × ℕ) → Bool
is_some_time none = false
is_some_time (some t) = true

unfoldable pub normalize_text : String → String
unfolding parse_time twelve_hour
normalize_text value =
    if is_some_time (parse_time (chars value))
    then value
    else elim (twelve_hour (chars value)) [ none ↦ value | some cs ↦ text cs ]

unfoldable pub normalize_time_to_24h : Option String → Option String
unfolding normalize_text
normalize_time_to_24h none = none
normalize_time_to_24h (some value) = if is_empty value then none else some (normalize_text value)

pm_example : normalize_time_to_24h (some "7:05 pm") ≡ some "19:05"
unfolding normalize_time_to_24h is_space
pm_example = refl

midnight_example : normalize_time_to_24h (some "12:30AM") ≡ some "00:30"
unfolding normalize_time_to_24h
midnight_example = refl
