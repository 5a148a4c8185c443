-- ===== src/Booking/SlotTime/Laws.antt =====
-- What the slot's instant depends on, and what `normalizeTimeTo24h` answers.
use Prim.Native.Char.{Char}
use restaurant_reservation_s.Prelude.{
  ℕ, ◌+◌, ◌*◌, ◌/◌, ◌%◌, ◌≡◌, refl, ap, sym, ◌∙◌, subst, if_cases, true, ◌&&◌, some, List, [], ◌∷◌,
  String, arith, ◌==◌, nat_eq, Bool-cases, Option-cases, inl, inr,
}
use restaurant_reservation_s.Booking.SlotTime.{
  chars, text, is_digit, digit_value, is_char, parse_time, digit_char, hh_mm, to_24h, meridiem,
  after_hours, twelve_hour, is_some_time, normalize_text,
}

digit_char-is_digit : (n : ℕ) → is_digit (digit_char n) ≡ true
digit_char-is_digit n =
    let P : Char → Type 0 = λ c. is_digit c ≡ true in
    if_cases P (n == 0) refl (
      if_cases P (n == 1) refl (
        if_cases P (n == 2) refl (
          if_cases P (n == 3) refl (
            if_cases P (n == 4) refl (
              if_cases P (n == 5) refl (
                if_cases P (n == 6) refl
                  (if_cases P (n == 7) refl (if_cases P (n == 8) refl refl))))))))

chars-text : (cs : List Char) → chars (text cs) ≡ cs
chars-text [] = refl
chars-text (c ∷ cs) = ap (λ l. c ∷ l) (chars-text cs)

-- The text that is built of a 12-hour reading is in the 24-hour form.
after_hours-HhMm :
    (hours : ℕ) (cs : List Char) {r : List Char}
    → after_hours hours cs ≡ some r
    → is_some_time (parse_time r) ≡ true
unfolding after_hours parse_time
after_hours-HhMm hours [] h = absurd (ground arith)
after_hours-HhMm hours (c ∷ []) h = absurd (ground arith)
after_hours-HhMm hours (c ∷ d ∷ []) h = absurd (ground arith)
after_hours-HhMm hours (c ∷ d ∷ e ∷ cs) {r} h =
    elim (Bool-cases (is_char b':' c && is_digit d && is_digit e)) [
      | inr no_match ↦ absurd (ground arith)
      | inl fits ↦ elim (Option-cases (meridiem cs)) [
        | inl q ↦ absurd (ground arith)
        | inr (pm, q) ↦
            let built : hh_mm (to_24h hours pm) d e ≡ r = ground arith in
            subst (λ x. is_some_time (parse_time x) ≡ true) built
              (ground (
                arith,
                digit_char-is_digit (to_24h hours pm / 10),
                digit_char-is_digit (to_24h hours pm % 10),
              ))
      ]
    ]

twelve_hour-HhMm :
    (cs : List Char) {r : List Char} → twelve_hour cs ≡ some r → is_some_time (parse_time r) ≡ true
unfolding twelve_hour
twelve_hour-HhMm (a ∷ b ∷ cs) {r} h = elim (Bool-cases (is_digit a)) [
  | inl e ↦ elim (Bool-cases (is_digit b)) [
    | inl f ↦ after_hours-HhMm (digit_value a * 10 + digit_value b) cs (ground arith)
    | inr f ↦ after_hours-HhMm (digit_value a) (b ∷ cs) (ground arith)
  ]
  | inr e ↦ absurd (ground arith)
]
twelve_hour-HhMm (a ∷ []) h = absurd (ground arith)
twelve_hour-HhMm [] h = absurd (ground arith)

-- `normalizeTimeTo24h` of a text that is not empty: normalising twice is normalising once.
pub normalize_text_idem : (v : String) → normalize_text (normalize_text v) ≡ normalize_text v
unfolding normalize_text
normalize_text_idem v = elim (Bool-cases (is_some_time (parse_time (chars v)))) [
  | inl e ↦ let same : normalize_text v ≡ v = rw (e, normalize_text) in ap normalize_text same
  | inr e ↦ elim (Option-cases (twelve_hour (chars v))) [
    | inl f ↦ let same : normalize_text v ≡ v = rw (e, f, normalize_text) in ap normalize_text same
    | inr (cs, f) ↦
        let once : normalize_text v ≡ text cs = rw (e, f, normalize_text) in
        let form : is_some_time (parse_time (chars (text cs))) ≡ true =
          rw (chars-text cs) (twelve_hour-HhMm (chars v) f) in
        let again : normalize_text (text cs) ≡ text cs = rw (form, normalize_text) in
        ap normalize_text once ∙ again ∙ sym once
  ]
]
