-- ===== src/RateLimit/Spec.antt =====
-- What a token bucket promises, as a level that rises with time: independent of how it is stored.
use restaurant_reservation_s.Prelude.{
  ℕ, ◌+◌, ◌-◌, ◌*◌, ◌≤◌, ◌≡◌, min, Bool, true, false, List, [], ◌∷◌, ltb, if◌then◌else◌, arith, ap,
  Bool-cases, inl, inr,
}

-- A level and the instant at which it was taken.
pub record Level : Type 0 where
  pub available : ℕ
  pub at : ℕ

scale-add : (a b r : ℕ) → (a + b) * r ≡ a * r + b * r
scale-add a b r = grind arith

pub scale_mono : (a b r : ℕ) → a ≤ b → a * r ≤ b * r
scale_mono a b r h = grind arith

-- Instants in their order, from a first to a last one.
abbrev pub InOrder : ℕ → List (ℕ × ℕ) → ℕ → Type 0
InOrder start [] end = start ≤ end
InOrder start ((cost, now) ∷ draws) end = (start ≤ now) × InOrder now draws end

InOrder-le : (start end : ℕ) (draws : List (ℕ × ℕ)) → InOrder start draws end → start ≤ end
InOrder-le start end [] h = h
InOrder-le start end ((cost, now) ∷ draws) h = omega (arith, h.0, InOrder-le now end draws h.1)

module _ (cap rate : ℕ) where
  abbrev pub rise : ℕ → ℕ → ℕ
  rise tokens elapsed = min cap (tokens + elapsed * rate)

  pub rise-rise : (x c d : ℕ) → rise (rise x c) d ≡ rise x (c + d)
  rise-rise x c d = omega (arith, scale-add c d rate)

  abbrev pub draw : Level → ℕ → ℕ → Bool × Level
  draw l cost now =
      let available = rise l.available (now - l.at) in
      if ltb available cost
      then (false, record { available = available; at = now })
      else (true, record { available = available - cost; at = now })

  pub rise-le : (x d : ℕ) → rise x d ≤ cap
  rise-le x d = omega arith

  -- The cost of the draws that are allowed, of a list of costs and instants.
  abbrev pub drawn : Level → List (ℕ × ℕ) → ℕ
  drawn l [] = 0
  drawn l ((cost, now) ∷ draws) =
      let d = draw l cost now in let rest = drawn d.1 draws in (if d.0 then cost else 0) + rest

  -- What is drawn is at most the level at the start and what has risen since.
  pub drawn-bounded :
      (l : Level) (end : ℕ) (draws : List (ℕ × ℕ))
      → InOrder l.at draws end
      → drawn l draws ≤ l.available + (end - l.at) * rate
  drawn-bounded l end [] h = omega arith
  drawn-bounded l end ((cost, now) ∷ draws) h =
      let rest = drawn-bounded (draw l cost now).1 end draws (at_now h.1) in
      let last = InOrder-le now end draws h.1 in
      let whole : (now - l.at + (end - now)) * rate ≡ (end - l.at) * rate =
        ap (λ t. t * rate) (omega (arith, h.0, last)) in
      let parts = scale-add (now - l.at) (end - now) rate in
      elim (Bool-cases (ltb (rise l.available (now - l.at)) cost)) [
        | inl e ↦ rw e (let r = rw e at rest in omega arith)
        | inr e ↦ rw e (
            let r = rw e at rest in
            let c : cost ≤ rise l.available (now - l.at) = ground arith in omega arith)
      ]
    where
      at_now : InOrder now draws end → InOrder (draw l cost now).1.at draws end
      at_now i = elim (Bool-cases (ltb (rise l.available (now - l.at)) cost)) [
        | inl e ↦ rw e i
        | inr e ↦ rw e i
      ]
