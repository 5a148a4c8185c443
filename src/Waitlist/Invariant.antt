-- ===== src/Waitlist/Invariant.antt =====
-- What the columns of an entry hold in each status, whatever calls have been made.
use restaurant_reservation_s.Prelude.{
  when_found_cases, ℕ, zero, suc, ◌≡◌, refl, inl, inr, Bool, true, ◌||◌, not, Option, none, some,
  List, [], ◌∷◌, String, find, any, is_empty, trim, is_some, ◌==◌, ◌!=◌, string_eq, option_eq,
  or_else, All, truthy, if_cases, Bool-cases,
}
use restaurant_reservation_s.Booking.Types.{HoldStatus, hold_status_eq, HoldRow, Store}
use restaurant_reservation_s.Booking.Results.{Result, err, ok}
use restaurant_reservation_s.Waitlist.Rows.{
  WaitlistStatus, waitlist_status_eq, WaitlistRow, Waiting, World, find_entry, find_code,
  update_entries, has_id, expired_entry, converted_entry, offered_entry, is_taken, is_offerable,
}
use restaurant_reservation_s.Waitlist.Offer.{
  safe_cancel_hold, assign_from, assign_offer, offer_held, offer_table, pick_table, offer,
}
use restaurant_reservation_s.Waitlist.Calls.{
  hold_of, cancel_held, expire_call, convert_call, convert_held, is_live_offer, resolve_offer_code,
  consume_offer,
}

-- An entry that waits or is expired has no code, token, hold or time; an offered one has all; a
-- converted one has no time at which it runs out.
abbrev pub FitsStatus : WaitlistStatus → WaitlistRow → Type 0
FitsStatus WaitlistStatus.waiting e =
    (e.offer_code ≡ none) × (e.offer_token ≡ none) × (e.hold_id ≡ none) × (e.expires_at ≡ none)
FitsStatus WaitlistStatus.offered e =
    (is_some e.offer_code ≡ true)
    × (is_some e.offer_token ≡ true)
    × (is_some e.hold_id ≡ true)
    × (is_some e.expires_at ≡ true)
FitsStatus WaitlistStatus.expired e =
    (e.offer_code ≡ none) × (e.offer_token ≡ none) × (e.hold_id ≡ none) × (e.expires_at ≡ none)
FitsStatus WaitlistStatus.converted e = e.expires_at ≡ none

abbrev pub IsWell : WaitlistRow → Type 0
IsWell e = FitsStatus e.status e

abbrev pub AreWell : Waiting → Type 0
AreWell w = All IsWell w.entries

-- Of an answer with what it leaves.
abbrev pub LeavesWell {ℓ} : {A : Type ℓ} → A × Waiting → Type 0
LeavesWell r = AreWell r.1

update_entries-AreWell :
    (p : WaitlistRow → Bool) (f : WaitlistRow → WaitlistRow) (es : List WaitlistRow)
    → ((e : WaitlistRow) → IsWell (f e))
    → All IsWell es
    → All IsWell (update_entries p f es)
update_entries-AreWell p f [] k a = tt
update_entries-AreWell p f (e ∷ es) k a = elim (Bool-cases (p e)) [
  | inl q ↦ rw q (k e, update_entries-AreWell p f es k a.1)
  | inr q ↦ rw q (a.0, update_entries-AreWell p f es k a.1)
]

assign_from-AreWell :
    (left : ℕ) (world : World) (w : Waiting) (id : String) (hold : HoldRow) (attempt : ℕ)
    → AreWell w
    → AreWell (assign_from left world w id hold attempt).1
unfolding assign_from safe_cancel_hold
assign_from-AreWell zero world w id hold attempt a = a
assign_from-AreWell (suc left) world w id hold attempt a =
    let drawn = world.generate attempt in
    let well =
      update_entries-AreWell (is_offerable id) (offered_entry hold drawn) w.entries
        (λ e. (refl, refl, refl, refl)) a in
    if_cases LeavesWell (not (any (is_offerable id) w.entries)) a (
      if_cases LeavesWell (any (is_taken id hold drawn.0) w.entries)
        (assign_from-AreWell left world w id hold (suc attempt) a)
        (when_found_cases LeavesWell
          (find_entry (update_entries (is_offerable id) (offered_entry hold drawn) w.entries) id)
          well (λ e q. well)))

offer_held-AreWell :
    (world : World) (w : Waiting) (e : WaitlistRow) (created : Result (HoldRow × Store))
    → AreWell w
    → AreWell (offer_held world w e created).1
unfolding offer_held assign_offer
offer_held-AreWell world w e (err thrown) a = a
offer_held-AreWell world w e (ok (hold, s)) a =
    assign_from-AreWell 5 world (record w { store = s }) e.id hold 1 a

offer-AreWell :
    (world : World) (w : Waiting) (id : String) (slot_start ttl : Option ℕ)
    → AreWell w
    → AreWell (offer world w id slot_start ttl).1
unfolding offer offer_table
offer-AreWell world w id slot_start ttl a =
    when_found_cases LeavesWell (find_entry w.entries id) a λ e q.
      if_cases LeavesWell (e.status != WaitlistStatus.waiting) a (
        when_found_cases LeavesWell slot_start a λ start t.
          when_found_cases LeavesWell (find (λ v. v.id == e.venue_id) world.venues) a λ v k.
            if_cases LeavesWell
              (not (
                truthy (
                  pick_table world w.store e.venue_id (world.to_local_slot start v.timezone)
                    e.party_size)))
              a (offer_held-AreWell world w e _ a))

expire_call-AreWell :
    (decrypts : String → Bool) (w : Waiting) (id : String)
    → AreWell w
    → AreWell (expire_call decrypts w id).1
unfolding expire_call safe_cancel_hold
expire_call-AreWell decrypts w id a = when_found_cases LeavesWell (find_entry w.entries id) a λ e q.
    update_entries-AreWell (has_id id) expired_entry (cancel_held w (hold_of w e)).entries
      (λ x. (refl, refl, refl, refl)) (kept e.hold_id (hold_of w e))
  where
    kept : (o : Option String) (h : Option HoldRow) → All IsWell (cancel_held w h).entries
    kept o none = a
    kept o (some h) = if_cases AreWell (h.status == HoldStatus.held) a a

convert_call-AreWell :
    (decrypts : String → Bool) (w : Waiting) (id : String)
    → AreWell w
    → AreWell (convert_call decrypts w id).1
unfolding convert_call
convert_call-AreWell decrypts w id a =
    when_found_cases LeavesWell (find_entry w.entries id) a
      λ e q. update_entries-AreWell (has_id id) converted_entry w.entries (λ x. refl) a

convert_held-AreWell :
    (w : Waiting) (hold_id : String) → AreWell w → AreWell (convert_held w hold_id)
unfolding convert_held
convert_held-AreWell w hold_id a =
    update_entries-AreWell (λ e. e.hold_id == some hold_id)
      (λ e. record e { status = WaitlistStatus.converted; expires_at = none }) w.entries (λ x. refl)
      a

resolve_offer_code-AreWell :
    (decrypts : String → Bool) (now : ℕ) (w : Waiting) (code : String) (token : Option String)
    → AreWell w
    → AreWell (resolve_offer_code decrypts now w code token).1
unfolding resolve_offer_code safe_cancel_hold
resolve_offer_code-AreWell decrypts now w code token a =
    if_cases LeavesWell (is_empty (trim code)) a (
      when_found_cases LeavesWell (find_code w.entries (trim code)) a λ e q.
        if_cases LeavesWell
          (is_empty (trim (or_else token "")) || e.offer_token != some (trim (or_else token ""))) a
          (when_found_cases LeavesWell (hold_of w e) a λ hold k.
            if_cases LeavesWell (is_live_offer now e hold) a (
              update_entries-AreWell (has_id e.id) expired_entry w.entries
                (λ x. (refl, refl, refl, refl)) a)))

consume_offer-AreWell :
    (decrypts : String → Bool) (w : Waiting) (code : String) (token : Option String)
    → AreWell w
    → AreWell (consume_offer decrypts w code token).1
unfolding consume_offer
consume_offer-AreWell decrypts w code token a =
    if_cases LeavesWell (is_empty (trim code) || is_empty (trim (or_else token ""))) a (
      when_found_cases LeavesWell (find_code w.entries (trim code)) a λ e q.
        if_cases LeavesWell (e.offer_token != some (trim (or_else token ""))) a (
          if_cases LeavesWell (e.status == WaitlistStatus.converted) a (
            if_cases LeavesWell (e.status != WaitlistStatus.offered) a
              (update_entries-AreWell (has_id e.id) converted_entry w.entries (λ x. refl) a))))

-- The calls of the service, each with what the world gives it.
pub data Call : Type 0 where
  offers : World → String → Option ℕ → Option ℕ → Call
  expires converts : (String → Bool) → String → Call
  converts_held : String → Call
  resolves : (String → Bool) → ℕ → String → Option String → Call
  consumes : (String → Bool) → String → Option String → Call

unfoldable pub step : Waiting → Call → Waiting
unfolding offer expire_call convert_call convert_held resolve_offer_code consume_offer
step w (offers world id slot_start ttl) = (offer world w id slot_start ttl).1
step w (expires decrypts id) = (expire_call decrypts w id).1
step w (converts decrypts id) = (convert_call decrypts w id).1
step w (converts_held hold_id) = convert_held w hold_id
step w (resolves decrypts now code token) = (resolve_offer_code decrypts now w code token).1
step w (consumes decrypts code token) = (consume_offer decrypts w code token).1

unfoldable pub run : Waiting → List Call → Waiting
unfolding step
run w [] = w
run w (c ∷ cs) = run (step w c) cs

step-AreWell : (w : Waiting) (c : Call) → AreWell w → AreWell (step w c)
unfolding step
step-AreWell w (offers world id slot_start ttl) a = offer-AreWell world w id slot_start ttl a
step-AreWell w (expires decrypts id) a = expire_call-AreWell decrypts w id a
step-AreWell w (converts decrypts id) a = convert_call-AreWell decrypts w id a
step-AreWell w (converts_held hold_id) a = convert_held-AreWell w hold_id a
step-AreWell w (resolves decrypts now code token) a =
    resolve_offer_code-AreWell decrypts now w code token a
step-AreWell w (consumes decrypts code token) a = consume_offer-AreWell decrypts w code token a

-- Whatever calls are made, failing ones included, an entry that waits or is expired has no code,
-- token, hold or time, an offered one has all of them, and a converted one has no time at which it
-- runs out, if that was so before.
pub run-AreWell : (w : Waiting) (cs : List Call) → AreWell w → AreWell (run w cs)
unfolding run
run-AreWell w [] a = a
run-AreWell w (c ∷ cs) a = run-AreWell (step w c) cs (step-AreWell w c a)
