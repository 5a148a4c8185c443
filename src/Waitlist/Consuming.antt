-- ===== src/Waitlist/Consuming.antt =====
-- An offer is consumed once; and what becomes of an entry whose hold was converted.
use mathlib.Core.Option
use restaurant_reservation_s.Prelude.{
  ℕ, ◌≡◌, refl, ap, ◌∙◌, inl, inr, Bool, true, false, none, some, List, String, is_empty, trim,
  ◌==◌, ◌!=◌, string_eq, option_eq, if◌then◌else◌, In, In-map, find_cases, find-map, Bool-cases,
  ==_of_eq, ==_refl,
}
use restaurant_reservation_s.Booking.Types.{hold_status_eq, HoldRow}
use restaurant_reservation_s.Booking.Results.{err, not_found, gone}
use restaurant_reservation_s.Holds.{find_hold}
use restaurant_reservation_s.Waitlist.Rows.{
  WaitlistStatus, waitlist_status_eq, WaitlistRow, Waiting, find_code, update_entries, has_id,
  expired_entry, converted_entry,
}
use restaurant_reservation_s.Waitlist.Offer.{safe_cancel_hold, to_admin_dto}
use restaurant_reservation_s.Waitlist.Calls.{
  update_entry, convert_held, is_live_offer, resolve_offer_code, consume_offer,
}

-- A code is found again after a change that leaves the codes.
find_code-update :
    (p : WaitlistRow → Bool) (f : WaitlistRow → WaitlistRow) (es : List WaitlistRow) (code : String)
    (e : WaitlistRow)
    → ((x : WaitlistRow) → (f x).offer_code ≡ x.offer_code)
    → find_code es code ≡ some e
    → p e ≡ true
    → find_code (update_entries p f es) code ≡ some (f e)
find_code-update p f es code e same h q =
    find-map (λ x. x.offer_code == some code) (λ x. if p x then f x else x) es keeps
    ∙ ap (Option.map (λ x. if p x then f x else x)) h
    ∙ rw q refl
  where
    keeps :
        (x : WaitlistRow)
        → ((if p x then f x else x).offer_code == some code) ≡ (x.offer_code == some code)
    keeps x = elim (Bool-cases (p x)) [
      | inl t ↦ rw t (ap (λ c. c == some code) (same x))
      | inr t ↦ rw t refl
    ]

-- A code and a token that lead to an entry.
pub record LeadsTo (w : Waiting) (code token : String) (e : WaitlistRow) : Type 0 where
  pub has_code : is_empty (trim code) ≡ false
  pub has_token : is_empty (trim token) ≡ false
  pub found : find_code w.entries (trim code) ≡ some e
  pub matches : e.offer_token ≡ some (trim token)

same_token :
    (e : WaitlistRow) (t : String) → e.offer_token ≡ some t → (e.offer_token != some t) ≡ false
same_token e t h = let q = ==_of_eq e.offer_token (some t) h in rw q refl

-- An offered entry is consumed by its code and token, and becomes converted: the answer is the
-- converted entry, or an exception where its personal data cannot be decrypted. The same call again
-- finds no offer.
pub consume_offer_once :
    (decrypts : String → Bool) (w : Waiting) (code token : String) (e : WaitlistRow)
    → LeadsTo w code token e
    → e.status ≡ WaitlistStatus.offered
    → ((consume_offer decrypts w code (some token)).0
        ≡ to_admin_dto (decrypts e.id) (converted_entry e))
      × (consume_offer decrypts (consume_offer decrypts w code (some token)).1 code (some token)
          ≡ (err (not_found "Offer not found"), (consume_offer decrypts w code (some token)).1))
unfolding consume_offer
consume_offer_once decrypts w code token e l offered =
    let t = same_token e (trim token) l.matches in
    let w' = update_entry converted_entry e.id w in
    let again : find_code w'.entries (trim code) ≡ some (converted_entry e) =
      find_code-update (has_id e.id) converted_entry w.entries (trim code) e (λ x. refl) l.found
        (==_refl e.id) in
    let fresh : (e.status == WaitlistStatus.converted) ≡ false = rw offered refl in
    let open_offer : (e.status != WaitlistStatus.offered) ≡ false = rw offered refl in
    rw (l.has_code, l.has_token, l.found, t, fresh, open_offer) (refl, rw again refl)

-- A guest who opens the link of an offer whose hold has become a reservation is told that the offer
-- has expired, and the converted entry is expired by it.
pub resolve_offer_code-converted :
    (decrypts : String → Bool) (now : ℕ) (w : Waiting) (code token hold_id : String)
    (e : WaitlistRow) (hold : HoldRow)
    → LeadsTo w code token e
    → e.hold_id ≡ some hold_id
    → find_hold w.store hold_id ≡ some hold
    → ((resolve_offer_code decrypts now (convert_held w hold_id) code (some token)).0
        ≡ err (gone "Offer expired"))
      × In
          (expired_entry e)
          (resolve_offer_code decrypts now (convert_held w hold_id) code (some token)).1.entries
unfolding resolve_offer_code convert_held is_live_offer safe_cancel_hold
resolve_offer_code-converted decrypts now w code token hold_id e hold l h k =
    let converts : WaitlistRow → WaitlistRow =
      λ x. record x { status = WaitlistStatus.converted; expires_at = none } in
    let found : find_code (convert_held w hold_id).entries (trim code) ≡ some (converts e) =
      find_code-update (λ x. x.hold_id == some hold_id) converts w.entries (trim code) e (λ x. refl)
        l.found (==_of_eq e.hold_id (some hold_id) h) in
    let t = same_token e (trim token) l.matches in
    let here =
      (find_cases (λ (x : WaitlistRow). x.offer_code == some (trim code))
        (convert_held w hold_id).entries (converts e) found).0 in
    let at_id =
      In-map (λ (x : WaitlistRow). if has_id e.id x then expired_entry x else x) (converts e)
        (convert_held w hold_id).entries here in
    let kept : In (expired_entry e)
        (update_entries (has_id e.id) expired_entry (convert_held w hold_id).entries) =
      rw (==_refl e.id) at at_id in
    rw (l.has_code, found, l.has_token, t, h, k) (refl, kept)
