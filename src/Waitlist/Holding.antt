-- ===== src/Waitlist/Holding.antt =====
-- The hold behind an offer: a failed offer leaves none.
use restaurant_reservation_s.Prelude.{
  when_found_cases, ℕ, zero, suc, ◌≡◌, refl, sym, ap, ◌∙◌, subst, inl, inr, true, false, not,
  Option, some, List, ◌∷◌, String, find, any, truthy, ◌==◌, ◌!=◌, string_eq, if◌then◌else◌,
  if_cases, In, of_In-map, Bool-cases, Option-cases, ==_refl,
}
use restaurant_reservation_s.Booking.Types.{HoldStatus, hold_status_eq, HoldRow, Store, VenueRow}
use restaurant_reservation_s.Booking.Results.{Error, Result, err, ok}
use restaurant_reservation_s.Holds
use restaurant_reservation_s.Holds.{
  HoldInput, find_hold, update_hold, expire, expire_hold, new_hold,
}
use restaurant_reservation_s.Holds.Laws.{create-Created}
use restaurant_reservation_s.Waitlist.Rows.{
  WaitlistStatus, waitlist_status_eq, WaitlistRow, Waiting, World, find_entry, update_entries,
  offered_entry, is_taken, is_offerable,
}
use restaurant_reservation_s.Waitlist.Offer.{
  after, safe_cancel_hold, assign_from, assign_offer, with_hold, offer_held, offer_table,
  pick_table, offer,
}

-- The held holds of a list are among those of another.
abbrev pub HeldAmong : List HoldRow → List HoldRow → Type 0
HeldAmong hs before = (h : HoldRow) → In h hs → h.status ≡ HoldStatus.held → In h before

-- A row of an update that expires is held only if it was left as it was.
update_hold-held :
    (id : String) (hs : List HoldRow) (h : HoldRow)
    → In h (update_hold id expire hs)
    → h.status ≡ HoldStatus.held
    → In h hs × ((h.id == id) ≡ false)
update_hold-held id hs h i held =
    let w = of_In-map (λ (x : HoldRow). if x.id == id then expire x else x) h hs i in
    elim (Bool-cases (w.0.id == id)) [
      | inl e ↦ absurd (let q : h ≡ expire w.0 = w.2 ∙ rw e refl in cc)
      | inr n ↦
          let same : h ≡ w.0 = w.2 ∙ rw n refl in
          (subst (λ x. In x hs) (sym same) w.1, ap (λ (x : HoldRow). x.id == id) same ∙ n)
    ]

after-cancel :
    (s : Store) (id : String) (x : HoldRow)
    → find_hold s id ≡ some x
    → after s (Holds.cancel s id) ≡ (if x.status != HoldStatus.held then s else expire_hold s x)
unfolding Holds.cancel
after-cancel s id x e = elim (Bool-cases (x.status == HoldStatus.held)) [
  | inl h ↦ rw (e, h) refl
  | inr h ↦ rw (e, h) refl
]

-- Cancelling a hold makes none held.
cancel-HeldAmong : (s : Store) (id : String) → HeldAmong (after s (Holds.cancel s id)).holds s.holds
unfolding Holds.cancel
cancel-HeldAmong s id h i held = elim (Option-cases (find_hold s id)) [
  | inl e ↦ rw e at i
  | inr (x, e) ↦ elim (Bool-cases (x.status == HoldStatus.held)) [
    | inr n ↦ rw (e, n) at i
    | inl y ↦ (update_hold-held x.id s.holds h (rw (e, y) at i) held).0
  ]
]

-- Cancelling the newest hold leaves no held hold but those before it.
cancel-newest :
    (s : Store) (hold : HoldRow) (before : List HoldRow)
    → s.holds ≡ hold ∷ before
    → hold.status ≡ HoldStatus.held
    → HeldAmong (after s (Holds.cancel s hold.id)).holds before
cancel-newest s hold before e k h i held =
    let found : find_hold s hold.id ≡ some hold =
      ap (find (λ (x : HoldRow). x.id == hold.id)) e ∙ rw (==_refl hold.id) refl in
    let y : (hold.status != HoldStatus.held) ≡ false = rw k refl in
    let out : after s (Holds.cancel s hold.id) ≡ expire_hold s hold =
      after-cancel s hold.id hold found ∙ rw y refl in
    let r = update_hold-held hold.id s.holds h (subst (λ (x : Store). In h x.holds) out i) held in
    older (subst (λ l. In h l) e r.0) r.1
  where
    older : In h (hold ∷ before) → (h.id == hold.id) ≡ false → In h before
    older (inl q) n = absurd (
        let r = ==_refl h.id in
        let s' : (h.id == hold.id) ≡ (h.id == h.id) = ap (λ (x : HoldRow). h.id == x.id) (sym q) in
        cc)
    older (inr j) n = j

-- Of an answer with what it leaves: where it is an exception, no held hold is new.
abbrev pub LeavesNone {ℓ} : {A : Type ℓ} → List HoldRow → Result A × Waiting → Type ℓ
LeavesNone before r = (thrown : Error) → r.0 ≡ err thrown → HeldAmong r.1.store.holds before

module _ (world : World) (id : String) (hold : HoldRow) (before : List HoldRow)
    (held : hold.status ≡ HoldStatus.held) where
  assign_from-LeavesNone :
      (left : ℕ) (w : Waiting) (attempt : ℕ)
      → w.store.holds ≡ hold ∷ before
      → LeavesNone before (assign_from left world w id hold attempt)
  unfolding assign_from safe_cancel_hold
  assign_from-LeavesNone zero w attempt e = λ thrown q. cancel-newest w.store hold before e held
  assign_from-LeavesNone (suc left) w attempt e =
      let drawn = world.generate attempt in
      let once = cancel-newest w.store hold before e held in
      if_cases (LeavesNone before) (not (any (is_offerable id) w.entries))
        (λ thrown q h i k.
          once h (cancel-HeldAmong (after w.store (Holds.cancel w.store hold.id)) hold.id h i k) k)
        (if_cases (LeavesNone before) (any (is_taken id hold drawn.0) w.entries)
          (assign_from-LeavesNone left w (suc attempt) e)
          (when_found_cases (LeavesNone before)
            (find_entry (update_entries (is_offerable id) (offered_entry hold drawn) w.entries) id)
            (λ thrown q. once) (λ x f thrown q. cc)))

offer_held-LeavesNone :
    (world : World) (w : Waiting) (e : WaitlistRow) (venue : VenueRow) (input : HoldInput)
    → world.decrypts e.id ≡ true
    → LeavesNone w.store.holds (
        offer_held world w e
          (Holds.create world.calendar w.store (some venue) input world.now world.new_hold_id))
unfolding offer_held assign_offer new_hold
offer_held-LeavesNone world w e venue input decrypts = by_hold _ refl
  where
    made :
        (hold : HoldRow) (s : Store)
        → Holds.create world.calendar w.store (some venue) input world.now world.new_hold_id
          ≡ ok (hold, s)
        → (s.holds ≡ hold ∷ w.store.holds) × (hold.status ≡ HoldStatus.held)
    made hold s q =
        let c =
          create-Created world.calendar w.store (some venue) input world.now world.new_hold_id q in
        (ap (λ (x : Store). x.holds) c.7.added, ap (λ (x : HoldRow). x.status) c.7.row_is)

    unassigned :
        (hold : HoldRow) (r : Result WaitlistRow) (thrown : Error)
        → with_hold (world.decrypts e.id) hold r ≡ err thrown
        → r ≡ err thrown
    unassigned hold (err t) thrown q = cc
    unassigned hold (ok x) thrown q = absurd (let n = rw decrypts at q in cc)

    by_hold :
        (r : Result (HoldRow × Store))
        → Holds.create world.calendar w.store (some venue) input world.now world.new_hold_id ≡ r
        → LeavesNone w.store.holds (offer_held world w e r)
    by_hold (err t) q = λ thrown k h i held. i
    by_hold (ok (hold, s)) q = λ thrown k.
        let m = made hold s q in
        assign_from-LeavesNone world e.id hold w.store.holds m.1 5 (record w { store = s }) 1 m.0
          thrown
          (unassigned hold (assign_from 5 world (record w { store = s }) e.id hold 1).0 thrown k)

-- Where the personal data of the entry can be decrypted, an offer that fails leaves no held hold that
-- was not there before: the hold that was made for it is cancelled.
pub offer-LeavesNone :
    (world : World) (w : Waiting) (id : String) (slot_start ttl : Option ℕ) (thrown : Error)
    → ((e : WaitlistRow) → find_entry w.entries id ≡ some e → world.decrypts e.id ≡ true)
    → (offer world w id slot_start ttl).0 ≡ err thrown
    → HeldAmong (offer world w id slot_start ttl).1.store.holds w.store.holds
unfolding offer offer_table
offer-LeavesNone world w id slot_start ttl thrown0 decrypts = fails thrown0
  where
    same : {r : Result (WaitlistRow × HoldRow)} → LeavesNone w.store.holds (r, w)
    same thrown q h i k = i

    fails : LeavesNone w.store.holds (offer world w id slot_start ttl)
    fails = when_found_cases (LeavesNone w.store.holds) (find_entry w.entries id) same λ e q.
        if_cases (LeavesNone w.store.holds) (e.status != WaitlistStatus.waiting) same (
          when_found_cases (LeavesNone w.store.holds) slot_start same λ start t.
            when_found_cases (LeavesNone w.store.holds)
              (find (λ v. v.id == e.venue_id) world.venues) same
              λ v k.
                if_cases (LeavesNone w.store.holds)
                  (not (
                    truthy (
                      pick_table world w.store e.venue_id (world.to_local_slot start v.timezone)
                        e.party_size)))
                  same (offer_held-LeavesNone world w e v _ (decrypts e q)))
