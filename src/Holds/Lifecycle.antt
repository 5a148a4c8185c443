-- ===== src/Holds/Lifecycle.antt =====
-- The life of a hold: from HELD it expires or is consumed, and then nothing changes it.
use mathlib.Core.Option
use restaurant_reservation_s.Prelude.{
  any, ◌&&◌, ◌!=◌, ℕ, ◌≡◌, ◌≢◌, refl, ap, sym, ◌∙◌, subst, ◌⊎◌, inl, inr, ◌↔◌, Bool, true, false,
  Option, some, List, [], ◌∷◌, map, String, arith, filter, find, find-map, leb, ◌==◌, nat_eq,
  string_eq, option_eq, if◌then◌else◌, In, of_In-map, In-sort, of_In-sort, In-filter_of_In,
  of_In-filter, Bool-cases, Option-cases, eq_of_==, find_cases,
}
use restaurant_reservation_s.Booking.Types.{HoldStatus, hold_status_eq, VenueRow, HoldRow, Store}
use restaurant_reservation_s.Booking.SlotTime.{Calendar}
use restaurant_reservation_s.Booking.Results.{Result, ok, err}
use restaurant_reservation_s.Holds.{
  HoldInput, update_hold, find_hold, expire, consume_row, get_valid, consume, consume_found,
  connect_reservation, cancel, is_overdue, is_listed, by_slot, list, create, new_hold,
}
use restaurant_reservation_s.Holds.Laws.{create-Created}

-- A call of the service, with the time at which it runs and the id that the database makes.
pub data Call : Type 0 where
  lists : ℕ → String → Option String → Call
  creates : ℕ → Option VenueRow → HoldInput → String → Call
  gets_valid : ℕ → String → Call
  consumes : ℕ → String → String → Call
  cancels : String → Call

-- The database after a call that answers, or as it was after one that throws.
abbrev pub after : Store → Result (HoldRow × Store) → Store
after s (ok (h, s')) = s'
after s (err e) = s

pub step : Calendar → Store → Call → Store
step calendar s (lists now venue date) = (list s now venue date).1
step calendar s (creates now venue input id) = after s (create calendar s venue input now id)
step calendar s (gets_valid now id) = (get_valid s now id).1
step calendar s (consumes now id reservation) = after s (consume s now id reservation)
step calendar s (cancels id) = after s (cancel s id)

pub run : Calendar → Store → List Call → Store
run calendar s [] = s
run calendar s (c ∷ cs) = run calendar (step calendar s c) cs

-- What a call may do to a row: nothing, or to a HELD one expire it or consume it.
abbrev pub Evolves : HoldRow → HoldRow → Type 0
Evolves h h' =
    (h' ≡ h)
    ⊎ ((h.status ≡ HoldStatus.held) × ((h' ≡ expire h) ⊎ ((r : String) × (h' ≡ consume_row r h))))

-- The ids of new rows are not in use: `id` is not the id that the call makes.
abbrev pub IsOld : String → Call → Type 0
IsOld id (creates now venue input new_id) = id ≢ new_id
IsOld id c = Unit {0}

pub find-update :
    (id i : String) (f : HoldRow → HoldRow) (hs : List HoldRow)
    → ((h : HoldRow) → (f h).id ≡ h.id)
    → find (λ h. h.id == i) (update_hold id f hs)
      ≡ Option.map (λ h. if h.id == id then f h else h) (find (λ h. h.id == i) hs)
find-update id i f hs keep = find-map (λ h. h.id == i) (λ h. if h.id == id then f h else h) hs same
  where
    same : (h : HoldRow) → ((if h.id == id then f h else h).id == i) ≡ (h.id == i)
    same h = elim (Bool-cases (h.id == id)) [
      | inl e ↦ rw e (ap (λ x. x == i) (keep h))
      | inr e ↦ rw e
    ]

-- An update of the rows with the id of a HELD row, as one row sees it.
update-Evolves :
    (s : Store) (g h : HoldRow) (id : String) (f : HoldRow → HoldRow)
    → ((k : HoldRow) → (f k).id ≡ k.id)
    → find_hold s g.id ≡ some g
    → g.status ≡ HoldStatus.held
    → ((k : HoldRow) → k.status ≡ HoldStatus.held → Evolves k (f k))
    → find_hold s id ≡ some h
    → (h' : HoldRow) × (find (λ k. k.id == id) (update_hold g.id f s.holds) ≡ some h')
      × Evolves h h'
update-Evolves s g h id f keep found held evolve e = elim (Bool-cases (h.id == g.id)) [
  | inl same ↦
      let at_id : h.id ≡ id = eq_of_== h.id id (find_cases _ s.holds h e).1 in
      let both : h.id ≡ g.id = eq_of_== h.id g.id same in
      let q : some h ≡ some g = sym e ∙ ap (find_hold s) (sym at_id ∙ both) ∙ found in
      let hg : h ≡ g = cc q in
      (
        f h,
        rw (find-update g.id id f s.holds keep, e, same) refl,
        evolve h (ap (λ k. k.status) hg ∙ held),
      )
  | inr other ↦ (h, rw (find-update g.id id f s.holds keep, e, other) refl, inl refl)
]

abbrev Kept : Store → String → HoldRow → Type 0
Kept s id h = (h' : HoldRow) × (find_hold s id ≡ some h') × Evolves h h'

-- The row that a call has found, looked up under its own id.
found_itself :
    (s : Store) (id : String) (g : HoldRow) → find_hold s id ≡ some g → find_hold s g.id ≡ some g
found_itself s id g e =
    subst (λ i. find_hold s i ≡ some g) (sym (eq_of_== g.id id (find_cases _ s.holds g e).1)) e

expire-Evolves : (k : HoldRow) → k.status ≡ HoldStatus.held → Evolves k (expire k)
expire-Evolves k e = inr (e, inl refl)

get_valid-Kept :
    (s : Store) (now : ℕ) (i id : String) (h : HoldRow)
    → find_hold s id ≡ some h
    → Kept (get_valid s now i).1 id h
unfolding get_valid
get_valid-Kept s now i id h e = elim (Option-cases (find_hold s i)) [
  | inl none_found ↦ rw (none_found, get_valid) (h, e, inl refl)
  | inr (g, f) ↦ elim (Bool-cases (g.status == HoldStatus.held)) [
    | inr finished ↦ rw (f, finished, get_valid) (h, e, inl refl)
    | inl live ↦ elim (Bool-cases (leb g.expires_at now)) [
      | inr later ↦ rw (f, live, later, get_valid) (h, e, inl refl)
      | inl over ↦
          rw (f, live, over, get_valid)
            (update-Evolves s g h id expire (λ k. refl) (found_itself s i g f)
              (eq_of_== g.status HoldStatus.held live) expire-Evolves e)
    ]
  ]
]

cancel-Kept :
    (s : Store) (i id : String) (h : HoldRow)
    → find_hold s id ≡ some h
    → Kept (after s (cancel s i)) id h
unfolding cancel
cancel-Kept s i id h e = elim (Option-cases (find_hold s i)) [
  | inl none_found ↦ rw (none_found, cancel) (h, e, inl refl)
  | inr (g, f) ↦ elim (Bool-cases (g.status == HoldStatus.held)) [
    | inr finished ↦ rw (f, finished, cancel) (h, e, inl refl)
    | inl live ↦
        rw (f, live, cancel)
          (update-Evolves s g h id expire (λ k. refl) (found_itself s i g f)
            (eq_of_== g.status HoldStatus.held live) expire-Evolves e)
  ]
]

connect_reservation-Kept :
    (s : Store) (g h : HoldRow) (r id : String)
    → find_hold s g.id ≡ some g
    → g.status ≡ HoldStatus.held
    → find_hold s id ≡ some h
    → Kept (after s (connect_reservation s g r)) id h
unfolding connect_reservation
connect_reservation-Kept s g h r id f held e =
    elim (Bool-cases (any (λ x. x.id == r) s.reservations)) [
      | inr absent ↦ rw (absent, connect_reservation) (h, e, inl refl)
      | inl there ↦
          elim (Bool-cases (any (λ o. o.id != g.id && o.reservation_id == some r) s.holds)) [
            | inl taken ↦ rw (there, taken, connect_reservation) (h, e, inl refl)
            | inr free ↦
                rw (there, free, connect_reservation)
                  (update-Evolves s g h id (consume_row r) (λ k. refl) f held
                    (λ k q. inr (q, inr (r, refl))) e)
          ]
    ]

consume-Kept :
    (s : Store) (now : ℕ) (i r id : String) (h : HoldRow)
    → find_hold s id ≡ some h
    → Kept (after s (consume s now i r)) id h
unfolding consume consume_found
consume-Kept s now i r id h e = elim (Option-cases (find_hold s i)) [
  | inl none_found ↦ rw (none_found, consume) (h, e, inl refl)
  | inr (g, f) ↦ elim (Bool-cases (g.status == HoldStatus.held)) [
    | inr finished ↦ rw (f, finished, consume, consume_found) (h, e, inl refl)
    | inl live ↦ elim (Bool-cases (leb g.expires_at now)) [
      | inl over ↦
          rw (f, live, over, consume, consume_found)
            (update-Evolves s g h id expire (λ k. refl) (found_itself s i g f)
              (eq_of_== g.status HoldStatus.held live) expire-Evolves e)
      | inr later ↦
          rw (f, live, later, consume, consume_found)
            (connect_reservation-Kept s g h r id (found_itself s i g f)
              (eq_of_== g.status HoldStatus.held live) e)
    ]
  ]
]

list-Kept :
    (s : Store) (now : ℕ) (venue : String) (date : Option String) (id : String) (h : HoldRow)
    → find_hold s id ≡ some h
    → Kept (list s now venue date).1 id h
unfolding list
list-Kept s now venue date id h e = elim (Bool-cases (is_overdue venue now h)) [
  | inl over ↦ (
    expire h,
    rw (swept, e, over) refl,
    inr (eq_of_== h.status HoldStatus.held (ground arith), inl refl),
  )
  | inr fine ↦ (h, rw (swept, e, fine) refl, inl refl)
]
  where
    sweep : HoldRow → HoldRow
    sweep k = if is_overdue venue now k then expire k else k

    same : (k : HoldRow) → ((sweep k).id == id) ≡ (k.id == id)
    same k = elim (Bool-cases (is_overdue venue now k)) [ inl q ↦ rw q refl | inr q ↦ rw q refl ]

    swept : find (λ k. k.id == id) (map sweep s.holds) ≡ Option.map sweep (find_hold s id)
    swept = find-map (λ k. k.id == id) sweep s.holds same

create-Kept :
    (calendar : Calendar) (s : Store) (now : ℕ) (venue : Option VenueRow) (input : HoldInput)
    (new_id id : String) (h : HoldRow)
    → id ≢ new_id
    → find_hold s id ≡ some h
    → Kept (after s (create calendar s venue input now new_id)) id h
unfolding new_hold
create-Kept calendar s now venue input new_id id h ne e =
    go (create calendar s venue input now new_id) refl
  where
    is_false : (b : Bool) → ¬ (b ≡ true) → b ≡ false
    is_false true n = absurd (n refl)
    is_false false n = refl

    go :
        (r : Result (HoldRow × Store))
        → create calendar s venue input now new_id ≡ r
        → Kept (after s r) id h
    go (err x) q = (h, e, inl refl)
    go (ok (row, s')) q =
        let made = (create-Created calendar s venue input now new_id q).7 in
        let row_id : row.id ≡ new_id = ap (λ r. r.id) made.row_is in
        let miss : (row.id == id) ≡ false =
          is_false (row.id == id) (λ y. ne (sym (eq_of_== row.id id y) ∙ row_id)) in
        (h, subst (λ x. find_hold x id ≡ some h) (sym made.added) (rw miss e), inl refl)

-- One call leaves every row as it is, or expires or consumes it where it was HELD.
pub step-Evolves :
    (calendar : Calendar) (s : Store) (c : Call) (id : String) (h : HoldRow)
    → IsOld id c
    → find_hold s id ≡ some h
    → (h' : HoldRow) × (find_hold (step calendar s c) id ≡ some h') × Evolves h h'
unfolding step
step-Evolves calendar s (lists now v d) id h o e = list-Kept s now v d id h e
step-Evolves calendar s (creates now v i n) id h o e = create-Kept calendar s now v i n id h o e
step-Evolves calendar s (gets_valid now i) id h o e = get_valid-Kept s now i id h e
step-Evolves calendar s (consumes now i r) id h o e = consume-Kept s now i r id h e
step-Evolves calendar s (cancels i) id h o e = cancel-Kept s i id h e

-- Every call of a history makes its rows under ids other than this one.
abbrev pub AllOld : String → List Call → Type 0
AllOld id [] = Unit {0}
AllOld id (c ∷ cs) = IsOld id c × AllOld id cs

-- `list` answers exactly the venue's HELD rows that have not run out (on the date asked for, if one
-- is), and leaves no HELD row of the venue that has run out in the database.
pub list-live :
    (s : Store) (now : ℕ) (venue : String) (date : Option String) (h : HoldRow)
    → (In h (list s now venue date).0
        ↔ (In h (list s now venue date).1.holds × (is_listed venue date now h ≡ true)))
      × (In h (list s now venue date).1.holds → is_overdue venue now h ≡ false)
unfolding list
list-live s now venue date h = ((there, back), swept)
  where
    there :
        In h (list s now venue date).0
        → In h (list s now venue date).1.holds × (is_listed venue date now h ≡ true)
    there i =
        of_In-filter (is_listed venue date now) h (list s now venue date).1.holds (
          of_In-sort by_slot h (filter (is_listed venue date now) (list s now venue date).1.holds)
            i)

    back :
        In h (list s now venue date).1.holds × (is_listed venue date now h ≡ true)
        → In h (list s now venue date).0
    back w =
        In-sort by_slot h (filter (is_listed venue date now) (list s now venue date).1.holds)
          (In-filter_of_In (is_listed venue date now) h (list s now venue date).1.holds w.0 w.1)

    one :
        (k : HoldRow)
        → is_overdue venue now (if is_overdue venue now k then expire k else k) ≡ false
    one k = elim (Bool-cases (is_overdue venue now k)) [
      | inl q ↦ rw q (ground arith)
      | inr q ↦ rw q q
    ]

    swept : In h (list s now venue date).1.holds → is_overdue venue now h ≡ false
    swept i =
        let w = of_In-map (λ k. if is_overdue venue now k then expire k else k) h s.holds i in
        subst (λ x. is_overdue venue now x ≡ false) (sym w.2) (one w.0)
