-- ===== src/Reservations/Exclusive/Change.antt =====
-- Changes of a reservation and double booking: `update`, `updateStatus` and `remove`.
use restaurant_reservation_s.Prelude.{
  ◌≡◌, ◌≢◌, refl, sym, ap, ◌∙◌, subst, ◌⊎◌, inl, inr, false, some, List, [], ◌∷◌, String, ◌==◌,
  nat_eq, string_eq, option_eq, if◌then◌else◌, In, of_In-map, find_cases, Bool-cases, IsNodup,
  ==_of_eq, eq_of_==,
}
use restaurant_reservation_s.Booking.Types.{
  ReservationStatus, reservation_status_eq, ReservationRow, Store,
}
use restaurant_reservation_s.Booking.Results.{ok}
use restaurant_reservation_s.Reservations.Status.{ensure_transition}
use restaurant_reservation_s.Reservations.Status.Laws.{
  IsBlocking, Step-IsBlocking, ensure_transition_iff,
}
use restaurant_reservation_s.Reservations.Update.{put_row, find_reservation}
use restaurant_reservation_s.Reservations.Exclusive.{
  DoubleBooked, DoubleBooked-comm, IsSingle, ids, IsSound, IsExclusive,
}

ids-put_row :
    (row : ReservationRow) (rows : List ReservationRow) → ids (put_row row rows) ≡ ids rows
ids-put_row row [] = refl
ids-put_row row (r ∷ rows) = elim (Bool-cases (r.id == row.id)) [
  | inl e ↦ rw (e, ids-put_row row rows, eq_of_== r.id row.id e) refl
  | inr n ↦ rw (n, ids-put_row row rows) refl
]

-- A row after the update is the new one, or one of another id.
In-put_row :
    (row a : ReservationRow) (rows : List ReservationRow)
    → In a (put_row row rows)
    → (a ≡ row) ⊎ (In a rows × ((a.id == row.id) ≡ false))
In-put_row row a rows i =
    let w = of_In-map (λ (r : ReservationRow). if r.id == row.id then row else r) a rows i in
    elim (Bool-cases (w.0.id == row.id)) [
      | inl e ↦ inl (w.2 ∙ rw e refl)
      | inr n ↦
          let same : a ≡ w.0 = w.2 ∙ rw n refl in
          inr (rw same w.1, ap (λ (r : ReservationRow). r.id == row.id) same ∙ n)
    ]

-- A row put in the place of those of its id, and not double booked with the others.
pub put_row-IsExclusive :
    (row : ReservationRow) (rows : List ReservationRow)
    → ((o : ReservationRow) → In o rows → (o.id == row.id) ≡ false → ¬ DoubleBooked row o)
    → IsExclusive rows
    → IsExclusive (put_row row rows)
put_row-IsExclusive row rows apart sound = record {
  once = subst IsNodup (sym (ids-put_row row rows)) sound.once;
  exclusive = λ a b i j n d. pairs a b (In-put_row row a rows i) (In-put_row row b rows j) n d;
}
  where
    Place : ReservationRow → Type 0
    Place a = (a ≡ row) ⊎ (In a rows × ((a.id == row.id) ≡ false))

    pairs : (a b : ReservationRow) → Place a → Place b → a.id ≢ b.id → ¬ DoubleBooked a b
    pairs a b (inl e) (inl f) n d = n (ap (λ (r : ReservationRow). r.id) (e ∙ sym f))
    pairs a b (inl e) (inr (j, k)) n d = apart b j k (subst (λ r. DoubleBooked r b) e d)
    pairs a b (inr (i, k)) (inl f) n d =
        apart a i k (DoubleBooked-comm (subst (λ r. DoubleBooked a r) f d))
    pairs a b (inr (i, k)) (inr (j, l)) n d = sound.exclusive a b i j n d

pub put_row-IsSound :
    (row : ReservationRow) (rows : List ReservationRow)
    → ((o : ReservationRow) → In o rows → (o.id == row.id) ≡ false → ¬ DoubleBooked row o)
    → IsSingle row
    → IsSound rows
    → IsSound (put_row row rows)
put_row-IsSound row rows apart single sound =
    let after =
      put_row-IsExclusive row rows apart
        (record { once = sound.once; exclusive = sound.exclusive }) in
    record {
      once = after.once;
      exclusive = after.exclusive;
      single = λ r i. each r (In-put_row row r rows i);
    }
  where
    each : (r : ReservationRow) → (r ≡ row) ⊎ (In r rows × ((r.id == row.id) ≡ false)) → IsSingle r
    each r (inl e) = subst IsSingle (sym e) single
    each r (inr (i, k)) = sound.single r i

pub find-In :
    (s : Store) (id : String) {r : ReservationRow}
    → find_reservation s id ≡ some r
    → In r s.reservations
find-In s id {r} e = (find_cases (λ (o : ReservationRow). o.id == id) s.reservations r e).0

-- A status that the service lets through blocks only where the one before did.
pub ensure_transition-blocks :
    (a b : ReservationStatus) {u : Unit {0}}
    → ensure_transition a b ≡ ok u
    → IsBlocking b
    → IsBlocking a
ensure_transition-blocks a b h k = elim ((ensure_transition_iff a b).0 h) [
  | inl e ↦ rw e k
  | inr st ↦ Step-IsBlocking st
]

-- A change that leaves the place, the time and the tables, and makes nothing count again, makes
-- no double booking.
pub record Unmoved (r row : ReservationRow) : Type 0 where
  pub id : row.id ≡ r.id
  pub venue : row.venue_id ≡ r.venue_id
  pub date : row.slot_local_date ≡ r.slot_local_date
  pub time : row.slot_local_time ≡ r.slot_local_time
  pub start : row.slot_start_utc ≡ r.slot_start_utc
  pub duration : row.duration_minutes ≡ r.duration_minutes
  pub table : row.table_id ≡ r.table_id
  pub tables : row.tables ≡ r.tables
  pub blocks : IsBlocking row.status → IsBlocking r.status

Unmoved-DoubleBooked :
    {r row o : ReservationRow} → Unmoved r row → DoubleBooked row o → DoubleBooked r o
Unmoved-DoubleBooked {r} {row} {o} m d = record {
  a_blocks = m.blocks d.a_blocks;
  b_blocks = d.b_blocks;
  same_venue = sym m.venue ∙ d.same_venue;
  same_date = sym m.date ∙ d.same_date;
  same_time = sym m.time ∙ d.same_time;
  a_before = rw (sym m.start) d.a_before;
  b_before = rw (sym m.start, sym m.duration) d.b_before;
  shares = elim d.shares [
    | inl e ↦ inl (sym m.table ∙ e)
    | inr (inl e) ↦ inr (inl e)
    | inr (inr (t, inl u, v)) ↦ inr (inr (t, inl (sym m.table ∙ u), v))
    | inr (inr (t, inr u, v)) ↦ inr (inr (t, inr (rw (sym m.tables) u), v))
  ];
}

pub Unmoved-IsSound :
    {r row : ReservationRow} {rows : List ReservationRow}
    → In r rows
    → Unmoved r row
    → IsSound rows
    → IsSound (put_row row rows)
Unmoved-IsSound {r} {row} {rows} i m sound =
    put_row-IsSound row rows
      (λ o j k d.
        sound.exclusive r o i j (λ e. cc (k, ==_of_eq o.id row.id (sym (m.id ∙ e))))
          (Unmoved-DoubleBooked m d))
      single sound
  where
    single : IsSingle row
    single t j = m.table ∙ sound.single r i t (rw (sym m.tables) j)
