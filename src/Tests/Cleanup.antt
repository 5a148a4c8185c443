-- ===== src/Tests/Cleanup.antt =====
-- A sweep over one hold that ran out, one that has not, and one that was consumed.
use restaurant_reservation_s.Prelude.{
  ℕ, ◌≡◌, refl, false, none, some, List, [], ◌∷◌, All, String, suc, length, filter,
}
use restaurant_reservation_s.Booking.Types.{HoldStatus, HoldRow}
use restaurant_reservation_s.Holds.Cleanup.{has_run_out, Sweep, sweep}
use restaurant_reservation_s.Holds.Cleanup.Laws.{is_held, sweep_total}
use restaurant_reservation_s.Holds.Cleanup.Expiry.{AreSwept, sweep-AreSwept}

abbrev hold : String → HoldStatus → ℕ → HoldRow
hold id status expires_at = record {
  id = id;
  venue_id = "v";
  table_id = some "t1";
  reservation_id = none;
  status = status;
  party_size = 2;
  slot_local_date = "1970-01-02";
  slot_local_time = "19:00";
  slot_start_utc = 241_200_000;
  expires_at = expires_at;
  created_by = none;
}

abbrev holds : List HoldRow
holds =
    hold "h1" HoldStatus.held 100
    ∷ hold "h2" HoldStatus.held 900
    ∷ hold "h3" HoldStatus.consumed 100
    ∷ []

abbrev after : Sweep
after = record {
  total_expired = 1;
  batches = 1;
  holds =
      hold "h1" HoldStatus.expired 100
      ∷ hold "h2" HoldStatus.held 900
      ∷ hold "h3" HoldStatus.consumed 100
      ∷ [];
}

sweep_total_example :
    (r : Sweep) × (sweep (suc (length (filter is_held holds))) (λ n. 500) holds ≡ some r)
sweep_total_example = sweep_total (λ n. 500) holds

swept : sweep 3 (λ n. 500) holds ≡ some after
unfolding sweep
swept = refl

sweep-AreSwept_example :
    AreSwept (λ n. 500) holds after.holds × All (λ h. has_run_out 500 h ≡ false) after.holds
sweep-AreSwept_example = sweep-AreSwept 3 (λ n. 500) holds (refl, (refl, (refl, tt))) swept
