-- ===== src/Holds/Cleanup.antt =====
-- apps/api/src/holds.cleanup.service.ts: the periodic sweep of holds that ran out. The clock gives
-- the instant that each batch reads; no other call changes the rows in between.
pub mod Laws
pub mod Expiry
use restaurant_reservation_s.Prelude.{
  ℕ, zero, suc, ◌+◌, Bool, ◌&&◌, Option, none, some, List, [], ◌∷◌, map, filter, sort, take, length,
  contains, ltb, leb, ◌==◌, string_eq, if◌then◌else◌,
}
use restaurant_reservation_s.Booking.Types.{HoldStatus, hold_status_eq, HoldRow}
use restaurant_reservation_s.Holds.{expire}

abbrev pub sweep_batch_size : ℕ
sweep_batch_size = 50

abbrev pub has_run_out : ℕ → HoldRow → Bool
has_run_out now h = h.status == HoldStatus.held && ltb h.expires_at now

-- The rows that one batch takes, those that ran out first before the others.
unfoldable pub batch_of : ℕ → List HoldRow → List HoldRow
batch_of now holds =
    take sweep_batch_size
      (sort (λ a b. leb a.expires_at b.expires_at) (filter (has_run_out now) holds))

unfoldable pub expire_batch : List HoldRow → List HoldRow → List HoldRow
expire_batch batch holds =
    map (λ h. if contains (map (λ b. b.id) batch) h.id then expire h else h) holds

pub record Sweep : Type 0 where
  pub total_expired : ℕ
  pub batches : ℕ
  pub holds : List HoldRow

-- The loop, batch after batch; `none` where the fuel runs out first.
unfoldable pub sweep_from : ℕ → (ℕ → ℕ) → ℕ → ℕ → List HoldRow → Option Sweep
unfolding batch_of expire_batch
sweep_from zero clock total batches holds = none
sweep_from (suc fuel) clock total batches holds =
    let batch = batch_of (clock batches) holds in
    let rest =
      sweep_from fuel clock (total + length batch) (suc batches) (expire_batch batch holds) in
    if ltb 0 (length batch)
    then rest
    else some (record { total_expired = total; batches = batches; holds = holds })

unfoldable pub sweep : ℕ → (ℕ → ℕ) → List HoldRow → Option Sweep
unfolding sweep_from
sweep fuel clock holds = sweep_from fuel clock 0 0 holds
