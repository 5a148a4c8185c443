-- ===== src/Lib.antt =====
-- A model of the booking core of the restaurant reservation system (apps/api/src), and proofs
-- about it. A request for times goes to the availability engine, which works on rows that its
-- caller has read. A guest or the staff then hold a table (holds service) and turn the hold into
-- a reservation, or book directly (reservations service); both services ask the conflict check
-- before they insert, under an advisory lock of the slot and in a serializable transaction. The
-- seating service suggests tables for a reservation and assigns several to it; the waiting list
-- offers a table to a party through a hold; a sweep expires holds that ran out. The rate limits
-- stand before every call.
--
-- The files:
-- - Time: apps/api/src/common/time.ts, the wall clock of a time zone.
-- - Engine: apps/api/src/availability/availability.engine.ts, with Timeline for
--   `buildBaseTimeline`, `applyBlackouts` and `applyServiceBuffer`, Rules for `pickRule`,
--   Occupancy for `computeOccupiedTables`, Pacing for `applyPacingRules`, Compute for
--   `computeAvailability`.
-- - Booking: what the services share: Types for the rows of prisma/schema.prisma, SlotTime for
--   apps/api/src/utils/time.ts, Conflicts for apps/api/src/utils/booking-conflicts.ts, Results
--   for the exceptions.
-- - Holds: apps/api/src/holds.service.ts. Laws, Insertion and Lifecycle hold proofs.
-- - Reservations: apps/api/src/reservations.service.ts: Status, Events, Create (`create`,
--   `createFromHold`), Update (`update`, `updateStatus`, `remove`), and Tables for
--   apps/api/src/utils/sync-table-assignments.ts. Guests and Exclusive hold proofs only.
-- - Seating: apps/api/src/seating.service.ts: Combos for the choices of tables to join, Score
--   and Suggest for `suggest`, Assign for `assignTables`.
-- - Waitlist: apps/api/src/waitlist/waitlist.service.ts: Rows, Offer for `offer` and
--   `assignOffer`, Calls for the other calls. Invariant, Holding and Consuming hold proofs.
-- - RateLimit: apps/api/src/rate-limit/rate-limit.service.ts. Spec is a level that rises with
--   time, as a bucket should behave; Laws, Refinement and Bounds hold proofs.
-- - Policy: `generatePolicySlots` of apps/api/src/availability/policy.service.ts.
-- - Idempotency: apps/api/src/idempotency: idempotency.service.ts and the steps of
--   idempotency.interceptor.ts. Laws and Replay hold proofs.
-- - Holds.Cleanup: apps/api/src/holds.cleanup.service.ts.
-- - Webhooks: the delivery of one webhook in apps/api/src/workers/webhooks.worker.ts, which
--   takes the rows that the reservations service has queued.
-- - Prelude: the shared tests, lists, sorting and texts. Tests: the theorems at concrete inputs.
--
-- How code becomes definitions. An instant is its milliseconds since 1970, a natural number. In
-- the engine a date text is its day number and a text "HH:mm" two numbers, so that the printing
-- and reading of such texts in common/time.ts is left out; the services keep their texts. The
-- database is a record of lists of rows. A `where` object is a Boolean test of a row, a unique
-- index a test of two rows. A call that throws carries no database, so it leaves the old one, as
-- its transaction does; the waiting list has no transaction, so its calls answer with the
-- database after them also where they throw. What the code takes from elsewhere are parameters:
-- the time zones of date-fns-tz, `Date.UTC` and `toLocaleString`, the present time, and the ids
-- and codes that are drawn; whether stored personal data can be decrypted; for the waiting list
-- the tables that the availability service finds, and for the seating the comparison of texts by
-- `localeCompare`. Tokens of the rate limits are counted in parts of a token, as natural
-- numbers, and the rounding of the floating point numbers that the source counts them in is left
-- out. `toLocaleString` and Temporal may know no time zone of a name. The host's own time zone,
-- which moves the date cursor of the engine, is UTC.
--
-- Fuel. The loop over the slots of a shift has one more than the milliseconds of the shift,
-- which is enough for every positive interval; the windows of a shift have one more than their
-- milliseconds; the sweep of holds has one more than there are held rows. An answer `none` means
-- that the loop does not end. An offer draws a code five times, as its loop does.
--
-- Not modelled: the cache, logging, metrics and messages; the default venue's creation; the list
-- of reservations and its conflict map; validation by the framework; the queueing, body and
-- signature of webhooks; new entries and the listings of the waiting list and the mails of its
-- promoter; the sentence that explains a suggestion; the buckets in Redis and the monthly quota;
-- the headers, the body hash and the lock in Postgres of the idempotency keys; `evaluateDay`,
-- which reads the policy of a venue, and availability.service.ts, which wraps the engine; the
-- services around the core (notifications, privacy, administration), the user interfaces and the
-- generated client.
pub mod Prelude
pub mod Time
pub mod Engine
pub mod Booking
pub mod Holds
pub mod Reservations
pub mod Policy
pub mod Seating
pub mod Idempotency
pub mod RateLimit
pub mod Waitlist
pub mod Webhooks
pub mod Tests
