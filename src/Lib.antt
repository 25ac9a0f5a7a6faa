-- ===== src/Lib.antt =====
-- Verification library of the YNAB receipt analyzer.
--
-- The server (apps/server) turns receipts into drafts, lets a user correct them, and writes them to
-- YNAB; a game on top rewards receipts that are right and in time. Money is in dollars in drafts and
-- in integer milliunits at YNAB.
--
-- * Prelude, with Prelude/Tests, Prelude/Lists and Prelude/Int, holds the shared notation: Boolean
--   tests and lists over the native numbers, and integers with the library's names.
-- * Money models apps/server/shared/receipt_shared/money.py: `dollars_to_milliunits` and
--   `milliunits_to_dollars` over `Decimal` (Money/Decimals), an integer coefficient over a power of
--   ten, with the limit of 28 digits at `quantize`.
-- * Sync models the way of a draft to YNAB. Sync/Draft has the contract `ValidationPayload`
--   (apps/server/shared/receipt_shared/contracts.py), Sync/Validate has `validate_payload`
--   (apps/server/backend/app/services/validation.py), Sync/Gate has `_build_sync_transaction_payload`
--   and Sync/Memo its texts (apps/server/backend/app/services/ynab.py). A leading underscore of a
--   Python name is left out. Identifiers that are only compared are numbers.
-- * Correctness models the fire and water economy (apps/server/backend/app/services/correctness.py):
--   Correctness/Tables and Correctness/Store hold the state (week rows, counters, event log and
--   incidents), Correctness/Actions the operations `add_fire`, `award_water` and
--   `spend_water_to_extinguish`, and Correctness/History the reconstruction from the event log
--   (`_replay_week_fire_events` of apps/server/backend/app/services/game.py and
--   `recompute_correctness_state_from_history`). Correctness/Play runs any list of calls.
-- * Duplicates models the duplicate check of apps/server/backend/app/services/duplicates.py; the
--   digest of the keys is a parameter.
-- * Shipper models the outbox shipper of the edge device: the delivery table of
--   edge/pi-outbox-shipper/shipper/state.py and the passes of
--   edge/pi-outbox-shipper/shipper/sender.py. The answers of ssh, rsync and the file system are a
--   parameter (`Commands`).
-- * Streak models the weekly streak and its passes (`_derive_weekly_streak` and `_evaluate_passes` of
--   apps/server/backend/app/services/game.py); the week of an instant is a parameter.
-- * Ynab models the write path of a receipt (apps/server/backend/app/services/ynab.py), over a client whose
--   answers are a parameter (`YNABClient` of apps/server/shared/receipt_shared/ynab_client.py): Ynab/Remote,
--   Ynab/Compare and Ynab/Requests have the transactions, their comparison and the bodies of updates;
--   Ynab/Session the state of a sync and the statements that send requests or raise; Ynab/Writes
--   `_sync_update_existing` and `_sync_match_or_create`; Ynab/Sync `sync_receipt_to_ynab`. An answer may
--   depend on all requests before it. The outcome of the check for duplicates and of the bookkeeping are
--   arguments. The one fuel is in the removal of markers from a memo, which has its length.
-- * Limits models the use of AI models (apps/server/shared/receipt_shared/ai): Limits/Usage the token counts,
--   windows and prices (types.py, windows.py, registry.py), Limits/Config the limits (limits.py),
--   Limits/Ledger reservations and settlements (store.py), Limits/Client `AIClient._generate` (client.py).
--   The provider, the registry of models and the start of a month are parameters.
-- * Reconcile models the reconciliation (apps/server/backend/app/services/reconciliation.py):
--   Reconcile/Signature compares what was synced with what YNAB has, Reconcile/Run finds and records the
--   corrections. YNAB's answers and the digest are parameters; `add_fire` is recorded as a request.
-- * Learned models what is learned from syncs (apps/server/backend/app/services/card_mapping.py and
--   payee_memory.py): Learned/Table the rows by budget and key, Learned/Cards the account of a card,
--   Learned/Payees the category or template of a payee.
-- * Allocation models the distribution of a receipt's items over its categories
--   (apps/server/backend/app/services/allocation_workspace.py): Allocation/Workspace the lanes and items,
--   Allocation/Greedy the first assignment, Allocation/Merge the reconciliation with a draft that has changed,
--   Allocation/Recompute the draft of a workspace, Allocation/Shares the distribution of an amount by
--   largest remainders, over the multiplication and division at 28 digits of Allocation/Division. The identifiers of new items are a parameter.
-- * Routes models what is done to a receipt over HTTP (apps/server/backend/app/api/receipts.py):
--   Routes/Handlers starting a sync, deleting and restoring, over the check of Duplicates, Routes/Queued
--   sequences of these calls. The other receipts, the settings and whether the queue takes a job are parameters of each call.
-- * Tests runs the definitions and applies the theorems at concrete inputs.
--
-- An exception is an error value. A loop over a list or a range is a recursion on it. A database session
-- is a value of the state that is passed on, and one call runs as one transaction, so the guards against
-- concurrent insertions are left out. Instants are whole seconds, in Limits microseconds.
--
-- Not modelled: the time zone arithmetic that finds the week of a receipt, the rest of the game
-- (shred tokens and the dashboard), the bookkeeping after a write to YNAB and the draft that a
-- reconciliation corrects, extraction by a model, the
-- other HTTP routes and the frontend. A `float` of a payload stands for the decimal
-- that `str()` prints; where the code makes one, Python's `float` and `str` are a parameter (`float_text`).
pub mod Prelude
pub mod Money
pub mod Sync
pub mod Correctness
pub mod Duplicates
pub mod Streak
pub mod Ynab
pub mod Reconcile
pub mod Limits
pub mod Learned
pub mod Allocation
pub mod Routes
pub mod Shipper
pub mod Tests
