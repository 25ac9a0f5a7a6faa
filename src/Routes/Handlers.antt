-- ===== src/Routes/Handlers.antt =====
-- What is done to one receipt over HTTP: starting a sync, deleting and restoring
-- (apps/server/backend/app/api/receipts.py). The receipt is there. The receipt of the state is the row of the duplicate check;
-- the other rows, the digest, the keys that are read from a payload and whether the queue takes a job are
-- parameters. A state that a handler raises from is what it has committed by then.
use ynab_receipt_analyzer.Prelude.{
  ℕ, Bool, true, false, ◌||◌, not, Option, none, some, List, [], ◌∷◌, leb, is_some, if◌then◌else◌,
}
use ynab_receipt_analyzer.Sync.Text.{strip}
use ynab_receipt_analyzer.Sync.Draft.{ValidationPayload, is_empty}
use ynab_receipt_analyzer.Ynab.Session.{SyncStatus, matched_updated, created}
use ynab_receipt_analyzer.Duplicates.{
  ReceiptStatus, syncing, synced, needs_review, Receipt, Digest, Kind, Keys,
  build_semantic_signature, verdict_of, check_result, apply_semantic_duplicate_state,
}

-- `date_is_guess` says that `date_source` is that of an unconfirmed guess.
pub record DraftPayload : Type 0 where
  pub draft : ValidationPayload
  pub date_is_guess : Bool

pub record ValidationRow : Type 0 where
  pub version : ℕ
  pub payload : DraftPayload
  pub is_valid : Bool

-- `confirmed_sections` of a twin.
pub record Confirmed : Type 0 where
  pub date_time : Bool
  pub total : Bool

pub record SyncRequest : Type 0 where
  pub force_create : Bool
  pub allow_update_match : Bool

-- The receipt, its validations, its latest twin, the statuses of its sync rows, and the jobs queued for it,
-- the last one first.
pub record State : Type 0 where
  pub receipt : Receipt
  pub validations : List ValidationRow
  pub twin : Option Confirmed
  pub syncs : List SyncStatus
  pub sync_started_at : Option ℕ
  pub jobs : List SyncRequest

pub data HttpReply : Type 0 where
  not_found invalid_draft payee_required date_unconfirmed twin_unconfirmed sync_disabled : HttpReply
  sync_in_progress enqueue_failed receipt_synced : HttpReply
  enqueued deleted restored : HttpReply
  duplicate_receipt : ℕ → HttpReply

-- `order_by(Validation.version.desc()).limit(1)`
abbrev pub later_validation : ValidationRow → Option ValidationRow → ValidationRow
later_validation v none = v
later_validation v (some w) = if leb v.version w.version then w else v

unfoldable pub latest_validation : List ValidationRow → Option ValidationRow
latest_validation [] = none
latest_validation (v ∷ vs) = some (later_validation v (latest_validation vs))

unfoldable pub payee_sync_blocked : DraftPayload → Bool
payee_sync_blocked p = is_empty (strip p.draft.payee_name)

unfoldable pub date_sync_blocked : DraftPayload → Bool
date_sync_blocked p = not (is_some p.draft.transaction_date) || p.date_is_guess

abbrev pub twin_blocked : Option Confirmed → Bool
twin_blocked none = false
twin_blocked (some c) = not c.date_time || not c.total

-- The gates before the check for duplicates, in their order.
unfoldable pub gate_refusal : Bool → Option Confirmed → DraftPayload → Option HttpReply
gate_refusal sync_enabled twin p =
    if payee_sync_blocked p
    then some payee_required
    else if date_sync_blocked p
    then some date_unconfirmed
    else if twin_blocked twin
    then some twin_unconfirmed
    else if not sync_enabled
    then some sync_disabled
    else none

abbrev pub is_syncing : ReceiptStatus → Bool
is_syncing syncing = true
is_syncing _ = false

abbrev pub with_status : ReceiptStatus → Receipt → Receipt
with_status status r = record r { status = status; status_reason = none }

-- The job is queued, or the receipt goes back to review.
abbrev pub enqueue : Bool → SyncRequest → State → HttpReply × State
enqueue true request s = (enqueued, record s { jobs = request ∷ s.jobs })
enqueue false request s =
    (enqueue_failed, record s { receipt = with_status needs_review s.receipt })

-- The claim: only one that is not syncing starts to.
unfoldable pub claim_sync : Bool → ℕ → SyncRequest → State → HttpReply × State
claim_sync accepted now request s =
    if is_syncing s.receipt.status
    then (sync_in_progress, s)
    else enqueue accepted request
        (record s { receipt = with_status syncing s.receipt; sync_started_at = some now })

-- What the service's surroundings give.
pub record World : Type 0 where
  pub digest : Digest
  pub rows : List Receipt
  pub keys_of : DraftPayload → Keys
  pub kind_of : DraftPayload → Kind
  pub sync_enabled : Bool
  pub accepted : Bool
  pub now : ℕ

unfoldable pub with_duplicates_checked : World → DraftPayload → State → State
with_duplicates_checked w p s = record s {
  receipt = apply_semantic_duplicate_state w.digest w.rows (w.kind_of p) (w.keys_of p) s.receipt;
}

unfoldable pub found_duplicate : World → DraftPayload → State → Option ℕ
found_duplicate w p s =
    (check_result (build_semantic_signature w.digest (w.keys_of p))
      (verdict_of w.digest w.rows s.receipt (w.kind_of p) (w.keys_of p))).duplicate_of_receipt_id

abbrev pub claim_unless : Option ℕ → World → SyncRequest → State → HttpReply × State
claim_unless none w request s = claim_sync w.accepted w.now request s
claim_unless (some id) w request s = (duplicate_receipt id, s)

abbrev pub sync_passed :
    Option HttpReply → World → SyncRequest → DraftPayload → State → HttpReply × State
sync_passed (some reply) w request p s = (reply, s)
sync_passed none w request p s =
    claim_unless (found_duplicate w p s) w request (with_duplicates_checked w p s)

abbrev pub sync_latest : World → SyncRequest → Option ValidationRow → State → HttpReply × State
sync_latest w request none s = (invalid_draft, s)
sync_latest w request (some v) s =
    if not v.is_valid
    then (invalid_draft, s)
    else sync_passed (gate_refusal w.sync_enabled s.twin v.payload) w request v.payload s

unfoldable pub sync_receipt : World → SyncRequest → State → HttpReply × State
sync_receipt w request s =
    if s.receipt.deleted
    then (not_found, s)
    else sync_latest w request (latest_validation s.validations) s

abbrev pub is_kept : ReceiptStatus → Bool
is_kept synced = true
is_kept syncing = true
is_kept _ = false

abbrev pub has_successful_sync : List SyncStatus → Bool
has_successful_sync [] = false
has_successful_sync (matched_updated ∷ rest) = true
has_successful_sync (created ∷ rest) = true
has_successful_sync (_ ∷ rest) = has_successful_sync rest

unfoldable pub delete_receipt : State → HttpReply × State
delete_receipt s =
    if s.receipt.deleted
    then (deleted, s)
    else if is_kept s.receipt.status || has_successful_sync s.syncs
    then (receipt_synced, s)
    else (deleted, record s { receipt = record s.receipt { deleted = true } })

unfoldable pub restore_receipt : State → HttpReply × State
restore_receipt s = (restored, record s { receipt = record s.receipt { deleted = false } })
