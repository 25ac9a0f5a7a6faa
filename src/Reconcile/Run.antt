-- ===== src/Reconcile/Run.antt =====
-- A run of the reconciliation. YNAB's answers, by the id of a transaction, and the digest of two signatures
-- (SHA-256 of their texts) are parameters. The fires that it asks for are recorded as requests; the pull of
-- the corrected draft and the incident that sums up the run are left out.
use ynab_receipt_analyzer.Prelude.{
  ℕ, suc, ◌+◌, Bool, true, false, ◌&&◌, not, Option, none, some, List, [], ◌∷◌, any, ◌==◌, leb, ltb,
  if◌then◌else◌, keep, map,
}
use ynab_receipt_analyzer.Ynab.Remote.{RemoteTransaction, Desired}
use ynab_receipt_analyzer.Ynab.Session.{
  Answer, answered, conflict, not_found, failed, SyncRow, Request,
}
use ynab_receipt_analyzer.Ynab.Writes.{or_else}
use ynab_receipt_analyzer.Ynab.Sync.{is_success, comes_before}
use ynab_receipt_analyzer.Reconcile.Signature.{
  Signature, sync_payload_signature, ynab_transaction_signature, signature_eq, amount_drifted,
}

-- A sync row with its receipt.
pub record ReceiptSync : Type 0 where
  pub receipt_id : ℕ
  pub row : SyncRow

abbrev pub since : ℕ → Option ℕ → Bool
since start none = false
since start (some t) = leb start t

abbrev pub is_recent : ℕ → ReceiptSync → Bool
is_recent start r = is_success r.row.status && since start r.row.completed_at

unfoldable pub insert_row : ReceiptSync → List ReceiptSync → List ReceiptSync
insert_row r [] = r ∷ []
insert_row r (x ∷ xs) = if comes_before r.row x.row then r ∷ x ∷ xs else x ∷ insert_row r xs

unfoldable pub sort_rows : List ReceiptSync → List ReceiptSync
sort_rows [] = []
sort_rows (r ∷ rs) = insert_row r (sort_rows rs)

-- The first row of each receipt.
unfoldable pub first_rows : List ℕ → List ReceiptSync → List ReceiptSync
first_rows seen [] = []
first_rows seen (r ∷ rs) =
    let rest = first_rows (r.receipt_id ∷ seen) rs in
    let others = first_rows seen rs in
    if any (λ i. i == r.receipt_id) seen then others else r ∷ rest

unfoldable pub latest_successful_sync_rows : ℕ → List ReceiptSync → List ReceiptSync
latest_successful_sync_rows start rows = first_rows [] (sort_rows (keep (is_recent start) rows))

pub record Correction : Type 0 where
  pub receipt_id : ℕ
  pub ynab_transaction_id : ℕ
  pub signature : ℕ
  pub detected_at : ℕ
  pub resynced_at : Option ℕ
  pub resync_penalty_applied : Bool

pub record FireRequest : Type 0 where
  pub receipt_id : ℕ
  pub signature : ℕ
  pub amount_drifted : Bool

-- What the run counts and adds.
pub record Reconciliation : Type 0 where
  pub scanned_receipts : ℕ
  pub detected_mistakes : ℕ
  pub corrections : List Correction
  pub fires : List FireRequest

abbrev pub is_correction : ℕ → ℕ → Correction → Bool
is_correction receipt_id signature c = (c.receipt_id == receipt_id) && (c.signature == signature)

unfoldable pub existing_correction : ℕ → ℕ → List Correction → Bool
existing_correction receipt_id signature cs = any (is_correction receipt_id signature) cs

-- What was synced and what YNAB has instead.
pub record Mismatch : Type 0 where
  pub transaction_id : ℕ
  pub synced : Desired
  pub found : RemoteTransaction

abbrev pub is_unchanged : Desired → RemoteTransaction → Bool
is_unchanged d t =
    signature_eq (sync_payload_signature d) (ynab_transaction_signature t)
    && not (amount_drifted d t)

module _ (ynab : ℕ → Answer RemoteTransaction) where
  abbrev pub compare_found : ℕ → Desired → RemoteTransaction → Option Mismatch
  compare_found i d t =
      if t.deleted
      then none
      else if is_unchanged d t
      then none
      else some (record { transaction_id = i; synced = d; found = t })

  -- A failed request skips the receipt.
  abbrev pub fetch : ℕ → Desired → Answer RemoteTransaction → Option Mismatch
  fetch i d (answered t) = compare_found i d t
  fetch i d conflict = none
  fetch i d not_found = none
  fetch i d (failed n) = none

  abbrev pub mismatch_under : Option ℕ → Option Request → Option Mismatch
  mismatch_under none request = none
  mismatch_under (some i) none = none
  mismatch_under (some i) (some request) = fetch i request.transaction (ynab i)

  unfoldable pub mismatch_of : ReceiptSync → Option Mismatch
  mismatch_of r =
      mismatch_under (or_else r.row.created_transaction_id r.row.matched_transaction_id)
        r.row.raw_request

abbrev pub scanned_under : Option ℕ → Option Request → ℕ
scanned_under none request = 0
scanned_under (some i) none = 0
scanned_under (some i) (some request) = 1

abbrev pub scanned : ReceiptSync → ℕ
scanned r =
    scanned_under (or_else r.row.created_transaction_id r.row.matched_transaction_id)
      r.row.raw_request

abbrev pub correction_signature : (Signature → Signature → ℕ) → Desired → RemoteTransaction → ℕ
correction_signature digest d t = digest (sync_payload_signature d) (ynab_transaction_signature t)

module _ (digest : Signature → Signature → ℕ) (now : ℕ) where
  abbrev pub add_correction : ℕ → Mismatch → Reconciliation → Reconciliation
  add_correction receipt_id m s = record s {
    detected_mistakes = suc s.detected_mistakes;
    corrections =
        record {
          receipt_id = receipt_id;
          ynab_transaction_id = m.transaction_id;
          signature = correction_signature digest m.synced m.found;
          detected_at = now;
          resynced_at = none;
          resync_penalty_applied = false;
        }
        ∷ s.corrections;
    fires =
        record {
          receipt_id = receipt_id;
          signature = correction_signature digest m.synced m.found;
          amount_drifted = amount_drifted m.synced m.found;
        }
        ∷ s.fires;
  }

  -- A mismatch that was recorded before is skipped.
  unfoldable pub record_mismatch : ℕ → Option Mismatch → Reconciliation → Reconciliation
  record_mismatch receipt_id none s = s
  record_mismatch receipt_id (some m) s =
      if existing_correction receipt_id (correction_signature digest m.synced m.found) s.corrections
      then s
      else add_correction receipt_id m s

  module _ (ynab : ℕ → Answer RemoteTransaction) where
    unfoldable pub reconcile_row : ReceiptSync → Reconciliation → Reconciliation
    reconcile_row r s =
        record_mismatch r.receipt_id (mismatch_of ynab r)
          (record s { scanned_receipts = s.scanned_receipts + scanned r })

    unfoldable pub reconcile_rows : List ReceiptSync → Reconciliation → Reconciliation
    reconcile_rows [] s = s
    reconcile_rows (r ∷ rs) s = reconcile_rows rs (reconcile_row r s)

-- The first success after a time.
abbrev pub after_time : ℕ → Option ℕ → Bool
after_time t none = false
after_time t (some u) = ltb t u

abbrev pub earlier_of : Option ℕ → Option ℕ → Option ℕ
earlier_of none b = b
earlier_of (some a) none = some a
earlier_of (some a) (some b) = if ltb b a then some b else some a

unfoldable pub successful_sync_after : ℕ → ℕ → List ReceiptSync → Option ℕ
successful_sync_after receipt_id t [] = none
successful_sync_after receipt_id t (r ∷ rs) =
    let rest = successful_sync_after receipt_id t rs in
    if (r.receipt_id == receipt_id) && (is_success r.row.status && after_time t r.row.completed_at)
    then earlier_of r.row.completed_at rest
    else rest

abbrev pub mark_at : Option ℕ → Correction → Correction
mark_at none c = c
mark_at (some t) c = record c { resynced_at = some t; resync_penalty_applied = true }

abbrev pub mark_resynced : List ReceiptSync → Correction → Correction
mark_resynced rows c = mark_at (successful_sync_after c.receipt_id c.detected_at rows) c

-- The corrections and fires before a run, and the counts of a run.
abbrev pub begin : List Correction → List FireRequest → Reconciliation
begin corrections fires = record {
  scanned_receipts = 0;
  detected_mistakes = 0;
  corrections = corrections;
  fires = fires;
}

abbrev pub finish : List ReceiptSync → Reconciliation → Reconciliation
finish rows s = record s { corrections = map (mark_resynced rows) s.corrections }

unfoldable pub run_ynab_reconciliation :
    (Signature → Signature → ℕ)
    → (ℕ → Answer RemoteTransaction)
    → ℕ
    → ℕ
    → List ReceiptSync
    → List Correction
    → List FireRequest
    → Reconciliation
run_ynab_reconciliation digest ynab now start rows corrections fires = finish rows (
    reconcile_rows digest now ynab (latest_successful_sync_rows start rows)
      (begin corrections fires))
