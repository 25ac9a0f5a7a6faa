-- ===== src/Tests/Reconciling.antt =====
-- Reconciliation of one synced receipt.
use ynab_receipt_analyzer.Prelude.{ℕ, ◌≡◌, refl, true, false, none, some, [], ◌∷◌, map, All}
use ynab_receipt_analyzer.Prelude.Int.{negsuc}
use ynab_receipt_analyzer.Tests.Writing.{done_row, lunch, wanted}
use ynab_receipt_analyzer.Ynab.Remote.{RemoteTransaction, Desired}
use ynab_receipt_analyzer.Ynab.Compare.{sort_splits, insert_split, splits_eq}
use ynab_receipt_analyzer.Ynab.Session.{Answer, answered}
use ynab_receipt_analyzer.Reconcile.Signature.{
  Signature, sync_payload_signature, ynab_transaction_signature,
}
use ynab_receipt_analyzer.Reconcile.Run.{
  ReceiptSync, insert_row, sort_rows, first_rows, latest_successful_sync_rows, Correction,
  Reconciliation, existing_correction, correction_signature, mismatch_of, record_mismatch,
  reconcile_row, reconcile_rows, mark_resynced, begin, run_ynab_reconciliation,
}
use ynab_receipt_analyzer.Reconcile.Once.{
  HasCorrection, run_ynab_reconciliation-HasCorrection, run_ynab_reconciliation_twice,
}
use ynab_receipt_analyzer.Reconcile.Drift.{record_mismatch_second_drift}

abbrev synced_row : ReceiptSync
synced_row = record {
  receipt_id = 1;
  row = record done_row { raw_request = some (record { transaction = wanted; flag_color = none }) };
}

abbrev constant_digest : Signature → Signature → ℕ
constant_digest a b = 7

abbrev changed_ynab : ℕ → Answer RemoteTransaction
changed_ynab i = answered lunch

abbrev first_run : Reconciliation
first_run = run_ynab_reconciliation constant_digest changed_ynab 60 40 (synced_row ∷ []) [] []

first_run_detects : first_run.detected_mistakes ≡ 1
unfolding run_ynab_reconciliation reconcile_rows reconcile_row record_mismatch mismatch_of
    existing_correction latest_successful_sync_rows first_rows sort_rows insert_row
    sync_payload_signature ynab_transaction_signature sort_splits insert_split splits_eq
first_run_detects = refl

run_ynab_reconciliation-HasCorrection_example :
    All
      (HasCorrection constant_digest 60 changed_ynab first_run.corrections)
      (latest_successful_sync_rows 40 (synced_row ∷ []))
run_ynab_reconciliation-HasCorrection_example =
    run_ynab_reconciliation-HasCorrection constant_digest changed_ynab 60 40 (synced_row ∷ []) [] []

run_ynab_reconciliation_twice_example :
    ((run_ynab_reconciliation constant_digest changed_ynab 61 40
        (synced_row ∷ [])
        first_run.corrections
        first_run.fires).detected_mistakes
      ≡ 0)
    × ((run_ynab_reconciliation constant_digest changed_ynab 61 40
          (synced_row ∷ [])
          first_run.corrections
          first_run.fires).corrections
        ≡ map (mark_resynced (synced_row ∷ [])) first_run.corrections)
    × ((run_ynab_reconciliation constant_digest changed_ynab 61 40
          (synced_row ∷ [])
          first_run.corrections
          first_run.fires).fires
        ≡ first_run.fires)
run_ynab_reconciliation_twice_example =
    run_ynab_reconciliation_twice constant_digest changed_ynab 60 61 40 (synced_row ∷ []) [] []
      first_run
      (run_ynab_reconciliation constant_digest changed_ynab 61 40 (synced_row ∷ [])
        first_run.corrections first_run.fires)
      refl refl

-- A transaction without splits.
abbrev plain : RemoteTransaction
plain = record lunch { subtransactions = []; category_id = some 4 }

abbrev plain_wanted : Desired
plain_wanted = record wanted { subtransactions = []; category_id = some 4 }

abbrev drift : Correction
drift = record {
  receipt_id = 1;
  ynab_transaction_id = 9;
  signature = 7;
  detected_at = 60;
  resynced_at = none;
  resync_penalty_applied = false;
}

drift_known :
    existing_correction 1 (correction_signature constant_digest plain_wanted plain) (drift ∷ [])
    ≡ true
unfolding existing_correction
drift_known = refl

record_mismatch_second_drift_example :
    record_mismatch constant_digest 61 1
      (some (record {
        transaction_id = 9;
        synced = plain_wanted;
        found = record plain { amount = negsuc 99 };
      }))
      (begin (drift ∷ []) [])
    ≡ begin (drift ∷ []) []
record_mismatch_second_drift_example =
    record_mismatch_second_drift constant_digest 61 1 9 plain_wanted plain (negsuc 99)
      (begin (drift ∷ []) []) refl drift_known
