-- ===== src/Ynab/Outcome.antt =====
-- The results of a run of `sync_receipt_to_ynab` (apps/server/backend/app/services/ynab.py), its rows and the
-- status of the receipt.
use ynab_receipt_analyzer.Prelude.{
  ℕ, suc, ◌≡◌, ◌⊎◌, Bool, true, false, Option, none, some, List, length,
}
use ynab_receipt_analyzer.Ynab.Session.{
  dry_run, failed_sync, SyncRow, ReceiptStatus, needs_review, error_sync, StatusReason,
  dry_run_saved, problem, Session, Outcome, value, raised, Act,
}
use ynab_receipt_analyzer.Ynab.Writes.{or_else}
use ynab_receipt_analyzer.Ynab.Sync.{
  Settings, Validation, Store, Job, find_row, put_sync_row, is_fresh, Report, skipped_duplicate,
  dry_run_report, sync_report, final_status, no_valid_draft, duplicate_of, Result, reported, failed,
  refused,
}

-- What holds where a statement gives a value.
abbrev Holds : {A : Type 0} → (Session → A → Type 0) → Session × Outcome A → Type 0
Holds P (s, value a) = P s a
Holds P (s, raised e) = Unit {0}

record Ends {A : Type 0} (P : Session → A → Type 0) (act : Act A) : Type 0 where
  ends : (s : Session) → Holds P (act s)

-- The receipt and the row, by the report of the run.
abbrev pub Reported : Job → ReceiptStatus → Option StatusReason → SyncRow → Report → Type 0
Reported job status reason row skipped_duplicate = ⊥
Reported job status reason row dry_run_report =
    (status ≡ needs_review)
    × (reason ≡ some dry_run_saved)
    × (row.status ≡ dry_run)
    × (row.completed_at ≡ some job.finished_at)
Reported job status reason row (sync_report st id booked) =
    (status ≡ final_status row.structure_applied)
    × (st ≡ row.status)
    × (id ≡ or_else row.created_transaction_id row.matched_transaction_id)
    × (row.completed_at ≡ some job.finished_at)

abbrev Finished : Job → Session → Report → Type 0
Finished job s report = Reported job s.status s.status_reason s.sync_row report

-- Whether a draft is there to sync.
abbrev pub is_valid_draft : Option Validation → Bool
is_valid_draft none = false
is_valid_draft (some v) = v.is_valid

-- Whether another run has started on a row and has not timed out.
abbrev pub is_taken : Settings → Job → Option SyncRow → Bool
is_taken settings job none = false
is_taken settings job (some r) = is_fresh job.now settings.stuck_timeout r

-- The row that a run is to work on: the one of its draft and its two options, or none yet.
abbrev row_of : Job → List SyncRow → Option Validation → Option SyncRow
row_of job rows none = none
row_of job rows (some v) = find_row v.id job rows

abbrev pub own_row : Job → Store → Option SyncRow
own_row job store = row_of job store.rows store.validation

-- Its id; a row that is added gets a new one.
abbrev id_of : List SyncRow → Option SyncRow → ℕ
id_of rows none = suc (length rows)
id_of rows (some r) = r.id

abbrev pub own_id : Job → Store → ℕ
own_id job store = id_of store.rows (own_row job store)

-- A run that works on its row: the draft is valid, no duplicate is found and no other run has the row. All rows but
-- its own are kept.
abbrev pub Works : Settings → Job → Store → Store → Store → SyncRow → Type 0
Works settings job before checked after row =
    (is_valid_draft before.validation ≡ true)
    × (job.duplicate_of ≡ none)
    × (is_taken settings job (own_row job before) ≡ false)
    × (row.id ≡ own_id job before)
    × (after.rows ≡ put_sync_row row checked.rows)

-- The store and the result after a run, against the stores before it and after the check for duplicates.
abbrev pub Ended : Settings → Job → Store → Store → Store × Result → Type 0
Ended settings job before checked (after, refused no_valid_draft) =
    (is_valid_draft before.validation ≡ false) × (after ≡ before)
Ended settings job before checked (after, refused (duplicate_of i)) =
    (is_valid_draft before.validation ≡ true) × (job.duplicate_of ≡ some i) × (after ≡ checked)
Ended settings job before checked (after, reported report) =
    ((report ≡ skipped_duplicate)
      × (is_valid_draft before.validation ≡ true)
      × (job.duplicate_of ≡ none)
      × (is_taken settings job (own_row job before) ≡ true)
      × (after ≡ checked))
    ⊎ ((row : SyncRow) × Works settings job before checked after row
        × Reported job after.status after.status_reason row report)
Ended settings job before checked (after, failed e) =
    (row : SyncRow) × Works settings job before checked after row
    × (row.status ≡ failed_sync)
    × (row.error_text ≡ some e)
    × (row.completed_at ≡ some job.finished_at)
    × (after.status ≡ error_sync)
    × (after.status_reason ≡ some (problem e))
