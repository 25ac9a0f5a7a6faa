-- ===== src/Routes/Queued.antt =====
-- The jobs that are queued over a sequence of calls of the routes of a receipt
-- (apps/server/backend/app/api/receipts.py), while a worker may set its status in between.
use ynab_receipt_analyzer.Prelude.{
  ℕ, ◌+◌, ◌≤◌, ◌≡◌, refl, Bool, true, false, Option, none, some, List, [], ◌∷◌, length, arith,
  Bool-cases, inl, inr, if◌then◌else◌,
}
use ynab_receipt_analyzer.Duplicates.{ReceiptStatus}
use ynab_receipt_analyzer.Routes.Handlers.{
  State, World, SyncRequest, DraftPayload, ValidationRow, HttpReply, not_found, invalid_draft,
  payee_required, date_unconfirmed, twin_unconfirmed, sync_disabled, sync_in_progress,
  enqueue_failed, receipt_synced, enqueued, deleted, restored, duplicate_receipt, claim_sync,
  claim_unless, sync_passed, sync_latest, sync_receipt, latest_validation, gate_refusal,
  found_duplicate, with_duplicates_checked, with_status, is_syncing, delete_receipt,
  restore_receipt,
}
use ynab_receipt_analyzer.Routes.Claimed.{
  is_syncing-with_duplicates_checked, jobs-with_duplicates_checked,
}

-- What is done to a receipt: a call of a route, or a status that a worker sets.
pub data Step : Type 0 where
  sync_call : World → SyncRequest → Step
  delete_call restore_call : Step
  worker_sets : ReceiptStatus → Step

unfoldable pub run_step : Step → State → State
run_step (sync_call w request) s = (sync_receipt w request s).1
run_step delete_call s = (delete_receipt s).1
run_step restore_call s = (restore_receipt s).1
run_step (worker_sets status) s = record s { receipt = with_status status s.receipt }

unfoldable pub run_steps : List Step → State → State
run_steps [] s = s
run_steps (step ∷ steps) s = run_steps steps (run_step step s)

-- Whether a reply names a duplicate.
abbrev names_duplicate : HttpReply → ℕ
names_duplicate not_found = 0
names_duplicate invalid_draft = 0
names_duplicate payee_required = 0
names_duplicate date_unconfirmed = 0
names_duplicate twin_unconfirmed = 0
names_duplicate sync_disabled = 0
names_duplicate sync_in_progress = 0
names_duplicate enqueue_failed = 0
names_duplicate receipt_synced = 0
names_duplicate enqueued = 0
names_duplicate deleted = 0
names_duplicate restored = 0
names_duplicate (duplicate_receipt i) = 1

-- A step may free the claim: a call of sync_receipt that names a duplicate, or a worker.
abbrev pub frees : Step → State → ℕ
frees (sync_call w request) s = names_duplicate (sync_receipt w request s).0
frees delete_call s = 0
frees restore_call s = 0
frees (worker_sets status) s = 1

unfoldable pub count_frees : List Step → State → ℕ
count_frees [] s = 0
count_frees (step ∷ steps) s = frees step s + count_frees steps (run_step step s)

-- The jobs that are queued, with the one that may still come to them.
abbrev free_claims : State → ℕ
free_claims s = if is_syncing s.receipt.status then 0 else 1

abbrev pub claims : State → ℕ
claims s = length s.jobs + free_claims s

abbrev Keeps : State → HttpReply × State → Type 0
Keeps s out = claims out.1 ≤ claims s + names_duplicate out.0

at_most_free : (s t : State) → t.jobs ≡ s.jobs → claims t ≤ claims s + 1
at_most_free s t e = elim (Bool-cases (is_syncing t.receipt.status)) [
  | inl f ↦ simp (e, f) (omega arith)
  | inr f ↦ simp (e, f) (omega arith)
]

module _ (w : World) (request : SyncRequest) where
  claim_sync-Keeps : (s : State) → claims (claim_sync w.accepted w.now request s).1 ≤ claims s
  unfolding claim_sync
  claim_sync-Keeps s = elim (Bool-cases (is_syncing s.receipt.status)) [
    | inl e ↦ simp e (omega arith)
    | inr e ↦ elim (Bool-cases w.accepted) [
      | inl f ↦ simp (e, f) (omega arith)
      | inr f ↦ simp (e, f) (omega arith)
    ]
  ]

  claims-with_duplicates_checked :
      (p : DraftPayload) (s : State)
      → found_duplicate w p s ≡ none
      → claims (with_duplicates_checked w p s) ≡ claims s
  claims-with_duplicates_checked p s h =
      simp (is_syncing-with_duplicates_checked w p s h, jobs-with_duplicates_checked w p s) refl

  claim_unless-Keeps :
      (found : Option ℕ) (p : DraftPayload) (s : State)
      → found_duplicate w p s ≡ found
      → Keeps s (claim_unless found w request (with_duplicates_checked w p s))
  claim_unless-Keeps none p s e =
      let kept = claim_sync-Keeps (with_duplicates_checked w p s) in
      let same = claims-with_duplicates_checked p s e in omega arith
  claim_unless-Keeps (some i) p s e =
      at_most_free s (with_duplicates_checked w p s) (jobs-with_duplicates_checked w p s)

  sync_passed-Keeps :
      (refusal : Option HttpReply) (p : DraftPayload) (s : State)
      → Keeps s (sync_passed refusal w request p s)
  sync_passed-Keeps (some reply) p s = omega arith
  sync_passed-Keeps none p s = claim_unless-Keeps _ p s refl

  sync_latest-Keeps :
      (found : Option ValidationRow) (s : State) → Keeps s (sync_latest w request found s)
  sync_latest-Keeps none s = omega arith
  sync_latest-Keeps (some v) s = elim (Bool-cases v.is_valid) [
    | inl e ↦ simp e (sync_passed-Keeps (gate_refusal w.sync_enabled s.twin v.payload) v.payload s)
    | inr e ↦ simp e (omega arith)
  ]

  unless_deleted :
      (gone : Bool) (s : State)
      → let out : HttpReply × State =
          if gone
          then (not_found, s)
          else sync_latest w request (latest_validation s.validations) s in
        Keeps s out
  unless_deleted true s = omega arith
  unless_deleted false s = sync_latest-Keeps (latest_validation s.validations) s

  sync_receipt-Keeps : (s : State) → Keeps s (sync_receipt w request s)
  unfolding sync_receipt
  sync_receipt-Keeps s = unless_deleted s.receipt.deleted s

delete_receipt-claims : (s : State) → claims (delete_receipt s).1 ≡ claims s
unfolding delete_receipt
delete_receipt-claims s = ground arith

run_step-claims : (step : Step) (s : State) → claims (run_step step s) ≤ claims s + frees step s
unfolding run_step restore_receipt
run_step-claims (sync_call w request) s = sync_receipt-Keeps w request s
run_step-claims delete_call s = let same = delete_receipt-claims s in omega arith
run_step-claims restore_call s = omega arith
run_step-claims (worker_sets status) s = at_most_free s (run_step (worker_sets status) s) refl

-- Through any calls that sync, delete and restore a receipt, with statuses that a worker sets in between, the jobs
-- that are queued, with one more where the receipt is not syncing, are at most what they were at first, one more
-- for each call that named a duplicate and one more for each status that the worker set. So for a receipt that is
-- syncing, calls that name no duplicate queue no further job. The rows, drafts and answers around each call are
-- any.
pub jobs-run_steps :
    (steps : List Step) (s : State) → claims (run_steps steps s) ≤ claims s + count_frees steps s
unfolding run_steps count_frees
jobs-run_steps [] s = omega arith
jobs-run_steps (step ∷ steps) s =
    let first = run_step-claims step s in
    let rest = jobs-run_steps steps (run_step step s) in omega arith
