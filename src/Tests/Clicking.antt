-- ===== src/Tests/Clicking.antt =====
-- A receipt that is synced by a click.
use ynab_receipt_analyzer.Prelude.{◌+◌, ◌≤◌, ◌≡◌, List, refl, ◌⊎◌, true, false, none, some, [], ◌∷◌}
use ynab_receipt_analyzer.Prelude.Int.{pos, abs}
use ynab_receipt_analyzer.Sync.Text.{strip}
use ynab_receipt_analyzer.Sync.Draft.{ValidationPayload}
use ynab_receipt_analyzer.Duplicates.{
  Receipt, Kind, needs_review, error_sync, verdict_of, check_result, apply_verdict,
  apply_semantic_duplicate_state,
}
use ynab_receipt_analyzer.Routes.Handlers.{
  State, World, SyncRequest, sync_receipt, latest_validation, payee_sync_blocked, date_sync_blocked,
  gate_refusal, claim_sync, with_duplicates_checked, found_duplicate,
}
use ynab_receipt_analyzer.Routes.Queued.{
  Step, sync_call, delete_call, worker_sets, run_steps, count_frees, claims, jobs-run_steps,
}
use ynab_receipt_analyzer.Routes.Claimed.{IsClaimed, sync_receipt-IsClaimed}

abbrev draft : ValidationPayload
draft = record {
  payee_name = b'S' ∷ [];
  account_id = some 1;
  transaction_date = some 20000;
  memo = [];
  total_amount = record { coef = pos 1234; scale = 2 };
  transaction_kind = ynab_receipt_analyzer.Sync.Draft.purchase;
  category_id = some 7;
  splits = [];
}

abbrev world : World
world = record {
  digest = λ p d t c. p + d + t + abs c;
  rows = [];
  keys_of = λ p. record { payee_key = none; date_key = none; time_key = none; total_cents = none };
  kind_of = λ p. Kind.purchase;
  sync_enabled = true;
  accepted = true;
  now = 100;
}

abbrev receipt : Receipt
receipt = record {
  id = 1;
  status = needs_review;
  status_reason = none;
  deleted = false;
  kind = Kind.purchase;
  keys = record { payee_key = none; date_key = none; time_key = none; total_cents = none };
  semantic_signature = none;
  duplicate_override_signature = none;
  duplicate_of_receipt_id = none;
}

abbrev state : State
state = record {
  receipt = receipt;
  validations =
      record {
        version = 1;
        payload = record { draft = draft; date_is_guess = false };
        is_valid = true;
      }
      ∷ [];
  twin = some (record { date_time = true; total = true });
  syncs = [];
  sync_started_at = none;
  jobs = [];
}

abbrev request : SyncRequest
request = record { force_create = false; allow_update_match = true }

queued : (sync_receipt world request state).1.jobs ≡ request ∷ []
unfolding sync_receipt latest_validation gate_refusal payee_sync_blocked date_sync_blocked
    claim_sync with_duplicates_checked found_duplicate verdict_of check_result apply_verdict
    apply_semantic_duplicate_state strip
queued = refl

sync_receipt-IsClaimed_example :
    ((sync_receipt world request state).1.jobs ≡ state.jobs)
    ⊎ IsClaimed world request state (sync_receipt world request state).1
sync_receipt-IsClaimed_example = sync_receipt-IsClaimed world request state

-- Three clicks, a failure that the worker sets, and a deletion.
abbrev steps : List Step
steps =
    sync_call world request
    ∷ sync_call world request
    ∷ worker_sets error_sync
    ∷ sync_call world request
    ∷ delete_call
    ∷ []

jobs-run_steps_example : claims (run_steps steps state) ≤ claims state + count_frees steps state
jobs-run_steps_example = jobs-run_steps steps state
