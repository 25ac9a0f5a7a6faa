-- ===== src/Tests/Writing.antt =====
-- Runs of the sync against clients with fixed answers.
use ynab_receipt_analyzer.Prelude.{◌≡◌, refl, true, false, none, some, [], ◌∷◌}
use ynab_receipt_analyzer.Prelude.Int.{negsuc}
use ynab_receipt_analyzer.Money.{dollars_to_milliunits}
use ynab_receipt_analyzer.Money.Decimals.{quantize, to_integral, rescale, sum_from, add, subtract}
use ynab_receipt_analyzer.Sync.Validate.{
  validate_payload, check_mode, check_splits_sum, convert_splits,
}
use ynab_receipt_analyzer.Sync.Draft.{satisfies_contract}
use ynab_receipt_analyzer.Sync.Gate.{build_body, build_sync_transaction_payload}
use ynab_receipt_analyzer.Sync.Memo.{append_receipt_id_marker, build_import_id, receipt_id_marker}
use ynab_receipt_analyzer.Sync.Text.{strip}
use ynab_receipt_analyzer.Tests.Receipts.{basket, cached, receipt, basket_transaction}
use ynab_receipt_analyzer.Ynab.Remote.{
  RemoteSplit, RemoteTransaction, Desired, desired_of, match_transaction,
}
use ynab_receipt_analyzer.Ynab.Requests.{build_update_transaction_payload, existing_splits}
use ynab_receipt_analyzer.Ynab.Session.{
  list_since, create, answered, conflict, Client, created, SyncRow, needs_review, syncing, Session,
  request, ◌>>=◌,
}
use ynab_receipt_analyzer.Ynab.Writes.{
  Flags, create_transaction_idempotent, create_new, settle_create, sync_match_or_create,
}
use ynab_receipt_analyzer.Ynab.Calls.{is_create, is_write, HasSent}
use ynab_receipt_analyzer.Ynab.Safety.{
  sync_receipt_to_ynab_one_write, sync_receipt_to_ynab_no_second_create,
  sync_receipt_to_ynab_blocked,
}
use ynab_receipt_analyzer.Ynab.Updates.{Restructures, build_update_transaction_payload-Restructures}
use ynab_receipt_analyzer.Ynab.Sync.{
  Settings, passed, Store, Job, sync_live, sync_receipt_to_ynab, sync_draft, sync_validation,
  run_row, find_row, run_claimed, latest_successful_sync, try_sync, check_created, write_and_finish,
  write_receipt, apply_post_sync, put_sync_row,
}

abbrev flags : Flags
flags = record { new_flag = some 1; updated_flag = some 2 }

abbrev live_settings : Settings
live_settings = record {
  has_budget = true;
  ynab_sync_enabled = true;
  ynab_dry_run = false;
  has_token = true;
  flags = flags;
  stuck_timeout = 30;
  reference = cached;
}

abbrev dry_settings : Settings
dry_settings = record live_settings { ynab_dry_run = true }

abbrev pub lunch_row : RemoteSplit
lunch_row = record {
  id = some 31;
  amount = negsuc 999;
  category_id = some 4;
  memo = [];
  deleted = false;
}

-- A transaction with rows that a person made.
abbrev pub lunch : RemoteTransaction
lunch = record {
  id = 9;
  deleted = false;
  date = 20001;
  amount = negsuc 12344;
  account_id = some 7;
  payee_name = b's' ∷ [];
  memo = b'x' ∷ [];
  import_id = none;
  category_id = none;
  subtransactions = lunch_row ∷ lunch_row ∷ lunch_row ∷ [];
}

-- A YNAB that holds nothing and accepts what is created.
abbrev empty_ynab : Client
empty_ynab = record {
  list_transactions_since = λ calls since. answered [];
  get_transaction = λ calls i. answered lunch;
  create_transaction = λ calls d flag. answered (some lunch);
  update_transaction = λ calls i u. answered lunch;
  float_text = λ d. d;
}

-- One that rejects every create as a duplicate.
abbrev full_ynab : Client
full_ynab = record empty_ynab { create_transaction = λ calls d flag. conflict }

abbrev job : Job
job = record {
  receipt_id = receipt;
  force_create = false;
  allow_update_match = true;
  now = 100;
  finished_at = 101;
  duplicate_of = none;
  checked_status = needs_review;
  checked_reason = none;
  bookkeeping = passed;
}

abbrev store : Store
store = record {
  status = needs_review;
  status_reason = none;
  validation = some (record { id = 1; is_valid = true; payload = basket });
  rows = [];
  calls = [];
}

abbrev pub done_row : SyncRow
done_row = record {
  id = 1;
  validation_id = 1;
  force_create = false;
  allow_update_match = true;
  status = created;
  matched_transaction_id = none;
  created_transaction_id = some 9;
  raw_request = none;
  raw_response = none;
  error_text = none;
  structure_applied = true;
  started_at = 50;
  completed_at = some 51;
}

abbrev synced_store : Store
synced_store = record store { rows = done_row ∷ [] }

abbrev pub wanted : Desired
wanted = desired_of basket_transaction

abbrev session : Session
session = record {
  status = syncing;
  status_reason = none;
  payload = basket;
  sync_row = done_row;
  calls = [];
}

-- The first run lists the transactions and creates one.
first_run :
    (sync_receipt_to_ynab live_settings empty_ynab job store).0.calls
    ≡ create wanted (some 1) ∷ list_since (some 20000) ∷ []
unfolding sync_receipt_to_ynab sync_draft sync_validation run_row find_row run_claimed
    latest_successful_sync try_sync sync_live check_created write_and_finish write_receipt
    sync_match_or_create match_transaction create_new create_transaction_idempotent settle_create
    apply_post_sync put_sync_row request ◌>>=◌ build_sync_transaction_payload build_body
    append_receipt_id_marker validate_payload satisfies_contract check_mode check_splits_sum
    convert_splits dollars_to_milliunits quantize to_integral rescale subtract sum_from add strip
    build_import_id receipt_id_marker
first_run = refl

sync_receipt_to_ynab_one_write_example :
    HasSent is_write 1 [] (sync_receipt_to_ynab live_settings full_ynab job store).0.calls
sync_receipt_to_ynab_one_write_example =
    sync_receipt_to_ynab_one_write live_settings full_ynab job store

sync_receipt_to_ynab_no_second_create_example :
    HasSent is_create 0 [] (sync_receipt_to_ynab live_settings full_ynab job synced_store).0.calls
sync_receipt_to_ynab_no_second_create_example =
    sync_receipt_to_ynab_no_second_create live_settings full_ynab job synced_store refl refl

sync_receipt_to_ynab_blocked_example :
    (sync_receipt_to_ynab dry_settings empty_ynab job store).0.calls ≡ []
sync_receipt_to_ynab_blocked_example =
    sync_receipt_to_ynab_blocked dry_settings empty_ynab job store refl

build_update_transaction_payload-Restructures_example :
    Restructures wanted.subtransactions
      (existing_splits (some lunch))
      (build_update_transaction_payload wanted (some 2) (some lunch)).splits
    × ((build_update_transaction_payload wanted (some 2) (some lunch)).fields.import_id ≡ none)
build_update_transaction_payload-Restructures_example =
    build_update_transaction_payload-Restructures wanted (some 2) (some lunch)
