-- ===== src/Tests/Shipping.antt =====
-- The outbox shipper at concrete inputs.
use ynab_receipt_analyzer.Prelude.{
  ◌≤◌, ◌≡◌, refl, false, none, some, [], ◌∷◌, arith, ◌==◌, min, if◌then◌else◌,
}
use ynab_receipt_analyzer.Shipper.{
  DeliveryRecord, sent, fresh, get_record, compute_backoff_seconds, Commands, answered, Config,
  Shipper, SendSummary, done, send_one, send_available, send_files, visit, ensure_record,
  due_for_send, cleanup_local, try_send, finish, fail_send, mark_sent, mark_retry, update,
}
use ynab_receipt_analyzer.Shipper.Backoff.{compute_backoff_seconds-bounded}
use ynab_receipt_analyzer.Shipper.Outbox.{after, send_available-keeps_sent}

compute_backoff_seconds-bounded_example :
    (compute_backoff_seconds 2 5 60 ≤ 60)
    × (min 5 60 ≤ compute_backoff_seconds 2 5 60)
    × (compute_backoff_seconds 2 5 60 ≤ compute_backoff_seconds 9 5 60)
compute_backoff_seconds-bounded_example = compute_backoff_seconds-bounded 2 9 5 60 (omega arith)

abbrev config : Config
config = record {
  dry_run = false;
  rsync_dry_run = false;
  initial_backoff_seconds = 5;
  max_backoff_seconds = 60;
}

-- File 2 is refused by rsync; file 3 is there already.
abbrev commands : Commands
commands = record {
  ensure_remote_dirs = none;
  remote_file_exists = λ f. answered (f == 3);
  rsync_to_remote = λ f. if f == 2 then some 99 else none;
  promote_remote = λ f. none;
  remove_local = λ f. none;
}

abbrev old : DeliveryRecord
old = record (fresh 1) { status = sent; attempts = 1; sent_at = some 50; last_attempt_at = some 50 }

abbrev shipper : Shipper
shipper = record { deliveries = old ∷ []; outbox = 1 ∷ 2 ∷ 3 ∷ 4 ∷ [] }

old_there : get_record 1 shipper.deliveries ≡ some old
unfolding get_record
old_there = refl

send_available-keeps_sent_example :
    get_record 1 (after (send_available config commands 100 shipper)).deliveries ≡ some old
send_available-keeps_sent_example =
    send_available-keeps_sent config commands 100 1 shipper old old_there refl

abbrev sums : SendSummary
sums = record { sent_count = 2; failed = 1; skipped = 1 }

abbrev shipped : Shipper
shipped = after (send_available config commands 100 shipper)

shipped_done : send_available config commands 100 shipper ≡ done shipped sums
unfolding send_available send_files visit ensure_record get_record due_for_send cleanup_local
    send_one try_send finish fail_send mark_sent mark_retry update compute_backoff_seconds
shipped_done = refl
