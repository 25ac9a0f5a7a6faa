-- ===== src/Shipper.antt =====
-- The outbox shipper of the edge device: the delivery table
-- (edge/pi-outbox-shipper/shipper/state.py) and a pass over the outbox
-- (edge/pi-outbox-shipper/shipper/sender.py). File names and error texts are only compared, so they are
-- numbers; instants are seconds. What ssh, rsync and the file system answer is a parameter.
pub mod Backoff
pub mod Delivery
pub mod Passes
pub mod Outbox
use ynab_receipt_analyzer.Prelude.{
  ℕ, suc, ◌+◌, ◌-◌, ◌*◌, ◌^◌, Bool, true, false, not, Option, none, some, List, [], ◌∷◌, ◌==◌, leb,
  min, max, keep, if◌then◌else◌,
}

-- The exponent is capped at 20.
unfoldable pub compute_backoff_seconds : ℕ → ℕ → ℕ → ℕ
compute_backoff_seconds attempt_number initial_seconds max_seconds =
    let attempt = max 1 attempt_number in
    let exponent = min (attempt - 1) 20 in min (initial_seconds * 2 ^ exponent) max_seconds

pub data Status : Type 0 where
  pending retry sent : Status

pub record DeliveryRecord : Type 0 where
  pub filename : ℕ
  pub status : Status
  pub attempts : ℕ
  pub next_retry_at : Option ℕ
  pub last_error : Option ℕ
  pub last_attempt_at : Option ℕ
  pub sent_at : Option ℕ

unfoldable pub get_record : ℕ → List DeliveryRecord → Option DeliveryRecord
get_record f [] = none
get_record f (r ∷ rs) = if r.filename == f then some r else get_record f rs

-- The values of an inserted row.
abbrev pub fresh : ℕ → DeliveryRecord
fresh f = record {
  filename = f;
  status = pending;
  attempts = 0;
  next_retry_at = none;
  last_error = none;
  last_attempt_at = none;
  sent_at = none;
}

-- What `ensure_record` returns, and the table that it leaves.
abbrev pub current : ℕ → List DeliveryRecord → DeliveryRecord
current f table = elim (get_record f table) [ none ↦ fresh f | some r ↦ r ]

unfoldable pub ensure_record : ℕ → List DeliveryRecord → List DeliveryRecord
ensure_record f table = elim (get_record f table) [ none ↦ fresh f ∷ table | some r ↦ table ]

-- `UPDATE deliveries ... WHERE filename = ?`
unfoldable pub update : DeliveryRecord → List DeliveryRecord → List DeliveryRecord
update r [] = []
update r (x ∷ xs) = if x.filename == r.filename then r ∷ xs else x ∷ update r xs

abbrev pub retried : ℕ → ℕ → ℕ → DeliveryRecord → DeliveryRecord
retried error_text backoff_seconds now r = record r {
  status = retry;
  attempts = r.attempts + 1;
  next_retry_at = some (now + backoff_seconds);
  last_error = some error_text;
  last_attempt_at = some now;
  sent_at = none;
}

abbrev pub delivered : ℕ → DeliveryRecord → DeliveryRecord
delivered now r = record r {
  status = sent;
  next_retry_at = none;
  last_error = none;
  last_attempt_at = some now;
  sent_at = some now;
}

unfoldable pub mark_retry : ℕ → ℕ → ℕ → ℕ → List DeliveryRecord → List DeliveryRecord
mark_retry f error_text backoff_seconds now table =
    update (retried error_text backoff_seconds now (record (current f table) { filename = f }))
      (ensure_record f table)

unfoldable pub mark_sent : ℕ → ℕ → List DeliveryRecord → List DeliveryRecord
mark_sent f now table =
    update (delivered now (record (current f table) { filename = f })) (ensure_record f table)

abbrev pub is_due : ℕ → DeliveryRecord → Bool
is_due now r = elim r.status [
  | sent ↦ false
  | _ ↦ elim r.next_retry_at [ none ↦ true | some t ↦ leb t now ]
]

unfoldable pub due_for_send : ℕ → ℕ → List DeliveryRecord → Bool
due_for_send f now table = elim (get_record f table) [ none ↦ true | some r ↦ is_due now r ]

-- The commands of a pass: `some e` is an exception with the text `e`.
pub data Answer : Type 0 where
  raised : ℕ → Answer
  answered : Bool → Answer

pub record Commands : Type 0 where
  pub ensure_remote_dirs : Option ℕ
  pub remote_file_exists : ℕ → Answer
  pub rsync_to_remote : ℕ → Option ℕ
  pub promote_remote : ℕ → Option ℕ
  pub remove_local : ℕ → Option ℕ

pub record Config : Type 0 where
  pub dry_run : Bool
  pub rsync_dry_run : Bool
  pub initial_backoff_seconds : ℕ
  pub max_backoff_seconds : ℕ

pub record Shipper : Type 0 where
  pub deliveries : List DeliveryRecord
  pub outbox : List ℕ

-- `_cleanup_local`, by deletion or by a move to the archive: the exception, if it raises.
unfoldable pub cleanup_local : Commands → ℕ → Shipper → Shipper × Option ℕ
cleanup_local c f s = elim (c.remove_local f) [
  | some e ↦ (s, some e)
  | none ↦ (record s { outbox = keep (λ g. not (g == f)) s.outbox }, none)
]

unfoldable pub finish : Commands → ℕ → ℕ → Shipper → Shipper × Option ℕ
finish c now f s = cleanup_local c f (record s { deliveries = mark_sent f now s.deliveries })

-- A command that raises ends the attempt; otherwise the rest runs.
abbrev pub unless : Option ℕ → Shipper → Shipper × Option ℕ → Shipper × Option ℕ
unless (some e) s rest = (s, some e)
unless none s rest = rest

abbrev pub unless_there :
    Answer → Shipper → Shipper × Option ℕ → Shipper × Option ℕ → Shipper × Option ℕ
unless_there (raised e) s there rest = (s, some e)
unless_there (answered true) s there rest = there
unless_there (answered false) s there rest = rest

abbrev pub choose : Bool → Shipper × Option ℕ → Shipper × Option ℕ → Shipper × Option ℕ
choose true a b = a
choose false a b = b

-- The body of the `try` of `_send_one`.
unfoldable pub try_send : Config → Commands → ℕ → ℕ → Shipper → Shipper × Option ℕ
try_send config c now f s =
    let finished = finish c now f s in
    let promoted = unless (c.promote_remote f) s finished in
    let uploaded = unless (c.rsync_to_remote f) s (choose config.rsync_dry_run finished promoted) in
    let sent_over =
      unless c.ensure_remote_dirs s (unless_there (c.remote_file_exists f) s finished uploaded) in
    choose config.dry_run finished sent_over

abbrev pub backoff_of : Config → ℕ → List DeliveryRecord → ℕ
backoff_of config f table =
    compute_backoff_seconds ((current f table).attempts + 1) config.initial_backoff_seconds
      config.max_backoff_seconds

unfoldable pub fail_send : Config → ℕ → ℕ → Shipper → ℕ → Shipper
fail_send config now f s e = record s {
  deliveries = mark_retry f e (backoff_of config f s.deliveries) now s.deliveries;
}

-- The `except` of `_send_one`.
abbrev pub conclude : Config → ℕ → ℕ → Shipper × Option ℕ → Shipper × Bool
conclude config now f (s, none) = (s, true)
conclude config now f (s, some e) = (fail_send config now f s e, false)

-- `_send_one`: whether the file was sent.
unfoldable pub send_one : Config → Commands → ℕ → ℕ → Shipper → Shipper × Bool
send_one config c now f s = conclude config now f (try_send config c now f s)

pub record SendSummary : Type 0 where
  pub sent_count : ℕ
  pub failed : ℕ
  pub skipped : ℕ

-- A pass ends, or an exception of a cleanup escapes from it.
pub data Pass : Type 0 where
  done : Shipper → SendSummary → Pass
  escaped : Shipper → ℕ → Pass

abbrev pub counted : Bool → SendSummary → SendSummary
counted true sum = record sum { sent_count = sum.sent_count + 1 }
counted false sum = record sum { failed = sum.failed + 1 }

abbrev pub skip : SendSummary → SendSummary
skip sum = record sum { skipped = sum.skipped + 1 }

-- A file that was sent before is cleaned up.
abbrev pub clean_again : Shipper × Option ℕ → SendSummary → Pass
clean_again (s, some e) sum = escaped s e
clean_again (s, none) sum = done s (skip sum)

abbrev pub tally : Shipper × Bool → SendSummary → Pass
tally (s, was_sent) sum = done s (counted was_sent sum)

-- A file that was not sent is attempted when it is due.
abbrev pub attempt : Bool → Shipper → Shipper × Bool → SendSummary → Pass
attempt true s attempted sum = tally attempted sum
attempt false s attempted sum = done s (skip sum)

abbrev pub by_status : Status → Pass → Pass → Pass
by_status sent cleaned attempted = cleaned
by_status pending cleaned attempted = attempted
by_status retry cleaned attempted = attempted

-- One round of the loop of `send_available`. The row exists from `ensure_record` on.
unfoldable pub visit : Config → Commands → ℕ → ℕ → Shipper → SendSummary → Pass
visit config c now f s sum =
    let s₁ = record s { deliveries = ensure_record f s.deliveries } in
    by_status (current f s.deliveries).status (clean_again (cleanup_local c f s₁) sum)
      (attempt (due_for_send f now s₁.deliveries) s₁ (send_one config c now f s₁) sum)

-- The loop, over the files that were listed when it began.
unfoldable pub send_files : Config → Commands → ℕ → List ℕ → Shipper → SendSummary → Pass
send_files config c now [] s sum = done s sum
send_files config c now (f ∷ fs) s sum = elim (visit config c now f s sum) [
  | escaped s' e ↦ escaped s' e
  | done s' sum' ↦ send_files config c now fs s' sum'
]

unfoldable pub send_available : Config → Commands → ℕ → Shipper → Pass
send_available config c now s =
    send_files config c now s.outbox s (record { sent_count = 0; failed = 0; skipped = 0 })
