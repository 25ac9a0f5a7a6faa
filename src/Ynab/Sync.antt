-- ===== src/Ynab/Sync.antt =====
-- `sync_receipt_to_ynab`: the claim of the sync row, the write, its result and the error path. All rows
-- and the latest draft of one receipt are the state; the duplicate check's result and what happens in the
-- bookkeeping after the write are arguments. An idempotency key stands for the three values that it is a
-- digest of, beside the receipt.
use ynab_receipt_analyzer.Prelude.{
  ℕ, suc, ◌+◌, Bool, true, false, ◌&&◌, ◌||◌, not, Option, none, some, List, [], ◌∷◌, ◌==◌, ltb,
  length, if◌then◌else◌,
}
use ynab_receipt_analyzer.Sync.Text.{Text}
use ynab_receipt_analyzer.Sync.Draft.{ValidationPayload}
use ynab_receipt_analyzer.Sync.Gate.{Reference, build_sync_transaction_payload}
use ynab_receipt_analyzer.Ynab.Remote.{RemoteTransaction, Desired, desired_of}
use ynab_receipt_analyzer.Ynab.Session.{
  Call, Client, Problem, no_budget, sync_disabled, no_token, SyncStatus, running, matched_updated,
  created, dry_run, failed_sync, SyncRow, ReceiptStatus, needs_review, syncing, synced, error_sync,
  StatusReason, structure_ignored, dry_run_saved, bookkeeping_failed, problem, Session, Outcome,
  value, raised, Act, ◌>>=◌, ◌>>◌, give, raise_if, from_result, the_row, set_row, set_status,
  get_transaction_by_id,
}
use ynab_receipt_analyzer.Ynab.Writes.{or_else, Flags, sync_update_existing, sync_match_or_create}

pub record Settings : Type 0 where
  pub has_budget : Bool
  pub ynab_sync_enabled : Bool
  pub ynab_dry_run : Bool
  pub has_token : Bool
  pub flags : Flags
  pub stuck_timeout : ℕ
  pub reference : Reference

-- What becomes of the bookkeeping: it passes, or it raises and the incident is recorded or not.
pub data Bookkeeping : Type 0 where
  passed recorded unrecorded : Bookkeeping

pub record Validation : Type 0 where
  pub id : ℕ
  pub is_valid : Bool
  pub payload : ValidationPayload

pub record Store : Type 0 where
  pub status : ReceiptStatus
  pub status_reason : Option StatusReason
  pub validation : Option Validation
  pub rows : List SyncRow
  pub calls : List Call

pub record Job : Type 0 where
  pub receipt_id : Text
  pub force_create : Bool
  pub allow_update_match : Bool
  pub now : ℕ
  pub finished_at : ℕ
  pub duplicate_of : Option ℕ
  pub checked_status : ReceiptStatus
  pub checked_reason : Option StatusReason
  pub bookkeeping : Bookkeeping

abbrev pub is_success : SyncStatus → Bool
is_success matched_updated = true
is_success created = true
is_success _ = false

-- `order_by(completed_at.desc(), id.desc())`: whether `a` comes before `b`. A missing time is last.
abbrev pub later_time : Option ℕ → Option ℕ → Bool
later_time none b = false
later_time (some a) none = true
later_time (some a) (some b) = ltb b a

abbrev pub comes_before : SyncRow → SyncRow → Bool
comes_before a b =
    later_time a.completed_at b.completed_at
    || (not (later_time b.completed_at a.completed_at) && ltb b.id a.id)

abbrev pub first_of : SyncRow → Option SyncRow → SyncRow
first_of a none = a
first_of a (some b) = if comes_before b a then b else a

unfoldable pub latest_successful_sync : List SyncRow → Option SyncRow
latest_successful_sync [] = none
latest_successful_sync (r ∷ rs) =
    let rest = latest_successful_sync rs in
    if is_success r.status then some (first_of r rest) else rest

abbrev pub same_bool : Bool → Bool → Bool
same_bool true b = b
same_bool false b = not b

abbrev pub has_key : ℕ → Job → SyncRow → Bool
has_key validation_id job r =
    (r.validation_id == validation_id)
    && (same_bool r.force_create job.force_create
        && same_bool r.allow_update_match job.allow_update_match)

unfoldable pub find_row : ℕ → Job → List SyncRow → Option SyncRow
find_row v job [] = none
find_row v job (r ∷ rs) = if has_key v job r then some r else find_row v job rs

unfoldable pub put_sync_row : SyncRow → List SyncRow → List SyncRow
put_sync_row r [] = r ∷ []
put_sync_row r (x ∷ xs) = if x.id == r.id then r ∷ xs else x ∷ put_sync_row r xs

abbrev pub new_row : ℕ → ℕ → Job → SyncRow
new_row i v job = record {
  id = i;
  validation_id = v;
  force_create = job.force_create;
  allow_update_match = job.allow_update_match;
  status = running;
  matched_transaction_id = none;
  created_transaction_id = none;
  raw_request = none;
  raw_response = none;
  error_text = none;
  structure_applied = true;
  started_at = job.now;
  completed_at = none;
}

-- A row that another worker is still running.
abbrev pub is_running : SyncStatus → Bool
is_running running = true
is_running _ = false

abbrev pub is_fresh : ℕ → ℕ → SyncRow → Bool
is_fresh now timeout r = is_running r.status && ltb now (r.started_at + timeout)

-- The earlier success, which may be the very row of this sync.
pub data Prior : Type 0 where
  no_prior same_row : Prior
  other_row : SyncRow → Prior

abbrev pub prior_of : SyncRow → Option SyncRow → Prior
prior_of r none = no_prior
prior_of r (some p) = if p.id == r.id then same_row else other_row p

pub data Report : Type 0 where
  skipped_duplicate dry_run_report : Report
  sync_report : SyncStatus → Option ℕ → Bool → Report

abbrev pub succeeded : Bookkeeping → Bool
succeeded passed = true
succeeded recorded = false
succeeded unrecorded = false

-- The receipt after the write, and after its bookkeeping.
abbrev pub final_status : Bool → ReceiptStatus
final_status true = synced
final_status false = needs_review

abbrev pub review_reason : Bool → Option Problem → Option StatusReason
review_reason true why = none
review_reason false none = some structure_ignored
review_reason false (some p) = some (problem p)

abbrev pub booked_reason : Bookkeeping → Option StatusReason → Option StatusReason
booked_reason recorded reason = some bookkeeping_failed
booked_reason passed reason = reason
booked_reason unrecorded reason = reason

unfoldable pub apply_post_sync : Job → Bool → Option Problem → Act Report
apply_post_sync job applied why = do
  row ← the_row
  set_row (record row { completed_at = some job.finished_at; structure_applied = applied })
  set_status (final_status applied) (booked_reason job.bookkeeping (review_reason applied why))
  give (
      sync_report row.status (or_else row.created_transaction_id row.matched_transaction_id)
        (succeeded job.bookkeeping))

unfoldable pub apply_dry_run : Job → Desired → Option ℕ → Act Report
apply_dry_run job d flag = do
  row ← the_row
  set_row (record row {
    status = dry_run;
    raw_request = some (record { transaction = d; flag_color = flag });
    raw_response = none;
    matched_transaction_id = none;
    created_transaction_id = none;
    completed_at = some job.finished_at;
  })
  set_status needs_review (some dry_run_saved)
  give dry_run_report

module _ (settings : Settings) (client : Client) (job : Job) (p : ValidationPayload) where
  abbrev pub write_fresh : Desired → Act (Bool × Option Problem)
  write_fresh d = do
    applied ←
        sync_match_or_create client settings.flags job.allow_update_match job.force_create
          job.receipt_id d p
    give (applied, none)

  -- The row is read here, after it was claimed and its evidence checked.
  unfoldable pub write_receipt : Prior → Desired → Act (Bool × Option Problem)
  write_receipt no_prior d = write_fresh d
  write_receipt same_row d =
      if job.force_create
      then write_fresh d
      else the_row >>= λ row. sync_update_existing client settings.flags row d
  write_receipt (other_row prior) d =
      if job.force_create then write_fresh d else sync_update_existing client settings.flags prior d

  unfoldable pub write_and_finish : Prior → Desired → Act Report
  write_and_finish prior d = do
    written ← write_receipt prior d
    apply_post_sync job written.0 written.1

  -- After the look at the transaction that an earlier attempt created.
  unfoldable pub after_check : Prior → Desired → Option RemoteTransaction → Act Report
  after_check prior d (some t) = do
    row ← the_row
    set_row (record row { status = created; raw_response = some t })
    apply_post_sync job true none
  after_check prior d none = do
    row ← the_row
    set_row (record row { created_transaction_id = none; raw_response = none })
    write_and_finish prior d

  -- Verify before create.
  unfoldable pub check_created : Prior → Desired → Option ℕ → Act Report
  check_created prior d none = write_and_finish prior d
  check_created prior d (some i) = do
    live ← get_transaction_by_id client i
    after_check prior d live

  unfoldable pub sync_live : Prior → Desired → Act Report
  sync_live prior d = do
    raise_if (not settings.has_token) no_token
    row ← the_row
    check_created prior d row.created_transaction_id

  -- The body of the `try`.
  unfoldable pub try_sync : Prior → Act Report
  try_sync prior = do
    raise_if (not settings.has_budget) no_budget
    raise_if (not settings.ynab_sync_enabled) sync_disabled
    t ← from_result (build_sync_transaction_payload settings.reference job.receipt_id p)
    if settings.ynab_dry_run
        then apply_dry_run job (desired_of t) settings.flags.new_flag
        else sync_live prior (desired_of t)

-- The `except`: the row and the receipt keep the problem, and it is raised again.
abbrev pub conclude : Job → Session × Outcome Report → Session × Outcome Report
conclude job (s, value r) = (s, value r)
conclude job (s, raised e) = (
  record s {
    status = error_sync;
    status_reason = some (problem e);
    sync_row = record s.sync_row {
      status = failed_sync;
      error_text = some e;
      completed_at = some job.finished_at;
    };
  },
  raised e,
)

-- The claim of the row. Its identifiers and raw evidence stay.
abbrev pub claim : Job → Validation → List Call → SyncRow → Session
claim job v calls r = record {
  status = syncing;
  status_reason = none;
  payload = v.payload;
  sync_row = record r { status = running; started_at = job.now; error_text = none };
  calls = calls;
}

-- Why a sync is refused before it claims a row.
pub data Refusal : Type 0 where
  no_valid_draft : Refusal
  duplicate_of : ℕ → Refusal

pub data Result : Type 0 where
  reported : Report → Result
  failed : Problem → Result
  refused : Refusal → Result

abbrev pub result_of : Outcome Report → Result
result_of (value r) = reported r
result_of (raised e) = failed e

-- The session's state in the store.
abbrev pub save : Store → Validation → Session → Store
save store v s = record store {
  status = s.status;
  status_reason = s.status_reason;
  validation = some (record v { payload = s.payload });
  rows = put_sync_row s.sync_row store.rows;
  calls = s.calls;
}

unfoldable pub run_claimed : Settings → Client → Job → Validation → Store → SyncRow → Store × Result
run_claimed settings client job v store r =
    let prior = prior_of r (latest_successful_sync store.rows) in
    let (s, out) =
      conclude job (try_sync settings client job v.payload prior (claim job v store.calls r)) in
    (save store v s, result_of out)

-- The row of the key is claimed unless another worker runs it, or a new one is made.
unfoldable pub run_row :
    Settings → Client → Job → Validation → Store → Option SyncRow → Store × Result
run_row settings client job v store none =
    run_claimed settings client job v store (new_row (suc (length store.rows)) v.id job)
run_row settings client job v store (some r) =
    if is_fresh job.now settings.stuck_timeout r
    then (store, reported skipped_duplicate)
    else run_claimed settings client job v store r

unfoldable pub sync_validation : Settings → Client → Job → Validation → Store → Store × Result
sync_validation settings client job v store =
    run_row settings client job v store (find_row v.id job store.rows)

abbrev pub unless_duplicate : Option ℕ → Store → Store × Result → Store × Result
unless_duplicate none store rest = rest
unless_duplicate (some i) store rest = (store, refused (duplicate_of i))

-- The check for duplicates leaves its own status and reason.
abbrev pub checked_store : Job → Store → Store
checked_store job store = record store {
  status = job.checked_status;
  status_reason = job.checked_reason;
}

-- Only a draft that was marked as valid is written.
unfoldable pub sync_draft : Settings → Client → Job → Store → Option Validation → Store × Result
sync_draft settings client job store none = (store, refused no_valid_draft)
sync_draft settings client job store (some v) =
    if v.is_valid
    then unless_duplicate job.duplicate_of (checked_store job store)
        (sync_validation settings client job v (checked_store job store))
    else (store, refused no_valid_draft)

unfoldable pub sync_receipt_to_ynab : Settings → Client → Job → Store → Store × Result
sync_receipt_to_ynab settings client job store =
    sync_draft settings client job store store.validation
