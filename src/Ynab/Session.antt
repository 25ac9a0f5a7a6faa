-- ===== src/Ynab/Session.antt =====
-- The state of one sync, the client, and statements that call it and may raise
-- (apps/server/backend/app/services/ynab.py).
use ynab_receipt_analyzer.Prelude.{
  ℕ, Bool, true, false, Option, none, some, List, ◌∷◌, if◌then◌else◌,
}
use ynab_receipt_analyzer.Money.Decimals.{Decimal}
use ynab_receipt_analyzer.Sync.Draft.{ValidationPayload, SyncError, Result, ok, err}
use ynab_receipt_analyzer.Ynab.Remote.{RemoteTransaction, Desired}
use ynab_receipt_analyzer.Ynab.Requests.{Update}

-- The requests of `YNABClient` that this path sends.
pub data Call : Type 0 where
  list_since : Option ℕ → Call
  get : ℕ → Call
  create : Desired → Option ℕ → Call
  update : ℕ → Update → Call

-- `conflict` is HTTP 409, `not_found` 404, `failed` any other failure of a request.
pub data Answer (A : Type 0) : Type 0 where
  answered : A → Answer A
  conflict not_found : Answer A
  failed : ℕ → Answer A

-- The answers may depend on all earlier requests, newest first. `create` may answer without a transaction.
-- `float_text` is `Decimal(str(float(d)))` of Python.
pub record Client : Type 0 where
  pub list_transactions_since : List Call → Option ℕ → Answer (List RemoteTransaction)
  pub get_transaction : List Call → ℕ → Answer RemoteTransaction
  pub create_transaction : List Call → Desired → Option ℕ → Answer (Option RemoteTransaction)
  pub update_transaction : List Call → ℕ → Update → Answer RemoteTransaction
  pub float_text : Decimal → Decimal

-- Why a sync raises.
pub data Problem : Type 0 where
  draft : SyncError → Problem
  api_conflict api_not_found : Problem
  api_failed : ℕ → Problem
  no_budget sync_disabled no_token no_date money_overflow : Problem
  prior_transaction_deleted : Problem

pub data SyncStatus : Type 0 where
  queued running matched_updated created dry_run failed_sync : SyncStatus

-- `raw_request`: the transaction that was asked for, with its flag.
pub record Request : Type 0 where
  pub transaction : Desired
  pub flag_color : Option ℕ

pub record SyncRow : Type 0 where
  pub id : ℕ
  pub validation_id : ℕ
  pub force_create : Bool
  pub allow_update_match : Bool
  pub status : SyncStatus
  pub matched_transaction_id : Option ℕ
  pub created_transaction_id : Option ℕ
  pub raw_request : Option Request
  pub raw_response : Option RemoteTransaction
  pub error_text : Option Problem
  pub structure_applied : Bool
  pub started_at : ℕ
  pub completed_at : Option ℕ

pub data ReceiptStatus : Type 0 where
  needs_review syncing synced error_sync : ReceiptStatus
  earlier : ℕ → ReceiptStatus

pub data StatusReason : Type 0 where
  structure_ignored mixed_splits dry_run_saved bookkeeping_failed : StatusReason
  problem : Problem → StatusReason
  other : ℕ → StatusReason

-- The receipt, its draft and its row, and the requests sent so far, newest first.
pub record Session : Type 0 where
  pub status : ReceiptStatus
  pub status_reason : Option StatusReason
  pub payload : ValidationPayload
  pub sync_row : SyncRow
  pub calls : List Call

pub data Outcome {ℓ} (A : Type ℓ) : Type ℓ where
  value : A → Outcome A
  raised : Problem → Outcome A

abbrev pub Act : Type 0 → Type 0
Act A = Session → Session × Outcome A

abbrev pub continue : {A B : Type 0} → Session × Outcome A → (A → Act B) → Session × Outcome B
continue (s, value a) f = f a s
continue (s, raised p) f = (s, raised p)

infixl 5 ◌>>=◌ ◌>>◌
unfoldable pub ◌>>=◌ : {A B : Type 0} → Act A → (A → Act B) → Act B
◌>>=◌ m f s = continue (m s) f

abbrev pub ◌>>◌ : {B : Type 0} → Act (Unit {0}) → Act B → Act B
m >> k = m >>= λ _. k

abbrev pub give : {A : Type 0} → A → Act A
give a s = (s, value a)

abbrev pub raise : {A : Type 0} → Problem → Act A
raise p s = (s, raised p)

abbrev pub raise_if : Bool → Problem → Act (Unit {0})
raise_if true p s = (s, raised p)
raise_if false p s = (s, value tt)

abbrev pub from_result : {A : Type 0} → Result A → Act A
from_result (ok a) s = (s, value a)
from_result (err e) s = (s, raised (draft e))

abbrev pub the_row : Act SyncRow
the_row s = (s, value s.sync_row)

-- The columns of the row are assigned; its primary key is not one of them.
abbrev pub set_row : SyncRow → Act (Unit {0})
set_row r s = (record s { sync_row = record r { id = s.sync_row.id } }, value tt)

abbrev pub set_payload : ValidationPayload → Act (Unit {0})
set_payload p s = (record s { payload = p }, value tt)

abbrev pub set_status : ReceiptStatus → Option StatusReason → Act (Unit {0})
set_status status reason s = (record s { status = status; status_reason = reason }, value tt)

-- An answer that is an exception is raised.
abbrev pub from_answer : {A : Type 0} → Answer A → Outcome A
from_answer (answered a) = value a
from_answer conflict = raised api_conflict
from_answer not_found = raised api_not_found
from_answer (failed n) = raised (api_failed n)

-- One request: its answer is found from the requests before it, and it joins them.
unfoldable pub request : {A : Type 0} → Call → (List Call → Answer A) → Act (Answer A)
request call answer s = (record s { calls = call ∷ s.calls }, value (answer s.calls))

abbrev pub checked : {A : Type 0} → Answer A → Act A
checked a s = (s, from_answer a)

module _ (client : Client) where
  abbrev pub list_transactions_since : Option ℕ → Act (List RemoteTransaction)
  list_transactions_since since = do
    a ← request (list_since since) (λ calls. client.list_transactions_since calls since)
    checked a

  -- `_get_transaction_by_id`: a missing or deleted transaction is none.
  abbrev pub found : Answer RemoteTransaction → Act (Option RemoteTransaction)
  found (answered t) = give (if t.deleted then none else some t)
  found conflict = raise api_conflict
  found not_found = give none
  found (failed n) = raise (api_failed n)

  abbrev pub get_transaction_by_id : ℕ → Act (Option RemoteTransaction)
  get_transaction_by_id i = do
    a ← request (get i) (λ calls. client.get_transaction calls i)
    found a

  abbrev pub update_transaction : ℕ → Update → Act RemoteTransaction
  update_transaction i u = do
    a ← request (update i u) (λ calls. client.update_transaction calls i u)
    checked a
