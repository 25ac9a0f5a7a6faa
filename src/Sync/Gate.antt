-- ===== src/Sync/Gate.antt =====
-- `_build_sync_transaction_payload` (apps/server/backend/app/services/ynab.py): the last check of a
-- draft before a write to YNAB, and the transaction that is written.
use ynab_receipt_analyzer.Prelude.{
  ℕ, Bool, true, false, not, Option, none, some, List, [], ◌∷◌, ◌==◌, any, contains,
}
use ynab_receipt_analyzer.Prelude.Int.{ℤ, eqb_ℤ, sum_ℤ}
use ynab_receipt_analyzer.Money.{dollars_to_milliunits}
use ynab_receipt_analyzer.Money.Decimals.{integral, sum_from}
use ynab_receipt_analyzer.Sync.Text.{Text}
use ynab_receipt_analyzer.Sync.Memo.{
  append_receipt_id_marker, ensure_refund_memo_prefix, build_import_id,
}
use ynab_receipt_analyzer.Sync.Draft.{
  TransactionKind, purchase, refund, ValidationSplit, ValidationPayload, Result, ok, ◌>>=◌, ◌>>◌,
  raise_if, or_raise, from_converted, missing_account, unknown_account, invalid_account,
  splits_off_total, splits_off_milliunits, invalid_split_category, missing_category,
  invalid_category,
}
use ynab_receipt_analyzer.Sync.Validate.{
  unknown_account_id, split_amounts, off_by_more_than_cent, convert_splits,
}

-- The rows of the cache that the gate asks for, and the default account of the settings.
pub record Reference : Type 0 where
  pub accounts : List ℕ
  pub categories : List ℕ
  pub default_account_id : Option ℕ

pub record Subtransaction : Type 0 where
  pub amount : ℤ
  pub category_id : ℕ
  pub memo : Text

-- The transaction has splits or a category, never both.
pub data Body : Type 0 where
  single : ℕ → Body
  split : List Subtransaction → Body

pub record TransactionPayload : Type 0 where
  pub account_id : ℕ
  pub date : Option ℕ
  pub amount : ℤ
  pub payee_name : Text
  pub memo : Text
  pub import_id : Text
  pub body : Body

abbrev pub is_outflow : TransactionKind → Bool
is_outflow purchase = true
is_outflow refund = false

abbrev pub or_default : Option ℕ → Option ℕ → Option ℕ
or_default none d = d
or_default (some a) d = some a

abbrev pub has_bad_category : List ℕ → List ValidationSplit → Bool
has_bad_category allowed = any (λ s. not (contains s.category_id allowed))

abbrev pub subtransactions : List ℤ → List ValidationSplit → List Subtransaction
subtransactions [] ss = []
subtransactions (m ∷ ms) [] = []
subtransactions (m ∷ ms) (s ∷ ss) =
    record { amount = m; category_id = s.category_id; memo = s.memo } ∷ subtransactions ms ss

-- The two modes: `total` is the total in milliunits.
unfoldable pub build_body : Reference → ValidationPayload → ℤ → List ValidationSplit → Result Body
build_body ref p total [] = do
  c ← or_raise p.category_id missing_category
  raise_if (not (contains c ref.categories)) invalid_category
  ok (single c)
build_body ref p total (s ∷ ss) = do
  let amounts = split_amounts (s ∷ ss)
  raise_if (off_by_more_than_cent (sum_from (integral 0) amounts) p.total_amount) splits_off_total
  raise_if (has_bad_category ref.categories (s ∷ ss)) invalid_split_category
  ms ← convert_splits (is_outflow p.transaction_kind) (s ∷ ss)
  raise_if (not (eqb_ℤ (sum_ℤ ms) total)) splits_off_milliunits
  ok (split (subtransactions ms (s ∷ ss)))

abbrev pub base_memo : ValidationPayload → Text
base_memo p = elim p.transaction_kind [
  | purchase ↦ p.memo
  | refund ↦ ensure_refund_memo_prefix p.memo
]

unfoldable pub build_sync_transaction_payload :
    Reference → Text → ValidationPayload → Result TransactionPayload
build_sync_transaction_payload ref receipt_id p = do
  account ← or_raise (or_default p.account_id ref.default_account_id) missing_account
  raise_if (account == unknown_account_id) unknown_account
  raise_if (not (contains account ref.accounts)) invalid_account
  total ← from_converted (dollars_to_milliunits p.total_amount (is_outflow p.transaction_kind))
  body ← build_body ref p total p.splits
  ok (record {
    account_id = account;
    date = p.transaction_date;
    amount = total;
    payee_name = p.payee_name;
    memo = append_receipt_id_marker (base_memo p) receipt_id;
    import_id = build_import_id receipt_id;
    body = body;
  })
