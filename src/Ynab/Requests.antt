-- ===== src/Ynab/Requests.antt =====
-- The bodies of the writes: `_build_update_transaction_payload` and
-- `_full_transaction_payload_from_ynab_transaction`.
use ynab_receipt_analyzer.Prelude.{ℕ, Bool, Option, none, some, List, [], ◌∷◌, map}
use ynab_receipt_analyzer.Sync.Text.{Text}
use ynab_receipt_analyzer.Ynab.Remote.{
  RemoteSplit, RemoteTransaction, DesiredSplit, Desired, active,
}
use ynab_receipt_analyzer.Ynab.Compare.{reported}

-- A row of `subtransactions` in an update: a split, under the id of an existing row or a new one, or the
-- deletion of an existing row.
pub data SplitUpdate : Type 0 where
  write : Option ℕ → DesiredSplit → SplitUpdate
  remove : ℕ → SplitUpdate

-- `fields` are the keys other than `import_id` and `subtransactions`; `splits` is `none` where an update
-- has no key `subtransactions`.
pub record FullUpdate : Type 0 where
  pub fields : Desired
  pub flag_color : Option ℕ
  pub splits : Option (List SplitUpdate)

-- A full update, or the memo, `approved` and the flag alone.
pub data Update : Type 0 where
  full : FullUpdate → Update
  minimal : Text → Bool → Option ℕ → Update

abbrev pub ids_of : List RemoteSplit → List (Option ℕ)
ids_of = map (λ (s : RemoteSplit). s.id)

-- The rows that are left over are removed, where they have an id.
abbrev pub removals : List (Option ℕ) → List SplitUpdate
removals [] = []
removals (none ∷ ids) = removals ids
removals (some i ∷ ids) = remove i ∷ removals ids

-- The wanted splits take the ids of the existing rows in order.
abbrev pub merge_splits : List DesiredSplit → List (Option ℕ) → List SplitUpdate
merge_splits [] ids = removals ids
merge_splits (d ∷ ds) [] = write none d ∷ merge_splits ds []
merge_splits (d ∷ ds) (i ∷ ids) = write i d ∷ merge_splits ds ids

abbrev pub existing_splits : Option RemoteTransaction → List RemoteSplit
existing_splits none = []
existing_splits (some t) = active t.subtransactions

-- Splits of a transaction that is to have a single category are cleared.
abbrev pub clear_splits : List RemoteSplit → Option (List SplitUpdate)
clear_splits [] = none
clear_splits (s ∷ ss) = some []

unfoldable pub build_update_splits :
    List DesiredSplit → List RemoteSplit → Option (List SplitUpdate)
build_update_splits [] existing = clear_splits existing
build_update_splits (d ∷ ds) existing = some (merge_splits (d ∷ ds) (ids_of existing))

unfoldable pub build_update_transaction_payload :
    Desired → Option ℕ → Option RemoteTransaction → FullUpdate
build_update_transaction_payload d flag existing = record {
  fields = record d { import_id = none; subtransactions = [] };
  flag_color = flag;
  splits = build_update_splits d.subtransactions (existing_splits existing);
}

abbrev pub unless_splits : List DesiredSplit → Option ℕ → Option ℕ
unless_splits [] c = c
unless_splits (d ∷ ds) c = none

-- What YNAB holds, under another memo.
unfoldable pub full_transaction_payload : RemoteTransaction → Text → Desired
full_transaction_payload t memo = record {
  account_id = t.account_id;
  date = some t.date;
  amount = t.amount;
  payee_name = t.payee_name;
  memo = memo;
  import_id = none;
  category_id = unless_splits (reported t.subtransactions) t.category_id;
  subtransactions = reported t.subtransactions;
}
