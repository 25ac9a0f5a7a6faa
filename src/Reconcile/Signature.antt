-- ===== src/Reconcile/Signature.antt =====
-- The signature of a transaction: its category, or its splits in order.
use ynab_receipt_analyzer.Prelude.{
  ℕ, Bool, true, ◌&&◌, not, Option, none, some, List, [], ◌∷◌, map, ◌==◌, if◌then◌else◌, is_some,
}
use ynab_receipt_analyzer.Prelude.Int.{ℤ, abs, eqb_ℤ}
use ynab_receipt_analyzer.Ynab.Remote.{
  RemoteSplit, RemoteTransaction, DesiredSplit, Desired, active, same_id,
}
use ynab_receipt_analyzer.Ynab.Compare.{sort_splits, splits_eq}

-- A pair of an amount and a category is a split without a memo.
abbrev pub without_memo : DesiredSplit → DesiredSplit
without_memo s = record { amount = s.amount; category_id = s.category_id; memo = [] }

abbrev pub of_remote : RemoteSplit → DesiredSplit
of_remote s = record { amount = s.amount; category_id = s.category_id; memo = [] }

abbrev pub split_signature : List DesiredSplit → List DesiredSplit
split_signature ss = sort_splits (map without_memo ss)

pub record Signature : Type 0 where
  pub category_id : Option ℕ
  pub splits : List DesiredSplit

-- The single split has the whole amount, and its category is no other than the transaction's.
abbrev pub agrees : Option ℕ → Option ℕ → Bool
agrees none c = true
agrees (some d) c = same_id (some d) c

abbrev pub is_whole : Option ℕ → DesiredSplit → ℤ → Bool
is_whole category s total =
    is_some s.category_id && ((abs s.amount == abs total) && agrees category s.category_id)

abbrev pub normalize_category_and_splits : Option ℕ → List DesiredSplit → ℤ → Signature
normalize_category_and_splits category [] total = record { category_id = category; splits = [] }
normalize_category_and_splits category (s ∷ []) total =
    if is_whole category s total
    then record { category_id = s.category_id; splits = [] }
    else record { category_id = none; splits = s ∷ [] }
normalize_category_and_splits category (s ∷ s' ∷ ss) total = record {
  category_id = none;
  splits = s ∷ s' ∷ ss;
}

unfoldable pub sync_payload_signature : Desired → Signature
sync_payload_signature d =
    normalize_category_and_splits d.category_id (split_signature d.subtransactions) d.amount

unfoldable pub ynab_transaction_signature : RemoteTransaction → Signature
ynab_transaction_signature t =
    normalize_category_and_splits t.category_id
      (split_signature (map of_remote (active t.subtransactions))) t.amount

abbrev pub signature_eq : Signature → Signature → Bool
signature_eq a b = same_id a.category_id b.category_id && splits_eq a.splits b.splits

abbrev pub amount_drifted : Desired → RemoteTransaction → Bool
amount_drifted d t = not (eqb_ℤ d.amount t.amount)
