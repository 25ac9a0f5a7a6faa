-- ===== src/Tests/Receipts.antt =====
-- Money, drafts and the sync gate at concrete inputs.
use ynab_receipt_analyzer.Prelude.{
  ◌≡◌, ◌≢◌, refl, true, false, none, some, [], ◌∷◌, ◌++◌, arith, contains,
}
use ynab_receipt_analyzer.Prelude.Int.{pos, negsuc, ◌≤ℤ◌, ltb_ℤ}
use ynab_receipt_analyzer.Money.{Converted, dollars_to_milliunits, milliunits_to_dollars}
use ynab_receipt_analyzer.Money.Decimals.{
  Decimal, quantize, to_integral, rescale, magnitude, sum_from, add, subtract,
}
use ynab_receipt_analyzer.Money.Rounding.{
  IsNearest, dollars_to_milliunits-IsNearest, milliunits_roundtrip,
}
use ynab_receipt_analyzer.Sync.Text.{Text, strip}
use ynab_receipt_analyzer.Sync.Memo.{
  receipt_id_marker_prefix, build_import_id, receipt_id_marker, append_receipt_id_marker,
}
use ynab_receipt_analyzer.Sync.Draft.{
  purchase, ValidationSplit, ValidationPayload, satisfies_contract, ok,
}
use ynab_receipt_analyzer.Sync.Validate.{
  unknown_account_id, validate_payload, check_mode, check_splits_sum, convert_splits,
}
use ynab_receipt_analyzer.Sync.Gate.{
  Reference, split, TransactionPayload, build_body, build_sync_transaction_payload,
}
use ynab_receipt_analyzer.Sync.Exact.{IsDirected, IsSafeBody, build_sync_transaction_payload-safe}
use ynab_receipt_analyzer.Sync.Agreement.{accepted_draft-passes_gate}

-- $12.3456
abbrev price : Decimal
price = record { coef = pos 123456; scale = 4 }

price_out : dollars_to_milliunits price true ≡ Converted.ok (negsuc 12345)
unfolding dollars_to_milliunits quantize to_integral rescale
price_out = refl

price_in : dollars_to_milliunits price false ≡ Converted.ok (pos 12346)
unfolding dollars_to_milliunits quantize to_integral rescale
price_in = refl

dollars_to_milliunits-IsNearest_example :
    IsNearest 4 123456 12346
    × (true ≡ true → negsuc 12345 ≤ℤ pos 0)
    × (true ≡ false → pos 0 ≤ℤ negsuc 12345)
dollars_to_milliunits-IsNearest_example = dollars_to_milliunits-IsNearest price true price_out

milliunits_roundtrip_example :
    (d : Decimal) × (milliunits_to_dollars (λ d. d) (negsuc 12339) ≡ some d)
    × (dollars_to_milliunits (magnitude d) (ltb_ℤ (negsuc 12339) (pos 0))
        ≡ Converted.ok (negsuc 12339))
milliunits_roundtrip_example =
    milliunits_roundtrip (λ d. d) (λ d short. (refl, refl)) (negsuc 12339) (omega arith)

abbrev pub groceries : ValidationSplit
groceries = record { category_id = 4; amount = record { coef = pos 1000; scale = 2 }; memo = [] }

abbrev pub household : ValidationSplit
household = record { category_id = 5; amount = record { coef = pos 2345; scale = 3 }; memo = [] }

-- A purchase of $12.345 in two categories.
abbrev pub basket : ValidationPayload
basket = record {
  payee_name = b'S' ∷ [];
  account_id = some 7;
  transaction_date = some 20000;
  memo = [];
  total_amount = record { coef = pos 12345; scale = 3 };
  transaction_kind = purchase;
  category_id = none;
  splits = groceries ∷ household ∷ [];
}

abbrev pub cached : Reference
cached = record { accounts = 6 ∷ 7 ∷ []; categories = 4 ∷ 5 ∷ []; default_account_id = none }

abbrev pub receipt : Text
receipt = b'a' ∷ b'-' ∷ b'1' ∷ []

basket_accepted : validate_payload basket (some (4 ∷ 5 ∷ [])) (some (6 ∷ 7 ∷ [])) false ≡ ok []
unfolding validate_payload satisfies_contract check_mode check_splits_sum convert_splits
    dollars_to_milliunits quantize to_integral rescale subtract sum_from add
basket_accepted = refl

basket_total : dollars_to_milliunits basket.total_amount false ≡ Converted.ok (pos 12345)
unfolding dollars_to_milliunits quantize to_integral rescale
basket_total = refl

accepted_draft-passes_gate_example :
    (t : TransactionPayload) × (build_sync_transaction_payload cached receipt basket ≡ ok t)
accepted_draft-passes_gate_example =
    accepted_draft-passes_gate cached receipt basket (pos 12345) basket_accepted basket_total

abbrev pub basket_transaction : TransactionPayload
basket_transaction = record {
  account_id = 7;
  date = some 20000;
  amount = negsuc 12344;
  payee_name = b'S' ∷ [];
  memo = receipt_id_marker_prefix ++ (b'a' ∷ b'-' ∷ b'1' ∷ b']' ∷ []);
  import_id = b'R' ∷ b'A' ∷ b':' ∷ b'1' ∷ b':' ∷ b'a' ∷ b'1' ∷ [];
  body = split (
      record { amount = negsuc 9999; category_id = 4; memo = [] }
      ∷ record { amount = negsuc 2344; category_id = 5; memo = [] }
      ∷ []);
}

basket_built : build_sync_transaction_payload cached receipt basket ≡ ok basket_transaction
unfolding build_sync_transaction_payload build_body convert_splits dollars_to_milliunits quantize
    to_integral rescale subtract sum_from add append_receipt_id_marker receipt_id_marker strip
    build_import_id
basket_built = refl

build_sync_transaction_payload-safe_example :
    (contains 7 cached.accounts ≡ true)
    × (7 ≢ unknown_account_id)
    × IsDirected true (negsuc 12344)
    × IsSafeBody cached true (negsuc 12344) basket_transaction.body
build_sync_transaction_payload-safe_example =
    build_sync_transaction_payload-safe cached receipt basket basket_built
