-- ===== src/Sync/Agreement.antt =====
-- The two checks of a draft, `validate_payload`
-- (apps/server/backend/app/services/validation.py) and `_build_sync_transaction_payload`
-- (apps/server/backend/app/services/ynab.py).
use ynab_receipt_analyzer.Prelude.{
  ℕ, ◌≡◌, refl, Bool, true, false, some, List, [], ◌∷◌, ◌++◌, map, arith, contains, ◌==◌, inl, inr,
  Bool-cases, Option-cases,
}
use ynab_receipt_analyzer.Prelude.Int.{ℤ, pos, neg, abs, ◌+ℤ◌, leb_ℤ, eqb_ℤ, sum_ℤ}
use ynab_receipt_analyzer.Money.{Converted, dollars_to_milliunits}
use ynab_receipt_analyzer.Money.Decimals.{
  Decimal, quantize, subtract, common_scale, integral, sum_from,
}
use ynab_receipt_analyzer.Sync.Text.{Text}
use ynab_receipt_analyzer.Sync.Draft.{
  ValidationSplit, ValidationPayload, satisfies_contract, is_empty, ok, Result-cases,
  from_converted,
}
use ynab_receipt_analyzer.Sync.Validate.{
  convert_splits, off_by_more_than_cent, split_amounts, check_splits_sum, check_mode,
  bad_split_categories, validate_payload, check_account, unknown_account_id, total_not_positive,
  check_category, check_split_categories, complain_if, no_categories_cached,
}
use ynab_receipt_analyzer.Sync.Gate.{
  Reference, Body, single, split, subtransactions, TransactionPayload, is_outflow, has_bad_category,
  build_body, build_sync_transaction_payload, base_memo,
}
use ynab_receipt_analyzer.Sync.Memo.{append_receipt_id_marker, build_import_id}
use ynab_receipt_analyzer.Sync.Exact.{conversion-IsDirected}

abs-sub_comm : (x y : ℤ) → abs (x +ℤ neg y) ≡ abs (y +ℤ neg x)
unfolding ◌+ℤ◌
abs-sub_comm x y = ground arith

common_scale_comm : (a b : Decimal) → common_scale a b ≡ common_scale b a
common_scale_comm a b = ground arith

off_by_more_than_cent_comm : (a b : Decimal) → off_by_more_than_cent a b ≡ off_by_more_than_cent b a
unfolding subtract
off_by_more_than_cent_comm a b = rw (common_scale_comm a b, abs-sub_comm)

-- `neg m` is the outflow of what an inflow converts to.
outflow_of_inflow :
    (d : Decimal) (m : ℤ)
    → from_converted (dollars_to_milliunits d false) ≡ ok m
    → from_converted (dollars_to_milliunits d true) ≡ ok (neg m)
unfolding dollars_to_milliunits
outflow_of_inflow d m h = elim (Option-cases (quantize 3 d)) [
  | inl e ↦ ground arith
  | inr (dec, e) ↦ ground (arith, conversion-IsDirected d false h)
]

neg-+ℤ : (a b : ℤ) → neg (a +ℤ b) ≡ neg a +ℤ neg b
unfolding ◌+ℤ◌
neg-+ℤ a b = ground arith

sum_ℤ-neg : (ms : List ℤ) → sum_ℤ (map neg ms) ≡ neg (sum_ℤ ms)
sum_ℤ-neg [] = refl
sum_ℤ-neg (m ∷ ms) = cc (sum_ℤ-neg ms, neg-+ℤ m (sum_ℤ ms))

convert_splits_outflow :
    (ss : List ValidationSplit) (ms : List ℤ)
    → convert_splits false ss ≡ ok ms
    → convert_splits true ss ≡ ok (map neg ms)
unfolding convert_splits
convert_splits_outflow [] ms h = ground arith
convert_splits_outflow (s ∷ ss) ms h =
    elim (Result-cases (from_converted (dollars_to_milliunits s.amount false))) [
      | inl (e, q) ↦ ground arith
      | inr (m, q) ↦ elim (Result-cases (convert_splits false ss)) [
        | inl (e, q') ↦ ground arith
        | inr (rest, q') ↦
            ground (arith, outflow_of_inflow s.amount m q, convert_splits_outflow ss rest q')
      ]
    ]

-- Both directions at once.
abbrev in_direction : Bool → ℤ → ℤ
in_direction true m = neg m
in_direction false m = m

convert_in_direction :
    (d : Decimal) (outflow : Bool) (m : ℤ)
    → from_converted (dollars_to_milliunits d false) ≡ ok m
    → from_converted (dollars_to_milliunits d outflow) ≡ ok (in_direction outflow m)
convert_in_direction d true m h = outflow_of_inflow d m h
convert_in_direction d false m h = h

-- Splits that add up as inflows do so in either direction.
convert_splits-in_direction :
    (ss : List ValidationSplit) (outflow : Bool) (total : ℤ) (ms : List ℤ)
    → convert_splits false ss ≡ ok ms
    → eqb_ℤ (sum_ℤ ms) total ≡ true
    → (ns : List ℤ) × (convert_splits outflow ss ≡ ok ns)
      × (eqb_ℤ (sum_ℤ ns) (in_direction outflow total) ≡ true)
convert_splits-in_direction ss true total ms h e =
    (map neg ms, convert_splits_outflow ss ms h, rw (sum_ℤ-neg ms) (ground arith))
convert_splits-in_direction ss false total ms h e = (ms, h, e)

no_bad_category :
    (allowed : List ℕ) (ss : List ValidationSplit)
    → bad_split_categories allowed ss ≡ []
    → has_bad_category allowed ss ≡ false
no_bad_category allowed [] h = refl
no_bad_category allowed (s ∷ ss) h = ground (arith, no_bad_category allowed ss)

-- What `check_splits_sum` without a complaint has computed.
check_splits_sum-exact :
    (p : ValidationPayload) (total : ℤ)
    → from_converted (dollars_to_milliunits p.total_amount false) ≡ ok total
    → check_splits_sum p ≡ ok []
    → (ms : List ℤ) × (convert_splits false p.splits ≡ ok ms) × (eqb_ℤ (sum_ℤ ms) total ≡ true)
unfolding check_splits_sum
check_splits_sum-exact p total e h = elim (Result-cases (convert_splits false p.splits)) [
  | inl (e', q) ↦ ground arith
  | inr (ms, q) ↦ (ms, q, ground arith)
]

check_splits_sum-near :
    (p : ValidationPayload)
    → check_splits_sum p ≡ ok []
    → off_by_more_than_cent (sum_from (integral 0) (split_amounts p.splits)) p.total_amount ≡ false
unfolding check_splits_sum
check_splits_sum-near p h =
    rw (off_by_more_than_cent_comm _ p.total_amount)
      (elim (Bool-cases
        (off_by_more_than_cent p.total_amount (sum_from (integral 0) (split_amounts p.splits)))) [
          | inl far ↦ ground arith
          | inr near ↦ near
        ])

append-eq-nil {ℓ} : {A : Type ℓ} (xs ys : List A) → xs ++ ys ≡ [] → (xs ≡ []) × (ys ≡ [])
append-eq-nil [] ys h = (refl, h)
append-eq-nil (x ∷ xs) ys h = cc

check_category-contains :
    (allowed : List ℕ) (c : ℕ)
    → check_category (some allowed) (some c) ≡ []
    → contains c allowed ≡ true
check_category-contains [] c h = cc
check_category-contains (a ∷ rest) c h = ground arith

-- What a split mode without complaints says.
check_mode-splits :
    (allowed : List ℕ) (p : ValidationPayload) (s : ValidationSplit) (ss : List ValidationSplit)
    → check_mode (some allowed) p (s ∷ ss) ≡ ok []
    → (check_splits_sum p ≡ ok []) × (has_bad_category allowed (s ∷ ss) ≡ false)
unfolding check_mode
check_mode-splits allowed p s ss h = elim (Result-cases (check_splits_sum p)) [
  | inl (e, q) ↦ ground arith
  | inr (sums, q) ↦
      let cats = check_split_categories (some allowed) (s ∷ ss) in
      let (none_sum, none_cat) = append-eq-nil sums cats (ground arith) in
      let bad =
        append-eq-nil (complain_if (is_empty allowed) no_categories_cached)
          (bad_split_categories allowed (s ∷ ss)) none_cat in
      (rw (q, none_sum), no_bad_category allowed (s ∷ ss) bad.1)
]

-- The body that the gate builds, in either direction, from a mode without complaints.
build_body-of_checked :
    (ref : Reference) (p : ValidationPayload) (total : ℤ) (ss : List ValidationSplit)
    → p.splits ≡ ss
    → from_converted (dollars_to_milliunits p.total_amount false) ≡ ok total
    → check_mode (some ref.categories) p ss ≡ ok []
    → (b : Body) × (build_body ref p (in_direction (is_outflow p.transaction_kind) total) ss ≡ ok b)
unfolding build_body
build_body-of_checked ref p total [] same e h = elim (Option-cases p.category_id) [
  | inl missing ↦ absurd (unfold check_mode in ground arith)
  | inr (c, q) ↦ (
    single c,
    ground (arith, check_category-contains ref.categories c (unfold check_mode in ground arith)),
  )
]
build_body-of_checked ref p total (s ∷ ss) same e h =
    let outflow = is_outflow p.transaction_kind in
    let (sums, cats) = check_mode-splits ref.categories p s ss h in
    let (ms, q, exact) = check_splits_sum-exact p total e sums in
    let (ns, q', exact') =
      convert_splits-in_direction (s ∷ ss) outflow total ms (rw same at q) exact in
    let near = rw same at (check_splits_sum-near p sums) in
    (split (subtransactions ns (s ∷ ss)), ground arith)

check_account-known :
    (allowed : List ℕ) (a : ℕ)
    → check_account (some allowed) false (some a) ≡ []
    → ((a == unknown_account_id) ≡ false) × (contains a allowed ≡ true)
check_account-known [] a h = ground arith
check_account-known (x ∷ rest) a h = ground arith

-- What a validation without complaints says of each part.
validate_payload-parts :
    (p : ValidationPayload) (categories accounts : List ℕ)
    → validate_payload p (some categories) (some accounts) false ≡ ok []
    → (check_mode (some categories) p p.splits ≡ ok [])
      × (check_account (some accounts) false p.account_id ≡ [])
      × (satisfies_contract p ≡ true)
unfolding validate_payload
validate_payload-parts p categories accounts h =
    elim (Result-cases (check_mode (some categories) p p.splits)) [
      | inl (e, q) ↦ ground arith
      | inr (mode, q) ↦ ground (
        arith,
        append-eq-nil (complain_if (leb_ℤ p.total_amount.coef (pos 0)) total_not_positive)
            (mode ++ check_account (some accounts) false p.account_id),
        append-eq-nil mode (check_account (some accounts) false p.account_id),
      )
    ]

-- A draft that `validate_payload` accepts against the cached identifiers, with no unknown account
-- allowed, is never refused by the gate: if its total converts to milliunits, the gate builds the
-- transaction, whatever its kind, memo and default account.
pub accepted_draft-passes_gate :
    (ref : Reference) (receipt_id : Text) (p : ValidationPayload) (total : ℤ)
    → validate_payload p (some ref.categories) (some ref.accounts) false ≡ ok []
    → dollars_to_milliunits p.total_amount false ≡ Converted.ok total
    → (t : TransactionPayload) × (build_sync_transaction_payload ref receipt_id p ≡ ok t)
unfolding build_sync_transaction_payload
accepted_draft-passes_gate ref receipt_id p total h e =
    let (mode, known, contract) = validate_payload-parts p ref.categories ref.accounts h in
    let e' : from_converted (dollars_to_milliunits p.total_amount false) ≡ ok total = rw e in
    let (body, built) = build_body-of_checked ref p total p.splits refl e' mode in
    let outflow = is_outflow p.transaction_kind in
    let converted = convert_in_direction p.total_amount outflow total e' in
    elim (Option-cases p.account_id) [
      | inl missing ↦ absurd (unfold satisfies_contract in ground arith)
      | inr (a, q) ↦
          let (not_unknown, cached) = check_account-known ref.accounts a (rw q at known) in
          (
            record {
              account_id = a;
              date = p.transaction_date;
              amount = in_direction outflow total;
              payee_name = p.payee_name;
              memo = append_receipt_id_marker (base_memo p) receipt_id;
              import_id = build_import_id receipt_id;
              body = body;
            },
            ground arith,
          )
    ]
