-- ===== src/Sync/Exact.antt =====
-- The transactions of `_build_sync_transaction_payload` (apps/server/backend/app/services/ynab.py).
use ynab_receipt_analyzer.Prelude.{
  ◌≡◌, ◌≢◌, refl, ap, inl, inr, Bool, true, false, List, [], ◌∷◌, arith, All, contains,
  Option-cases,
}
use ynab_receipt_analyzer.Prelude.Int.{ℤ, pos, ◌≤ℤ◌, sum_ℤ, eqb_ℤ, int_laws}
use ynab_receipt_analyzer.Money.{dollars_to_milliunits}
use ynab_receipt_analyzer.Money.Decimals.{Decimal}
use ynab_receipt_analyzer.Money.Rounding.{dollars_to_milliunits-IsNearest}
use ynab_receipt_analyzer.Sync.Text.{Text}
use ynab_receipt_analyzer.Sync.Draft.{
  ValidationSplit, ValidationPayload, ok, >>=-eq-ok, Result-cases, from_converted,
  from_converted-eq-ok,
}
use ynab_receipt_analyzer.Sync.Validate.{convert_splits, unknown_account_id}
use ynab_receipt_analyzer.Sync.Gate.{
  Reference, Subtransaction, Body, single, split, TransactionPayload, is_outflow, has_bad_category,
  subtransactions, build_body, build_sync_transaction_payload,
}

-- An outflow is at most zero, an inflow at least zero.
abbrev pub IsDirected : Bool → ℤ → Type 0
IsDirected true m = m ≤ℤ pos 0
IsDirected false m = pos 0 ≤ℤ m

abbrev pub amounts : List Subtransaction → List ℤ
amounts [] = []
amounts (s ∷ ss) = s.amount ∷ amounts ss

-- A single category is in the cache; splits add up to the total exactly, each in the direction of the
-- transaction and with a category from the cache.
abbrev pub IsSafeBody : Reference → Bool → ℤ → Body → Type 0
IsSafeBody ref outflow total (single c) = contains c ref.categories ≡ true
IsSafeBody ref outflow total (split ss) =
    (sum_ℤ (amounts ss) ≡ total)
    × All (λ s. IsDirected outflow s.amount × (contains s.category_id ref.categories ≡ true)) ss

abbrev IsConversion : Bool → List ValidationSplit → List ℤ → Type 0
IsConversion outflow ss ms = convert_splits outflow ss ≡ ok ms

eqb_ℤ-eq : (a b : ℤ) → eqb_ℤ a b ≡ true → a ≡ b
eqb_ℤ-eq a b h = grind int_laws

pub conversion-IsDirected :
    (d : Decimal) (outflow : Bool) {m : ℤ}
    → from_converted (dollars_to_milliunits d outflow) ≡ ok m
    → IsDirected outflow m
conversion-IsDirected d true h =
    (dollars_to_milliunits-IsNearest d true (from_converted-eq-ok _ h)).1 refl
conversion-IsDirected d false h =
    (dollars_to_milliunits-IsNearest d false (from_converted-eq-ok _ h)).2 refl

convert_splits-cons :
    (outflow : Bool) (s : ValidationSplit) (ss : List ValidationSplit) {ms : List ℤ}
    → IsConversion outflow (s ∷ ss) ms
    → (m : ℤ) × (rest : List ℤ) × (from_converted (dollars_to_milliunits s.amount outflow) ≡ ok m)
      × IsConversion outflow ss rest
      × (ms ≡ m ∷ rest)
unfolding convert_splits
convert_splits-cons outflow s ss h =
    let (m, e, h') = >>=-eq-ok _ _ h in
    let (rest, e', h'') = >>=-eq-ok _ _ h' in (m, rest, e, e', cc)

subtransactions_safe :
    (ref : Reference) (outflow : Bool) (ss : List ValidationSplit) (ms : List ℤ)
    → IsConversion outflow ss ms
    → has_bad_category ref.categories ss ≡ false
    → (amounts (subtransactions ms ss) ≡ ms)
      × All
          (λ s. IsDirected outflow s.amount × (contains s.category_id ref.categories ≡ true))
          (subtransactions ms ss)
unfolding convert_splits
subtransactions_safe ref outflow [] ms h g = ground arith
subtransactions_safe ref outflow (s ∷ ss) ms h g =
    let (m, rest, e, e', e'') = convert_splits-cons outflow s ss h in
    let ih = subtransactions_safe ref outflow ss rest e' (ground arith) in
    rw e'' (ap (λ l. m ∷ l) ih.0, ((conversion-IsDirected s.amount outflow e, ground arith), ih.1))

build_body-IsSafeBody :
    (ref : Reference) (p : ValidationPayload) (total : ℤ) (ss : List ValidationSplit) {b : Body}
    → build_body ref p total ss ≡ ok b
    → IsSafeBody ref (is_outflow p.transaction_kind) total b
unfolding build_body
build_body-IsSafeBody ref p total [] h = elim (Option-cases p.category_id) [
  | inl missing ↦ ground arith
  | inr (c, e) ↦ ground arith
]
build_body-IsSafeBody ref p total (s ∷ ss) h =
    let outflow = is_outflow p.transaction_kind in
    elim (Result-cases (convert_splits outflow (s ∷ ss))) [
      | inl (e, failed) ↦ ground arith
      | inr (ms, e) ↦
          ground (arith, subtransactions_safe ref outflow (s ∷ ss) ms e, eqb_ℤ-eq (sum_ℤ ms) total)
    ]

-- A transaction that the gate lets through is safe to write: its account is a cached one and not the
-- unknown account, its amount has the direction of its kind, a single category is cached, and splits
-- add up to the amount exactly in integer milliunits, all in that direction and in cached categories.
pub build_sync_transaction_payload-safe :
    (ref : Reference) (receipt_id : Text) (p : ValidationPayload) {t : TransactionPayload}
    → build_sync_transaction_payload ref receipt_id p ≡ ok t
    → (contains t.account_id ref.accounts ≡ true)
      × (t.account_id ≢ unknown_account_id)
      × IsDirected (is_outflow p.transaction_kind) t.amount
      × IsSafeBody ref (is_outflow p.transaction_kind) t.amount t.body
unfolding build_sync_transaction_payload
build_sync_transaction_payload-safe ref receipt_id p h =
    let outflow = is_outflow p.transaction_kind in
    elim (Result-cases (from_converted (dollars_to_milliunits p.total_amount outflow))) [
      | inl (e, failed) ↦ ground arith
      | inr (total, e) ↦ elim (Result-cases (build_body ref p total p.splits)) [
        | inl (e', failed) ↦ ground arith
        | inr (body, e') ↦ ground (
          arith,
          conversion-IsDirected p.total_amount outflow e,
          build_body-IsSafeBody ref p total p.splits e',
        )
      ]
    ]
