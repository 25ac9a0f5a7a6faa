-- ===== src/Allocation/Fair.antt =====
-- The shares of `_largest_remainder_allocation`, their sum and their rounding
-- (apps/server/backend/app/services/allocation_workspace.py).
use ynab_receipt_analyzer.Prelude.{
  ℕ, ◌*◌, ◌^◌, ◌<◌, ◌≡◌, refl, ap, sym, ◌∙◌, arith, Bool-cases, inl, inr, ltb, List, [], ◌∷◌, map,
  true, false, lt→ltb,
}
use ynab_receipt_analyzer.Prelude.Int.{pos}
use ynab_receipt_analyzer.Money.Decimals.{Decimal, less, integral, magnitude}
use ynab_receipt_analyzer.Allocation.Weights.{units}
use ynab_receipt_analyzer.Allocation.Raised.{IsRounding}
use ynab_receipt_analyzer.Allocation.Exact.{
  sum-round_shares, round_shares-IsRounding, sum_constant, equal_shares-sum, IsShared, IsWeighed,
  weights-IsWeighed, weighed_shares, positive-less, whole_shares,
}
use ynab_receipt_analyzer.Allocation.Shares.{
  sum_ℕ, raw_share, positive_shares, cent_shares, cents, largest_remainder_allocation,
  target_cents_of, weight_sum_of,
}

positive_shares-sum :
    (n : ℕ) (w : Decimal) (ws : List Decimal)
    → IsShared n (w ∷ ws)
    → sum_ℕ (positive_shares n (w ∷ ws)) ≡ n
unfolding positive_shares
positive_shares-sum n w ws h =
    let (k, t, weighed) = weights-IsWeighed (w ∷ ws) in
    elim (Bool-cases (less (integral 0) (weight_sum_of (w ∷ ws)))) [
      | inl f ↦
          let (_, low, high, _) = weighed_shares n (w ∷ ws) h weighed f in
          simp f (sum-round_shares n _ low high)
      | inr f ↦ simp f (equal_shares-sum n w ws)
    ]

pub cents_units : (ns : List ℕ) → map (units 2) (map cents ns) ≡ ns
cents_units [] = refl
cents_units (n ∷ ns) = let same : n * 10 ^ 0 ≡ n = omega arith in simp (same, cents_units ns) refl

no_shares :
    (n : ℕ) (w : Decimal) (ws : List Decimal)
    → ltb 0 n ≡ false
    → sum_ℕ (map (λ weight. 0) (w ∷ ws)) ≡ n
no_shares n w ws e = let nothing = sum_constant 0 (w ∷ ws) in ground arith

pub cent_shares-positive :
    (n : ℕ) (w : Decimal) (ws : List Decimal)
    → IsShared n (w ∷ ws)
    → sum_ℕ (cent_shares (pos n) (w ∷ ws)) ≡ n
unfolding cent_shares
cent_shares-positive n w ws h = elim (Bool-cases (ltb 0 n)) [
  | inl e ↦ simp e (positive_shares-sum n w ws h)
  | inr e ↦ simp e (no_shares n w ws e)
]

-- The shares of a target of `n` cents, with `n` below 10 ^ 14, add up to `n` cents exactly, for any
-- weights (at least one) whose sum is at most 10 ^ 14 units of its last digit.
pub largest_remainder_allocation-sum :
    (target_amount w : Decimal) (ws : List Decimal) (n : ℕ)
    → target_cents_of target_amount ≡ pos n
    → IsShared n (w ∷ ws)
    → sum_ℕ (map (units 2) (largest_remainder_allocation target_amount (w ∷ ws))) ≡ n
unfolding largest_remainder_allocation
largest_remainder_allocation-sum target_amount w ws n e h =
    ap sum_ℕ (cents_units (cent_shares (target_cents_of target_amount) (w ∷ ws)))
    ∙ ap (λ c. sum_ℕ (cent_shares c (w ∷ ws))) e
    ∙ cent_shares-positive n w ws h

positive_shares-IsRounding :
    (n : ℕ) (w : Decimal) (ws : List Decimal) {k t : ℕ}
    → IsShared n (w ∷ ws)
    → IsWeighed (w ∷ ws) k t
    → 0 < k
    → IsRounding (whole_shares n k (map (units t) (w ∷ ws))) (positive_shares n (w ∷ ws))
unfolding positive_shares
positive_shares-IsRounding n w ws {k = k} {t = t} h weighed above =
    let (e, _, _) = weighed in
    let counts : less (integral 0) (weight_sum_of (w ∷ ws)) ≡ true =
      ap (less (integral 0)) e ∙ positive-less k t above in
    let (_, low, _, floors) = weighed_shares n (w ∷ ws) h weighed counts in
    simp counts (
      simp (sym floors) (
        round_shares-IsRounding n
          (map (raw_share n (weight_sum_of (w ∷ ws))) (map magnitude (w ∷ ws))) low))

-- Where the weights do not all vanish, each share of a target of `n` cents, `n` above 0 and below
-- 10 ^ 14, is the exact share `n * weight / sum` rounded down or the cent above that, in the order of
-- the weights; their sum is at most 10 ^ 14 units of its last digit.
pub largest_remainder_allocation-IsRounding :
    (target_amount w : Decimal) (ws : List Decimal) {n k t : ℕ}
    → target_cents_of target_amount ≡ pos n
    → IsShared n (w ∷ ws)
    → IsWeighed (w ∷ ws) k t
    → 0 < n
    → 0 < k
    → IsRounding
        (whole_shares n k (map (units t) (w ∷ ws)))
        (map (units 2) (largest_remainder_allocation target_amount (w ∷ ws)))
unfolding largest_remainder_allocation cent_shares
largest_remainder_allocation-IsRounding target_amount w ws {n = n} e h weighed some_cents above =
    let counts : ltb 0 n ≡ true = lt→ltb 0 n some_cents in
    rw (cents_units (cent_shares (target_cents_of target_amount) (w ∷ ws)), e)
      (simp counts (positive_shares-IsRounding n w ws h weighed above))
