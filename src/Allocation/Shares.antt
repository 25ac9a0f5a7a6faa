-- ===== src/Allocation/Shares.antt =====
-- `_largest_remainder_allocation`: an amount over weights, to the cent
-- (apps/server/backend/app/services/allocation_workspace.py).
use ynab_receipt_analyzer.Prelude.{
  ℕ, zero, suc, ◌+◌, ◌-◌, ◌*◌, ◌/◌, ◌^◌, List, [], ◌∷◌, map, length, take, ltb, if◌then◌else◌,
}
use ynab_receipt_analyzer.Prelude.Int.{ℤ, pos, negsuc, abs, sub_ℕ}
use ynab_receipt_analyzer.Money.Decimals.{
  Decimal, integral, to_integral, times, subtract, less, magnitude, sum_from,
}
use ynab_receipt_analyzer.Allocation.Division.{multiply, divide}

-- `int(d.to_integral_value(rounding=ROUND_FLOOR))` of a magnitude.
unfoldable pub floor : Decimal → ℕ
floor d = abs d.coef / 10 ^ d.scale

abbrev pub sum_ℕ : List ℕ → ℕ
sum_ℕ [] = 0
sum_ℕ (n ∷ ns) = n + sum_ℕ ns

-- `values[index] += 1`
unfoldable pub bump : ℕ → List ℕ → List ℕ
bump i [] = []
bump zero (v ∷ vs) = suc v ∷ vs
bump (suc i) (v ∷ vs) = v ∷ bump i vs

unfoldable pub bump_each : List ℕ → List ℕ → List ℕ
bump_each [] values = values
bump_each (i ∷ indices) values = bump_each indices (bump i values)

-- `range(start, start + n)`
abbrev pub range_from : ℕ → ℕ → List ℕ
range_from start zero = []
range_from start (suc n) = start ∷ range_from (suc start) n

-- `xs[:k]`
unfoldable pub slice_to {ℓ} : {A : Type ℓ} → ℤ → List A → List A
slice_to (pos n) xs = take n xs
slice_to (negsuc n) xs = take (length xs - suc n) xs

-- A row of `fractions`.
pub record Fraction : Type 0 where
  pub fraction : Decimal
  pub index : ℕ

-- `fractions.sort(key=lambda row: row[0], reverse=True)`, which keeps the order of equal rows.
unfoldable pub insert_fraction : Fraction → List Fraction → List Fraction
insert_fraction row [] = row ∷ []
insert_fraction row (next ∷ rows) =
    let rest = insert_fraction row rows in
    if less row.fraction next.fraction then next ∷ rest else row ∷ next ∷ rows

unfoldable pub sort_fractions : List Fraction → List Fraction
sort_fractions [] = []
sort_fractions (row ∷ rows) = insert_fraction row (sort_fractions rows)

unfoldable pub fractions_from : ℕ → List Decimal → List Fraction
fractions_from i [] = []
fractions_from i (share ∷ shares) =
    record { fraction = subtract share (integral (floor share)); index = i }
    ∷ fractions_from (suc i) shares

-- The whole cents of each share, and one more for the first of the sorted fractions.
unfoldable pub round_shares : ℕ → List Decimal → List ℕ
round_shares target_cents shares =
    let floors = map floor shares in
    let remainder_cents = sub_ℕ target_cents (sum_ℕ floors) in
    bump_each
      (map (λ row. row.index) (slice_to remainder_cents (sort_fractions (fractions_from 0 shares))))
      floors

-- The split where no weight counts: the same for all, and one cent more for the first.
unfoldable pub equal_shares : ℕ → List Decimal → List ℕ
equal_shares target_cents weights =
    let base = target_cents / length weights in
    let remainder = target_cents - base * length weights in
    bump_each (range_from 0 remainder) (map (λ weight. base) weights)

unfoldable pub raw_share : ℕ → Decimal → Decimal → Decimal
raw_share target_cents weight_sum weight = divide (multiply target_cents weight) weight_sum

abbrev pub weight_sum_of : List Decimal → Decimal
weight_sum_of weights = sum_from (integral 0) (map magnitude weights)

-- The shares in cents of a target above 0.
unfoldable pub positive_shares : ℕ → List Decimal → List ℕ
positive_shares target_cents weights =
    let normalized_weights = map magnitude weights in
    let weight_sum = weight_sum_of weights in
    if less (integral 0) weight_sum
    then round_shares target_cents (map (raw_share target_cents weight_sum) normalized_weights)
    else equal_shares target_cents weights

abbrev pub cents : ℕ → Decimal
cents n = record { coef = pos n; scale = 2 }

-- The shares in cents; none of a target that is not above 0.
unfoldable pub cent_shares : ℤ → List Decimal → List ℕ
cent_shares (pos target_cents) weights =
    if ltb 0 target_cents then positive_shares target_cents weights else map (λ weight. 0) weights
cent_shares (negsuc n) weights = map (λ weight. 0) weights

-- `int((target_amount * 100).quantize(Decimal("1"), rounding=ROUND_HALF_UP))`. The target is rounded to
-- cents before, so this is exact and fits.
abbrev pub target_cents_of : Decimal → ℤ
target_cents_of target_amount = to_integral (times 100 target_amount)

unfoldable pub largest_remainder_allocation : Decimal → List Decimal → List Decimal
largest_remainder_allocation target_amount [] = []
largest_remainder_allocation target_amount (w ∷ ws) =
    map cents (cent_shares (target_cents_of target_amount) (w ∷ ws))
