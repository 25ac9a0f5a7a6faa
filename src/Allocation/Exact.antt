-- ===== src/Allocation/Exact.antt =====
-- The remainder of the whole cents in `_largest_remainder_allocation`
-- (apps/server/backend/app/services/allocation_workspace.py).
use native.Mathlib.Nat.{mod-lt, le_of_mul-le-mul_right}
use native.Mathlib.Omega.{div_any}
use ynab_receipt_analyzer.Prelude.{
  ℕ, zero, suc, ◌+◌, ◌-◌, ◌*◌, ◌/◌, ◌≤◌, ◌<◌, ◌≡◌, refl, ap, sym, ◌∙◌, arith, List, [], ◌∷◌, map,
  All, length, take, true,
}
use ynab_receipt_analyzer.Prelude.Int.{pos, sub_ℕ, abs}
use ynab_receipt_analyzer.Money.Rounding.{pow_ten_pos}
use ynab_receipt_analyzer.Money.Decimals.{Decimal, less, integral, magnitude}
use ynab_receipt_analyzer.Allocation.Quotients.{unit_limit, mul_pos}
use ynab_receipt_analyzer.Allocation.Weights.{units, sum_from-IsSum, floor-raw_share}
use ynab_receipt_analyzer.Allocation.Raised.{
  count, bump_each-raised, raised-IsRounding, IsRounding, sum-bump_each,
}
use ynab_receipt_analyzer.Allocation.Sorted.{
  indices, length-sort, count-sort, All-sort, All-take, count-take, length-indices-take,
  indices-fractions, length-fractions, All-range, count-range, length-range,
}
use ynab_receipt_analyzer.Allocation.Shares.{
  sum_ℕ, floor, bump_each, range_from, sort_fractions, fractions_from, slice_to, round_shares,
  equal_shares, raw_share, weight_sum_of,
}

pub length-map {ℓ κ} :
    {A : Type ℓ} {B : Type κ} (f : A → B) (xs : List A) → length (map f xs) ≡ length xs
length-map f [] = refl
length-map f (x ∷ xs) = ap suc (length-map f xs)

sub_ℕ-le : (a b : ℕ) → b ≤ a → sub_ℕ a b ≡ pos (a - b)
sub_ℕ-le a b h = ground arith

-- The rows that get a cent, for a remainder of `r`.
abbrev chosen : ℕ → List Decimal → List ℕ
chosen r shares = indices (take r (sort_fractions (fractions_from 0 shares)))

round_shares-eq :
    (n : ℕ) (shares : List Decimal)
    → sum_ℕ (map floor shares) ≤ n
    → round_shares n shares
      ≡ bump_each (chosen (n - sum_ℕ (map floor shares)) shares) (map floor shares)
unfolding round_shares slice_to
round_shares-eq n shares h = simp (sub_ℕ-le n (sum_ℕ (map floor shares)) h) refl

chosen-range : (r : ℕ) (shares : List Decimal) → All (λ i. i < length shares) (chosen r shares)
chosen-range r shares = All-take (length shares) r (sort_fractions (fractions_from 0 shares)) (
    All-sort (length shares) (fractions_from 0 shares)
      (rw (indices-fractions 0 shares) (All-range 0 (length shares) (length shares) (omega arith))))

length-chosen : (r : ℕ) (shares : List Decimal) → r ≤ length shares → length (chosen r shares) ≡ r
length-chosen r shares h =
    let size = length-sort (fractions_from 0 shares) ∙ length-fractions 0 shares in
    length-indices-take r (sort_fractions (fractions_from 0 shares)) (omega arith)

chosen-once : (r : ℕ) (shares : List Decimal) (i : ℕ) → count i (chosen r shares) ≤ 1
chosen-once r shares i =
    let taken = count-take i r (sort_fractions (fractions_from 0 shares)) in
    let sorted = count-sort i (fractions_from 0 shares) in
    let positions = ap (count i) (indices-fractions 0 shares) in
    let single = count-range i 0 (length shares) in omega arith

pub sum-round_shares :
    (n : ℕ) (shares : List Decimal)
    → sum_ℕ (map floor shares) ≤ n
    → n ≤ sum_ℕ (map floor shares) + length shares
    → sum_ℕ (round_shares n shares) ≡ n
sum-round_shares n shares h k =
    let r = n - sum_ℕ (map floor shares) in
    let size = length-chosen r shares (omega arith) in
    let total =
      sum-bump_each (chosen r shares) (map floor shares) (length shares) (length-map floor shares)
        (chosen-range r shares) in
    rw (round_shares-eq n shares h) (omega arith)

pub round_shares-IsRounding :
    (n : ℕ) (shares : List Decimal)
    → sum_ℕ (map floor shares) ≤ n
    → IsRounding (map floor shares) (round_shares n shares)
round_shares-IsRounding n shares h =
    let r = n - sum_ℕ (map floor shares) in
    rw (round_shares-eq n shares h, bump_each-raised (chosen r shares) (map floor shares))
      (raised-IsRounding (chosen r shares) 0 (map floor shares) (chosen-once r shares))

-- The whole parts of the shares of the units, and the sum of the units.
abbrev pub whole_shares : ℕ → ℕ → List ℕ → List ℕ
whole_shares n k = map (λ u. n * u / k)

whole_shares-bounds :
    (n k : ℕ) (us : List ℕ)
    → 0 < k
    → (sum_ℕ (whole_shares n k us) * k ≤ n * sum_ℕ us)
      × (n * sum_ℕ us ≤ (sum_ℕ (whole_shares n k us) + length us) * k)
whole_shares-bounds n k [] h = (omega arith, omega arith)
whole_shares-bounds n k (u ∷ us) h =
    let (low, high) = whole_shares-bounds n k us h in
    let split = div_any (n * u) k in let small = mod-lt (n * u) h in (grind arith, grind arith)

floor-shares :
    (n k t : ℕ) (ws : List Decimal)
    → 0 < k
    → k ≤ unit_limit
    → n < unit_limit
    → All (λ d. d.scale ≤ t) ws
    → sum_ℕ (map (units t) ws) ≤ k
    → map floor (map (raw_share n (record { coef = pos k; scale = t })) (map magnitude ws))
      ≡ whole_shares n k (map (units t) ws)
floor-shares n k t [] h b l fits most = refl
floor-shares n k t (w ∷ ws) h b l (fit, fits) most =
    simp
      (
        floor-raw_share n k t (magnitude w) h b l fit (omega arith),
        floor-shares n k t ws h b l fits (omega arith),
      )
      refl

pub sum_constant : (c : ℕ) (ws : List Decimal) → sum_ℕ (map (λ weight. c) ws) ≡ c * length ws
sum_constant c [] = omega arith
sum_constant c (w ∷ ws) = let rest = sum_constant c ws in grind arith

pub equal_shares-sum :
    (n : ℕ) (w : Decimal) (ws : List Decimal) → sum_ℕ (equal_shares n (w ∷ ws)) ≡ n
unfolding equal_shares
equal_shares-sum n w ws =
    let size = length (w ∷ ws) in
    let base = n / size in
    let split = div_any n size in
    let small = mod-lt n {m = size} (omega arith) in
    let flat = sum_constant base (w ∷ ws) in
    let total =
      sum-bump_each (range_from 0 (n - base * size)) (map (λ weight. base) (w ∷ ws)) size
        (length-map (λ weight. base) (w ∷ ws)) (All-range 0 (n - base * size) size (grind arith)) in
    let count_up = length-range 0 (n - base * size) in
    let whole : base * size ≤ n = grind arith in omega arith

round_raw_shares :
    (n k t : ℕ) (ws : List Decimal)
    → 0 < k
    → k ≤ unit_limit
    → n < unit_limit
    → All (λ d. d.scale ≤ t) ws
    → sum_ℕ (map (units t) ws) ≡ k
    → let shares = map (raw_share n (record { coef = pos k; scale = t })) (map magnitude ws) in
      (sum_ℕ (map floor shares) ≤ n) × (n ≤ sum_ℕ (map floor shares) + length shares)
round_raw_shares n k t ws h b l fits total =
    let (low, high) = whole_shares-bounds n k (map (units t) ws) h in
    let floors = floor-shares n k t ws h b l fits (omega arith) in
    let size =
      length-map (raw_share n (record { coef = pos k; scale = t })) (map magnitude ws)
      ∙ length-map magnitude ws in
    let product = ap (λ v. n * v) total in
    let size' = length-map (units t) ws in
    let low' : sum_ℕ (whole_shares n k (map (units t) ws)) * k ≤ n * k = omega arith in
    let high' : n * k
        ≤ (sum_ℕ (whole_shares n k (map (units t) ws)) + length (map (units t) ws)) * k =
      omega arith in
    let least = le_of_mul-le-mul_right low' h in
    let most = le_of_mul-le-mul_right high' h in rw floors (omega arith)

-- What is shared: the target in cents, the sum of the weights and the bound of both.
abbrev pub IsShared : ℕ → List Decimal → Type 0
IsShared n ws = (n < unit_limit) × (abs (weight_sum_of ws).coef ≤ unit_limit)

-- The sum `k / 10 ^ t` of the weights, and their whole parts.
abbrev pub IsWeighed : List Decimal → ℕ → ℕ → Type 0
IsWeighed ws k t =
    (weight_sum_of ws ≡ record { coef = pos k; scale = t })
    × All (λ d. d.scale ≤ t) ws
    × (sum_ℕ (map (units t) ws) ≡ k)

pub weights-IsWeighed : (ws : List Decimal) → (k : ℕ) × (t : ℕ) × IsWeighed ws k t
weights-IsWeighed ws =
    let (k, t, e, (far, fits, total)) = sum_from-IsSum 0 0 ws in (k, t, (e, fits, omega arith))

less-positive : (k t : ℕ) → less (integral 0) (record { coef = pos k; scale = t }) ≡ true → 0 < k
less-positive zero t h = ground arith
less-positive (suc k) t h = omega arith

pub positive-less :
    (k t : ℕ) → 0 < k → less (integral 0) (record { coef = pos k; scale = t }) ≡ true
positive-less k t h = let top = mul_pos h (pow_ten_pos (t - t)) in ground arith

pub weighed_shares :
    (n : ℕ) (ws : List Decimal) {k t : ℕ}
    → IsShared n ws
    → IsWeighed ws k t
    → less (integral 0) (weight_sum_of ws) ≡ true
    → let shares = map (raw_share n (weight_sum_of ws)) (map magnitude ws) in
      (0 < k)
      × (sum_ℕ (map floor shares) ≤ n)
      × (n ≤ sum_ℕ (map floor shares) + length shares)
      × (map floor shares ≡ whole_shares n k (map (units t) ws))
weighed_shares n ws {k = k} {t = t} (l, b) (e, fits, total) f =
    let above = less-positive k t (sym (ap (less (integral 0)) e) ∙ f) in
    let same = ap (λ d. abs d.coef) e in
    let bounded : k ≤ unit_limit = omega arith in
    let (low, high) = round_raw_shares n k t ws above bounded l fits total in
    rw e (above, low, high, floor-shares n k t ws above bounded l fits (omega arith))
