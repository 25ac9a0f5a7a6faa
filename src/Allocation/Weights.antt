-- ===== src/Allocation/Weights.antt =====
-- The sum of weights of different scales, and the whole part of a share, in units of one scale
-- (`_largest_remainder_allocation` of apps/server/backend/app/services/allocation_workspace.py).
use native.Mathlib.Nat.{mul-le-mul_left, mul-lt-mul_of_pos_right}
use ynab_receipt_analyzer.Prelude.{
  ℕ, ◌+◌, ◌-◌, ◌*◌, ◌/◌, ◌^◌, ◌≤◌, ◌<◌, ◌≡◌, refl, ap, sym, ◌∙◌, arith, List, [], ◌∷◌, map, All,
}
use ynab_receipt_analyzer.Prelude.Int.{pos, abs, ◌+ℤ◌}
use ynab_receipt_analyzer.Money.Rounding.{pow_ten_pos}
use ynab_receipt_analyzer.Money.Decimals.{Decimal, common_scale, add, magnitude, sum_from}
use ynab_receipt_analyzer.Allocation.Division.{
  half_even, excess, digits, significant, multiply, divide,
}
use ynab_receipt_analyzer.Allocation.Quotients.{pow_add, unit_limit, digits-le, floor-significant}
use ynab_receipt_analyzer.Allocation.Shares.{floor, sum_ℕ, raw_share}

-- The magnitude of `d` in units of `10 ^ -scale`.
abbrev pub units : ℕ → Decimal → ℕ
units scale d = abs d.coef * 10 ^ (scale - d.scale)

pow_steps : (a b c : ℕ) → a ≤ b → b ≤ c → 10 ^ (b - a) * 10 ^ (c - b) ≡ 10 ^ (c - a)
pow_steps a b c h k =
    let parts : c - a ≡ (b - a) + (c - b) = omega arith in
    sym (ap (λ n. 10 ^ n) parts ∙ pow_add (b - a) (c - b))

power_zero : (s : ℕ) → 10 ^ (s - s) ≡ 1
power_zero s = let none_left : s - s ≡ 0 = omega arith in rw none_left refl

abbrev positive : ℕ → ℕ → Decimal
positive c s = record { coef = pos c; scale = s }

add-magnitude :
    (c s : ℕ) (d : Decimal)
    → let t = common_scale (positive c s) d in
      add (positive c s) (magnitude d) ≡ positive (c * 10 ^ (t - s) + units t d) t
unfolding add ◌+ℤ◌
add-magnitude c s d = ground arith

common_scale-bounds : (a b : Decimal) → (a.scale ≤ common_scale a b) × (b.scale ≤ common_scale a b)
common_scale-bounds a b = ground arith

-- `k` at the scale `t` is `c` at the scale `s` with the weights added.
abbrev pub IsSum : ℕ → ℕ → List Decimal → ℕ → ℕ → Type 0
IsSum c s ds k t =
    (s ≤ t) × (All (λ d. d.scale ≤ t) ds) × (k ≡ c * 10 ^ (t - s) + sum_ℕ (map (units t) ds))

add_step :
    (c m a b e f g rest k : ℕ)
    → k ≡ (c * a + m * b) * e + rest
    → a * e ≡ f
    → b * e ≡ g
    → k ≡ c * f + (m * g + rest)
add_step c m a b e f g rest k h p q = rw (← p, ← q) (grind arith)

pub sum_from-IsSum :
    (c s : ℕ) (ds : List Decimal)
    → (k : ℕ) × (t : ℕ) × (sum_from (positive c s) (map magnitude ds) ≡ positive k t)
      × IsSum c s ds k t
unfolding sum_from
sum_from-IsSum c s [] = (c, s, refl, (omega arith, tt, simp (power_zero s) (omega arith)))
sum_from-IsSum c s (d ∷ ds) =
    let u = common_scale (positive c s) d in
    let v = c * 10 ^ (u - s) + units u d in
    let (k, t, e, (far, all, total)) = sum_from-IsSum v u ds in
    let (low, high) = common_scale-bounds (positive c s) d in
    (
      k,
      t,
      ap (λ acc. sum_from acc (map magnitude ds)) (add-magnitude c s d) ∙ e,
      (
        omega arith,
        (omega arith, all),
        add_step c (abs d.coef) (10 ^ (u - s)) (10 ^ (u - d.scale)) (10 ^ (t - u)) (10 ^ (t - s))
            (10 ^ (t - d.scale)) _ k total (pow_steps s u t low far)
            (pow_steps d.scale u t high far),
      ),
    )

digits_lem : (n : ℕ) → n < 10 ^ 28 → excess n ≡ 0
digits_lem n h = let few = digits-le n 28 h in omega arith

half_even_one : (n : ℕ) → half_even n 1 ≡ n
unfolding half_even
half_even_one n = ground arith

multiply_exact :
    (n : ℕ) (d : Decimal)
    → n * abs d.coef < 10 ^ 28
    → multiply n d ≡ positive (n * abs d.coef) d.scale
unfolding multiply
multiply_exact n d h =
    simp (digits_lem (n * abs d.coef) h, half_even_one (n * abs d.coef))
      (ap (λ c. positive c d.scale) (omega arith))

common_scale-right : (a b : Decimal) → a.scale ≤ b.scale → common_scale a b ≡ b.scale
common_scale-right a b h = ground arith

divide_at :
    (n s k t : ℕ)
    → s ≤ t
    → divide (positive n s) (positive k t) ≡ significant (n * 10 ^ (t - s)) k (28 + digits k)
unfolding divide
divide_at n s k t h =
    let same : k * 10 ^ (t - t) ≡ k = simp (power_zero t) (omega arith) in
    simp (common_scale-right (positive n s) (positive k t) h, same) refl

product_bound :
    (target k c p : ℕ)
    → target < unit_limit
    → k ≤ unit_limit
    → 0 < p
    → c * p ≤ k
    → 0 < k
    → (target * c < 10 ^ 28) × (target * c * p < unit_limit * k)
product_bound target k c p h b l m o =
    let small : c ≤ k = grind arith in
    let assoc : target * c * p ≡ target * (c * p) = grind arith in
    let step = mul-le-mul_left target m in
    let scaled : target * c * p ≤ target * k = omega arith in
    let low : target * c ≤ target * k = mul-le-mul_left target small in
    let top : target * k < unit_limit * k = mul-lt-mul_of_pos_right h o in
    let most : unit_limit * k ≤ unit_limit * unit_limit = mul-le-mul_left unit_limit b in
    (omega arith, omega arith)

-- Below the bounds the whole part of a share is that of the exact quotient.
pub floor-raw_share :
    (target k t : ℕ) (weight : Decimal)
    → 0 < k
    → k ≤ unit_limit
    → target < unit_limit
    → weight.scale ≤ t
    → units t weight ≤ k
    → floor (raw_share target (positive k t) weight) ≡ target * units t weight / k
unfolding raw_share
floor-raw_share target k t weight h b l n m =
    let (fits, below) =
      product_bound target k (abs weight.coef) (10 ^ (t - weight.scale)) l b
        (pow_ten_pos (t - weight.scale)) m h in
    let shape : target * abs weight.coef * 10 ^ (t - weight.scale) ≡ target * units t weight =
      grind arith in
    simp
      (multiply_exact target weight fits, divide_at (target * abs weight.coef) weight.scale k t n)
      (floor-significant (target * abs weight.coef * 10 ^ (t - weight.scale)) k (28 + digits k) h b
          below (omega arith)
        ∙ ap (λ n. n / k) shape)
