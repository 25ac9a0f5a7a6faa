-- ===== src/Allocation/Quotients.antt =====
-- The rounded quotients of `_largest_remainder_allocation` at 28 digits
-- (apps/server/backend/app/services/allocation_workspace.py).
use native.Mathlib.Nat.{
  pow-suc, mod-lt, pow-le-pow_right, mul-le-mul_right, mul-lt-mul_of_pos_right,
  le_of_mul-le-mul_right, mul-lt-mul_of_pos_right, lt_of_mul-lt-mul_right, le-div_iff_mul-le,
  div-lt_iff_lt-mul,
}
use native.Mathlib.Omega.{div_any}
use ynab_receipt_analyzer.Prelude.{
  ℕ, zero, suc, ◌+◌, ◌-◌, ◌*◌, ◌/◌, ◌%◌, ◌^◌, ◌≤◌, ◌<◌, ◌≡◌, refl, ap, ◌∙◌, arith, Bool-cases, inl,
  inr, ltb,
}
use ynab_receipt_analyzer.Money.Rounding.{pow_ten_pos}
use ynab_receipt_analyzer.Allocation.Division.{
  half_even, digits_within, digits, excess, significant,
}
use ynab_receipt_analyzer.Allocation.Shares.{floor}

-- `q` is a nearest integer to `a / b`.
abbrev IsNearest : ℕ → ℕ → ℕ → Type 0
IsNearest a b q = (2 * (q * b) ≤ 2 * a + b) × (2 * a ≤ 2 * (q * b) + b)

parts-IsNearest :
    (a b q r h e : ℕ)
    → b * q + r ≡ a
    → r < b
    → h ≡ q + e
    → e ≤ 1
    → (e ≡ 0 → 2 * r ≤ b)
    → (e ≡ 1 → b ≤ 2 * r)
    → IsNearest a b h
parts-IsNearest a b q r h zero k l m n o p = rw m (grind (arith, k, o refl))
parts-IsNearest a b q r h (suc zero) k l m n o p = rw m (grind (arith, k, p refl))
parts-IsNearest a b q r h (suc (suc e)) k l m n o p = omega arith

half_even-IsNearest : (a b : ℕ) → 0 < b → IsNearest a b (half_even a b)
unfolding half_even
half_even-IsNearest a b h =
    let whole = div_any a b in
    let small = mod-lt a h in
    elim (Bool-cases (ltb (2 * (a % b)) b)) [
      | inl e ↦
          parts-IsNearest a b (a / b) (a % b) _ 0 whole small (simp e (omega arith)) (omega arith)
            (ground arith) (omega arith)
      | inr e ↦ elim (Bool-cases (ltb b (2 * (a % b)))) [
        | inl f ↦
            parts-IsNearest a b (a / b) (a % b) _ 1 whole small (simp (e, f) refl) (omega arith)
              (omega arith) (ground arith)
        | inr f ↦
            parts-IsNearest a b (a / b) (a % b) _ ((a / b) % 2) whole small (simp (e, f) refl)
              (omega arith) (ground arith) (ground arith)
      ]
    ]

digits_within-zero : (fuel : ℕ) → digits_within fuel 0 ≡ 0
unfolding digits_within
digits_within-zero zero = refl
digits_within-zero (suc fuel) = refl

no_digits : (fuel n : ℕ) → n ≡ 0 → digits_within fuel n ≡ 0
no_digits fuel n h = rw h (digits_within-zero fuel)

digits_of_zero : (fuel n : ℕ) → n ≡ 0 → 10 ^ digits_within fuel n ≡ 1
digits_of_zero fuel n h = rw (no_digits fuel n h) refl

spans_step :
    (m q p : ℕ)
    → q ≡ suc m / 10
    → q < p
    → (0 < q → p ≤ 10 * q)
    → (q ≡ 0 → p ≡ 1)
    → (suc m < p * 10) × (0 < suc m → p * 10 ≤ 10 * suc m)
spans_step m zero p e below above blank = rw (blank refl) (omega arith)
spans_step m (suc q) p e below above blank = let bound = above (omega arith) in omega arith

digits_within-Spans :
    (fuel n : ℕ)
    → n ≤ fuel
    → (n < 10 ^ digits_within fuel n) × (0 < n → 10 ^ digits_within fuel n ≤ 10 * n)
unfolding digits_within
digits_within-Spans zero n h = (omega arith, omega arith)
digits_within-Spans (suc fuel) zero h = (omega arith, omega arith)
digits_within-Spans (suc fuel) (suc m) h =
    let (below, above) = digits_within-Spans fuel (suc m / 10) (omega arith) in
    rw (pow-suc 10 (digits_within fuel (suc m / 10))) (
      spans_step m (suc m / 10) (10 ^ digits_within fuel (suc m / 10)) refl below above
        (digits_of_zero fuel (suc m / 10)))

-- A scaled nearest quotient lies between the whole parts.
nearest_below : (a b f q m : ℕ) → b * f ≤ a → IsNearest (a * m) b q → 0 < b → f * m ≤ q
nearest_below a b f q m h near k =
    let scaled = mul-le-mul_right m h in
    let twice : (2 * (f * m)) * b ≤ (2 * q + 1) * b = grind arith in
    let bound = le_of_mul-le-mul_right twice k in omega arith

nearest_above :
    (a b f q m : ℕ) → a < b * suc f → IsNearest (a * m) b q → 0 < b → b ≤ m → q < suc f * m
nearest_above a b f q m h near k l =
    let scaled = mul-le-mul_right m h in
    let below : q * b < (suc f * m) * b = grind arith in lt_of_mul-lt-mul_right b below

div_unique : (x p f : ℕ) → 0 < p → f * p ≤ x → x < suc f * p → x / p ≡ f
div_unique x p f h k l =
    let (_, least) = le-div_iff_mul-le h in
    let (_, most) = div-lt_iff_lt-mul h in
    let low : f ≤ x / p = least k in let high : x / p < suc f = most l in omega arith

IsNearest-cancel : (a b q j : ℕ) → 0 < j → IsNearest (a * j) (b * j) q → IsNearest a b q
IsNearest-cancel a b q j h near =
    let low : (2 * (q * b)) * j ≤ (2 * a + b) * j = grind arith in
    let high : (2 * a) * j ≤ (2 * (q * b) + b) * j = grind arith in
    (le_of_mul-le-mul_right low h, le_of_mul-le-mul_right high h)

-- A quotient that is rounded to a multiple of `j`, at the scale `m * j`, keeps its whole part.
whole_part :
    (a b m j q : ℕ)
    → 0 < b
    → b ≤ m
    → 0 < j
    → IsNearest (a * m * j) (b * j) q
    → q * j / (m * j) ≡ a / b
whole_part a b m j q h k l near =
    let nearest = IsNearest-cancel (a * m) b q j l near in
    let split = div_any a b in
    let small = mod-lt a h in
    let low = nearest_below a b (a / b) q m (omega arith) nearest h in
    let high = nearest_above a b (a / b) q m (grind arith) nearest h k in
    let low_scaled = mul-le-mul_right j low in
    let high_scaled = mul-lt-mul_of_pos_right high l in
    div_unique (q * j) (m * j) (a / b) (grind arith) (grind arith) (grind arith)

pub pow_add : (a b : ℕ) → 10 ^ (a + b) ≡ 10 ^ a * 10 ^ b
pow_add zero b = let none_left : 0 + b ≡ b = omega arith in rw none_left (omega arith)
pow_add (suc a) b =
    let shape : suc a + b ≡ suc (a + b) = omega arith in
    rw (shape, pow-suc 10 (a + b), pow-suc 10 a, pow_add a b) (grind arith)

pub pow_split : (a b : ℕ) → b ≤ a → 10 ^ a ≡ 10 ^ (a - b) * 10 ^ b
pow_split a b h =
    let parts : a ≡ (a - b) + b = omega arith in ap (λ k. 10 ^ k) parts ∙ pow_add (a - b) b

pub mul_pos : {a b : ℕ} → 0 < a → 0 < b → 0 < a * b
mul_pos h k = grind arith

digits-Spans : (n : ℕ) → (n < 10 ^ digits n) × (0 < n → 10 ^ digits n ≤ 10 * n)
digits-Spans n = digits_within-Spans n n (omega arith)

pub pow_le : (a b : ℕ) → a ≤ b → 10 ^ a ≤ 10 ^ b
pow_le a b h = pow-le-pow_right (omega arith) h

-- A number below a power of ten has no more digits.
pub digits-le : (n k : ℕ) → n < 10 ^ k → digits n ≤ k
digits-le zero k h = rw (digits_within-zero 0) (omega arith)
digits-le (suc n) k h = elim (Bool-cases (ltb k (digits (suc n)))) [
  | inl e ↦
      let (_, above) = digits-Spans (suc n) in
      let longer = pow_le (suc k) (digits (suc n)) (ground arith) in
      let power = pow-suc 10 k in omega arith
  | inr e ↦ ground arith
]

-- The bound of the amounts, in cents or other units.
abbrev pub unit_limit : ℕ
unit_limit = 10 ^ 14

excess-le :
    (a b places : ℕ) → 0 < b → a < unit_limit * b → excess ((a * 10 ^ places) / b) ≤ places - 14
excess-le a b places h k =
    let power = pow_add 14 places in
    let scaled = mul-lt-mul_of_pos_right k (pow_ten_pos places) in
    let (_, most) = div-lt_iff_lt-mul h in
    let short : a * 10 ^ places / b < 10 ^ (14 + places) = most (simp power (grind arith)) in
    let few = digits-le (a * 10 ^ places / b) (14 + places) short in omega arith

-- The same, with the scale given by an equation.
whole_part_at :
    (a b m j p q : ℕ)
    → 0 < b
    → b ≤ m
    → 0 < j
    → p ≡ m * j
    → IsNearest (a * p) (b * j) q
    → q * j / p ≡ a / b
whole_part_at a b m j p q h k l e near =
    let shape : a * p ≡ a * m * j = rw e (grind arith) in
    rw e (whole_part a b m j q h k l (omega arith))

-- The whole part of a quotient of 28 digits, for a divisor and a quotient below the bound.
pub floor-significant :
    (a b places : ℕ)
    → 0 < b
    → b ≤ unit_limit
    → a < unit_limit * b
    → 14 ≤ places
    → floor (significant a b places) ≡ a / b
unfolding floor significant
floor-significant a b places h k l n =
    let j = excess (a * 10 ^ places / b) in
    let few : j ≤ places - 14 = excess-le a b places h l in
    let wide : unit_limit ≤ 10 ^ (places - j) = pow_le 14 (places - j) (omega arith) in
    let positive : 0 < b * 10 ^ j = mul_pos h (pow_ten_pos j) in
    whole_part_at a b (10 ^ (places - j)) (10 ^ j) (10 ^ places)
      (half_even (a * 10 ^ places) (b * 10 ^ j)) h (omega arith) (pow_ten_pos j)
      (pow_split places j (omega arith))
      (half_even-IsNearest (a * 10 ^ places) (b * 10 ^ j) positive)
