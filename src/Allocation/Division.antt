-- ===== src/Allocation/Division.antt =====
-- Multiplication and division of Python's `Decimal` at the default context: 28 significant digits,
-- ROUND_HALF_EVEN. The operands are magnitudes; a result is its value at some power of ten.
use ynab_receipt_analyzer.Prelude.{ℕ, zero, suc, ◌+◌, ◌-◌, ◌*◌, ◌/◌, ◌%◌, ◌^◌, ltb, if◌then◌else◌}
use ynab_receipt_analyzer.Prelude.Int.{pos, abs}
use ynab_receipt_analyzer.Money.Decimals.{Decimal, at_scale, common_scale}

-- `a / b`, rounded to the nearest integer, and to the even one of two that are as near.
unfoldable pub half_even : ℕ → ℕ → ℕ
half_even a b =
    if ltb (2 * (a % b)) b
    then a / b
    else if ltb b (2 * (a % b))
    then a / b + 1
    else a / b + (a / b) % 2

-- The number of decimal digits of `n`, at most the fuel.
unfoldable pub digits_within : ℕ → ℕ → ℕ
digits_within zero n = 0
digits_within (suc fuel) n = elim n [ zero ↦ 0 | suc m ↦ suc (digits_within fuel (suc m / 10)) ]

abbrev pub digits : ℕ → ℕ
digits n = digits_within n n

-- The digits of a number beyond the first 28.
abbrev pub excess : ℕ → ℕ
excess n = digits n - 28

-- `num / den`, rounded to 28 significant digits, at the scale `places`.
unfoldable pub significant : ℕ → ℕ → ℕ → Decimal
significant num den places =
    let n = num * 10 ^ places in
    let j = excess (n / den) in
    record { coef = pos (half_even n (den * 10 ^ j) * 10 ^ j); scale = places }

-- `n * d` for an integral `n`.
unfoldable pub multiply : ℕ → Decimal → Decimal
multiply n d =
    let product = n * abs d.coef in
    let j = excess product in
    record { coef = pos (half_even product (10 ^ j) * 10 ^ j); scale = d.scale }

-- `a / b` for `b` other than 0, at a scale that holds 28 significant digits of every quotient.
unfoldable pub divide : Decimal → Decimal → Decimal
divide a b =
    let s = common_scale a b in
    let den = abs (at_scale s b) in significant (abs (at_scale s a)) den (28 + digits den)
