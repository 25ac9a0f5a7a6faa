-- ===== src/Money/Decimals.antt =====
-- Python's finite `Decimal`, as an integer coefficient over a power of ten, with the operations that
-- the money code uses at the default context (28 digits, ROUND_HALF_UP where the source asks for it).
-- A `float` of a payload stands for the decimal that `Decimal(str(value))` reads from it.
use ynab_receipt_analyzer.Prelude.{
  ℕ, suc, ◌+◌, ◌-◌, ◌*◌, ◌/◌, ◌^◌, Bool, Option, none, some, List, [], ◌∷◌, leb, ltb, if◌then◌else◌,
}
use ynab_receipt_analyzer.Prelude.Int.{ℤ, pos, negsuc, neg, abs, ◌+ℤ◌, ltb_ℤ}

-- The number `coef / 10 ^ scale`.
pub record Decimal : Type 0 where
  pub coef : ℤ
  pub scale : ℕ

abbrev pub integral : ℕ → Decimal
integral n = record { coef = pos n; scale = 0 }

-- A function of the magnitude, with the sign kept. (Python's -0 compares as 0 and is 0 here.)
abbrev pub map_magnitude : (ℕ → ℕ) → ℤ → ℤ
map_magnitude f (pos n) = pos (f n)
map_magnitude f (negsuc n) = neg (pos (f (suc n)))

-- A magnitude with `k` decimal digits rounded off, ROUND_HALF_UP.
abbrev pub drop_digits : ℕ → ℕ → ℕ
drop_digits k n = (n + 10 ^ k / 2) / 10 ^ k

-- The coefficient of a magnitude at another scale.
unfoldable pub rescale : ℕ → ℕ → ℕ → ℕ
rescale places scale n =
    if leb scale places then n * 10 ^ (places - scale) else drop_digits (scale - places) n

abbrev pub precision_limit : ℕ
precision_limit = 10 ^ 28

-- `d.quantize(Decimal(1).scaleb(-places), rounding=ROUND_HALF_UP)`. `none` is `InvalidOperation`: the
-- result does not fit the context's precision.
unfoldable pub quantize : ℕ → Decimal → Option Decimal
quantize places d =
    let c = map_magnitude (rescale places d.scale) d.coef in
    if ltb (abs c) precision_limit then some (record { coef = c; scale = places }) else none

-- `int(d.to_integral_value(rounding=ROUND_HALF_UP))`, which has no limit of precision.
unfoldable pub to_integral : Decimal → ℤ
to_integral d = map_magnitude (rescale 0 d.scale) d.coef

-- `d * n` for a positive integer.
abbrev pub times : ℕ → Decimal → Decimal
times k d = record { coef = map_magnitude (λ n. n * k) d.coef; scale = d.scale }

abbrev pub is_negative : Decimal → Bool
is_negative d = ltb_ℤ d.coef (pos 0)

-- Addition and comparison at the larger scale. (The sums of the source stay within 28 digits.)
abbrev pub at_scale : ℕ → Decimal → ℤ
at_scale s d = map_magnitude (λ n. n * 10 ^ (s - d.scale)) d.coef

abbrev pub common_scale : Decimal → Decimal → ℕ
common_scale a b = if leb a.scale b.scale then b.scale else a.scale

unfoldable pub add : Decimal → Decimal → Decimal
unfolding ◌+ℤ◌
add a b = let s = common_scale a b in record { coef = at_scale s a +ℤ at_scale s b; scale = s }

unfoldable pub subtract : Decimal → Decimal → Decimal
unfolding ◌+ℤ◌
subtract a b =
    let s = common_scale a b in record { coef = at_scale s a +ℤ neg (at_scale s b); scale = s }

abbrev pub less : Decimal → Decimal → Bool
less a b = let s = common_scale a b in ltb_ℤ (at_scale s a) (at_scale s b)

-- `abs(d)`
abbrev pub magnitude : Decimal → Decimal
magnitude d = record { coef = pos (abs d.coef); scale = d.scale }

-- `sum(ds, Decimal("0"))`
unfoldable pub sum_from : Decimal → List Decimal → Decimal
sum_from acc [] = acc
sum_from acc (d ∷ ds) = sum_from (add acc d) ds
