-- ===== src/Money/Rounding.antt =====
-- The rounding of the conversion between dollars and milliunits
-- (apps/server/shared/receipt_shared/money.py).
use native.Mathlib.Nat.{pow-suc, le_of_mul-le-mul_right}
use ynab_receipt_analyzer.Prelude.{
  ℕ, zero, suc, ◌+◌, ◌-◌, ◌*◌, ◌/◌, ◌^◌, ◌≤◌, ◌<◌, ◌≡◌, refl, ap, Bool, true, false, arith, some,
  ◌∙◌,
}
use ynab_receipt_analyzer.Prelude.Int.{ℤ, pos, negsuc, neg, abs, ◌≤ℤ◌, ltb_ℤ}
use ynab_receipt_analyzer.Money.Decimals.{
  Decimal, quantize, to_integral, rescale, drop_digits, times, magnitude, is_negative,
  precision_limit,
}
use ynab_receipt_analyzer.Money.{ok, directed, dollars_to_milliunits, milliunits_to_dollars}

-- An integral number of thousandths is its own integral value after the scaling by 1000.
to_integral-times : (n : ℕ) → to_integral (times 1000 (record { coef = pos n; scale = 3 })) ≡ pos n
unfolding to_integral rescale
to_integral-times n = ap pos (omega arith)

ten_cubed : (k : ℕ) → 10 ^ (suc (suc (suc k))) ≡ 1000 * 10 ^ k
ten_cubed k = simp pow-suc (omega arith)

drop_digits_nearest :
    (B n : ℕ)
    → 0 < B
    → B * 1 ≡ B
    → (2 * ((n + B / 2) / B * B) ≤ 2 * n + B) × (2 * n ≤ 2 * ((n + B / 2) / B * B) + B)
drop_digits_nearest B n h e = grind arith

-- `x` milliunits are the nearest to `n / 10 ^ s` dollars: they differ by at most half a milliunit.
abbrev pub IsNearest : ℕ → ℕ → ℕ → Type 0
IsNearest s n x =
    (2 * (x * 10 ^ s) ≤ 2 * (1000 * n) + 10 ^ s) × (2 * (1000 * n) ≤ 2 * (x * 10 ^ s) + 10 ^ s)

rescale-eq_drop_digits :
    (s n k : ℕ) → 3 < s → s ≡ suc (suc (suc k)) → rescale 3 s n ≡ drop_digits k n
unfolding rescale
rescale-eq_drop_digits s n k h e = let deep : s - 3 ≡ k = omega arith in rw (← deep) (ground arith)

rescale_deep : (k n : ℕ) → rescale 3 (suc (suc (suc k))) n ≡ drop_digits k n
unfolding rescale
rescale_deep zero n = omega arith
rescale_deep (suc k) n = rescale-eq_drop_digits _ n (suc k) (omega arith) refl

pub pow_ten_pos : (k : ℕ) → 0 < 10 ^ k
pow_ten_pos zero = omega arith
pow_ten_pos (suc k) = rw pow-suc (omega (arith, pow_ten_pos k))

rescale-IsNearest : (s n : ℕ) → IsNearest s n (rescale 3 s n)
unfolding rescale
rescale-IsNearest zero n = omega arith
rescale-IsNearest (suc zero) n = omega arith
rescale-IsNearest (suc (suc zero)) n = omega arith
rescale-IsNearest (suc (suc (suc k))) n =
    rw (rescale_deep k n, ten_cubed k)
      (omega (arith, drop_digits_nearest (10 ^ k) n (pow_ten_pos k) (omega arith)))

-- What a conversion that does not raise returns.
abbrev IsConverted : Decimal → Bool → ℤ → Type 0
IsConverted d outflow m =
    (m ≡ directed outflow (pos (rescale 3 d.scale (abs d.coef))))
    × (rescale 3 d.scale (abs d.coef) < precision_limit)

converted :
    (c : ℤ) (s : ℕ) (outflow : Bool) {m : ℤ}
    → dollars_to_milliunits (record { coef = c; scale = s }) outflow ≡ ok m
    → IsConverted (record { coef = c; scale = s }) outflow m
unfolding dollars_to_milliunits quantize
converted (pos n) s outflow h = ground (arith, to_integral-times (rescale 3 s n))
converted (negsuc n) s outflow h = ground (arith, to_integral-times (rescale 3 s (suc n)))

dollars_to_milliunits-IsConverted :
    (d : Decimal) (outflow : Bool) {m : ℤ}
    → dollars_to_milliunits d outflow ≡ ok m
    → IsConverted d outflow m
dollars_to_milliunits-IsConverted d outflow h = converted d.coef d.scale outflow h

rescale_same : (n : ℕ) → rescale 3 3 n ≡ n
unfolding rescale
rescale_same n = omega arith

abs-directed : (outflow : Bool) (n : ℕ) → abs (directed outflow (pos n)) ≡ n
abs-directed outflow zero = ground arith
abs-directed outflow (suc n) = ground arith

-- A conversion that does not raise returns the milliunits nearest to the amount, and the sign says the
-- direction: at most zero for an outflow, at least zero for an inflow.
pub dollars_to_milliunits-IsNearest :
    (d : Decimal) (outflow : Bool) {m : ℤ}
    → dollars_to_milliunits d outflow ≡ ok m
    → IsNearest d.scale (abs d.coef) (abs m)
      × (outflow ≡ true → m ≤ℤ pos 0)
      × (outflow ≡ false → pos 0 ≤ℤ m)
dollars_to_milliunits-IsNearest d outflow h =
    let (e, _) = dollars_to_milliunits-IsConverted d outflow h in
    let near = rescale-IsNearest d.scale (abs d.coef) in
    (rw (e, abs-directed) near, ground arith, ground arith)

-- A refund and a purchase of the same amount convert to opposite milliunits.
pub outflow-eq-neg-inflow :
    (d : Decimal) {out in' : ℤ}
    → dollars_to_milliunits d true ≡ ok out
    → dollars_to_milliunits d false ≡ ok in'
    → out ≡ neg in'
outflow-eq-neg-inflow d h k =
    ground (
      arith,
      dollars_to_milliunits-IsConverted d true h,
      dollars_to_milliunits-IsConverted d false k,
    )

-- What IEEE 754 and `repr` promise of a decimal with at most 15 significant digits: the text of its
-- float has the same value and sign.
abbrev pub KeepsFifteenDigits : (Decimal → Decimal) → Type 0
KeepsFifteenDigits float_text =
    (d : Decimal)
    → abs d.coef < 10 ^ 15
    → (abs (float_text d).coef * 10 ^ d.scale ≡ abs d.coef * 10 ^ (float_text d).scale)
      × (is_negative (float_text d) ≡ is_negative d)

-- Another decimal of the same value gives the same milliunits.
same_units :
    (x m b : ℕ) → 2 * (x * b) ≤ 2 * (m * b) + b → 2 * (m * b) ≤ 2 * (x * b) + b → 0 < b → x ≡ m
same_units x m b h k l =
    let low : (2 * x) * b ≤ (2 * m + 1) * b = grind arith in
    let high : (2 * m) * b ≤ (2 * x + 1) * b = grind arith in
    let at_most = le_of_mul-le-mul_right low l in
    let at_least = le_of_mul-le-mul_right high l in omega arith

rescale_value : (s n m : ℕ) → n * 10 ^ 3 ≡ m * 10 ^ s → rescale 3 s n ≡ m
rescale_value s n m e =
    let (low, high) = rescale-IsNearest s n in
    same_units (rescale 3 s n) m (10 ^ s) (omega arith) (omega arith) (pow_ten_pos s)

directed-abs : (m : ℤ) → directed (ltb_ℤ m (pos 0)) (pos (abs m)) ≡ m
directed-abs (pos n) = ground arith
directed-abs (negsuc n) = ground arith

quantize-value :
    (d : Decimal) (m : ℕ)
    → rescale 3 d.scale (abs d.coef) ≡ m
    → m < precision_limit
    → quantize 3 (magnitude d) ≡ some (record { coef = pos m; scale = 3 })
unfolding quantize
quantize-value d m e h = rw (← e) (ground (arith, h, e))

same_value-converts :
    (d : Decimal) (m : ℕ) (outflow : Bool)
    → abs d.coef * 10 ^ 3 ≡ m * 10 ^ d.scale
    → m < precision_limit
    → dollars_to_milliunits (magnitude d) outflow ≡ ok (directed outflow (pos m))
unfolding dollars_to_milliunits
same_value-converts d m outflow e h =
    let value = quantize-value d m (rescale_value d.scale (abs d.coef) m e) h in
    let units = to_integral-times m in ground arith

quantize-thousandths :
    (m : ℤ)
    → abs m < precision_limit
    → quantize 3 (record { coef = m; scale = 3 }) ≡ some (record { coef = m; scale = 3 })
unfolding quantize
quantize-thousandths (pos n) h = ground (arith, rescale_same n)
quantize-thousandths (negsuc n) h = ground (arith, rescale_same (suc n))

-- Milliunits that YNAB reports survive the way to dollars and back, when the direction is taken from
-- their sign: an amount below 10 ^ 15 converts to dollars, and those convert to the same milliunits.
-- `float` and `str` must keep the value of 15 digits.
pub milliunits_roundtrip :
    (float_text : Decimal → Decimal)
    → KeepsFifteenDigits float_text
    → (m : ℤ) → abs m < 10 ^ 15
    → (d : Decimal) × (milliunits_to_dollars float_text m ≡ some d)
      × (dollars_to_milliunits (magnitude d) (ltb_ℤ m (pos 0)) ≡ ok m)
unfolding milliunits_to_dollars
milliunits_roundtrip float_text keeps m h =
    let exact : Decimal = record { coef = m; scale = 3 } in
    let (value, _) = keeps exact h in
    (
      float_text exact,
      simp (quantize-thousandths m (omega arith)) refl,
      same_value-converts (float_text exact) (abs m) (ltb_ℤ m (pos 0)) value (omega arith)
          ∙ ap ok (directed-abs m),
    )
