-- ===== src/Limits/Usage.antt =====
-- Token counts (types.py), windows of time (windows.py) and prices (registry.py). Times are microseconds
-- since 1970-01-01 UTC, counts of tokens and prices are not negative.
use ynab_receipt_analyzer.Prelude.{
  ℕ, suc, ◌+◌, ◌-◌, ◌*◌, ◌/◌, ◌%◌, ◌^◌, Bool, ◌&&◌, ◌||◌, Option, none, some, List, [], ◌∷◌, ◌==◌,
  ltb, if◌then◌else◌,
}

pub record TokenUsage : Type 0 where
  pub input_tokens : Option ℕ
  pub output_tokens : Option ℕ
  pub cached_input_tokens : Option ℕ
  pub total_tokens : Option ℕ
  pub extra_dimensions : List (ℕ × ℕ)
  pub estimated : Bool

abbrev pub or_zero : Option ℕ → ℕ
or_zero none = 0
or_zero (some n) = n

abbrev pub with_known : Option ℕ → List ℕ → List ℕ
with_known none ns = ns
with_known (some n) ns = n ∷ ns

abbrev pub amounts : List (ℕ × ℕ) → List ℕ
amounts [] = []
amounts ((key, n) ∷ es) = n ∷ amounts es

abbrev pub known_components : TokenUsage → List ℕ
known_components u =
    with_known u.input_tokens
      (with_known u.output_tokens (with_known u.cached_input_tokens (amounts u.extra_dimensions)))

abbrev pub sum_tokens : List ℕ → ℕ
sum_tokens [] = 0
sum_tokens (n ∷ ns) = n + sum_tokens ns

-- A known total stays; without any component there is none.
abbrev pub fill_total : TokenUsage → Option ℕ → List ℕ → TokenUsage
fill_total u (some t) ns = u
fill_total u none [] = u
fill_total u none (n ∷ ns) = record u { total_tokens = some (sum_tokens (n ∷ ns)) }

unfoldable pub with_total_if_missing : TokenUsage → TokenUsage
with_total_if_missing u = fill_total u u.total_tokens (known_components u)

abbrev pub limit_tokens : TokenUsage → ℕ
limit_tokens u = or_zero (with_total_if_missing u).total_tokens

pub data WindowName : Type 0 where
  hourly daily weekly monthly : WindowName

abbrev pub windows : List WindowName
windows = hourly ∷ daily ∷ weekly ∷ monthly ∷ []

abbrev pub hour : ℕ
hour = 3600000000

abbrev pub day : ℕ
day = 24 * hour

-- 1970-01-01 was a Thursday, three days after a Monday. (The first days of 1970 have no Monday here.)
abbrev pub weekday : ℕ → ℕ
weekday t = (t / day + 3) % 7

-- The start of a month is the calendar's (`datetime.replace(day=1, ...)`), a parameter.
unfoldable pub window_start : (ℕ → ℕ) → ℕ → WindowName → ℕ
window_start month_start now hourly = now - now % hour
window_start month_start now daily = now - now % day
window_start month_start now weekly = (now - now % day) - weekday now * day
window_start month_start now monthly = month_start now

-- The units of a price, by how they divide; `unsupported` stands for every other text.
pub data PriceUnit : Type 0 where
  per_million per_thousand per_token unsupported : PriceUnit

-- The digits by which a unit divides. `none` is the `ValueError` of an unsupported one.
abbrev pub unit_scale : PriceUnit → Option ℕ
unit_scale per_million = some 6
unit_scale per_thousand = some 3
unit_scale per_token = some 0
unit_scale unsupported = none

-- The price `coef / 10 ^ scale` dollars of a unit.
pub record PricingDimension : Type 0 where
  pub unit : PriceUnit
  pub coef : ℕ
  pub scale : ℕ

-- Dimensions by their keys: 0 for input, 1 for output, 2 for cached input, others from 3.
abbrev pub find_price : ℕ → List (ℕ × PricingDimension) → Option PricingDimension
find_price key [] = none
find_price key ((k, d) ∷ ds) = if k == key then some d else find_price key ds

abbrev pub keyed : ℕ → Option ℕ → List (ℕ × ℕ) → List (ℕ × ℕ)
keyed key none vs = vs
keyed key (some n) vs = (key, n) ∷ vs

abbrev pub dimension_values : TokenUsage → List (ℕ × ℕ)
dimension_values u =
    keyed 0 u.input_tokens
      (keyed 1 u.output_tokens (keyed 2 u.cached_input_tokens u.extra_dimensions))

-- An amount `n / 10 ^ s`.
abbrev pub Amount : Type 0
Amount = ℕ × ℕ

abbrev pub plus : Option Amount → Option Amount → Option Amount
plus none b = none
plus (some a) none = none
plus (some (n, s)) (some (m, t)) = some (n * 10 ^ t + m * 10 ^ s, s + t)

abbrev pub price_at : ℕ → PricingDimension → Option ℕ → Option Amount
price_at n d none = none
price_at n d (some digits) = some (n * d.coef, digits + d.scale)

abbrev pub price_of : ℕ → Option PricingDimension → Option Amount
price_of n none = some (0, 0)
price_of n (some d) = price_at n d (unit_scale d.unit)

abbrev pub exact_cost : List (ℕ × PricingDimension) → List (ℕ × ℕ) → Option Amount
exact_cost prices [] = some (0, 0)
exact_cost prices ((key, n) ∷ vs) = plus (price_of n (find_price key prices)) (exact_cost prices vs)

-- Division rounded to the nearest, a tie to the even neighbour.
abbrev pub is_odd : ℕ → Bool
is_odd n = n % 2 == 1

abbrev pub round_up : ℕ → ℕ → ℕ → Bool
round_up q r d = ltb d (2 * r) || ((2 * r == d) && is_odd q)

abbrev pub divide_half_even : ℕ → ℕ → ℕ
divide_half_even n d = let q = n / d in if round_up q (n % d) d then suc q else q

abbrev pub quantize_cost : Amount → ℕ
quantize_cost (n, s) = divide_half_even (n * 10 ^ 8) (10 ^ s)

abbrev pub quantize_total : Option Amount → Option ℕ
quantize_total none = none
quantize_total (some total) = some (quantize_cost total)

-- `total.quantize(Decimal("0.00000001"))` of the sum of the priced dimensions, in units of 10 ^ -8
-- dollars. (Quotients by 1, 1000 and 1000000 and their sums stay within 28 digits.) `none` is the
-- `ValueError` of a unit that is not supported.
unfoldable pub compute_cost_usd : List (ℕ × PricingDimension) → TokenUsage → Option ℕ
compute_cost_usd prices u =
    quantize_total (exact_cost prices (dimension_values (with_total_if_missing u)))
