-- ===== src/Money.antt =====
-- The one conversion path between dollars and YNAB's milliunits
-- (apps/server/shared/receipt_shared/money.py).
pub mod Decimals
pub mod Rounding
use ynab_receipt_analyzer.Prelude.{ℕ, Bool, true, false, Option, none, some, ◌&&◌, if◌then◌else◌}
use ynab_receipt_analyzer.Prelude.Int.{ℤ, pos, neg, ltb_ℤ}
use Decimals.{Decimal, quantize, to_integral, times, is_negative}

abbrev map_option : (Decimal → Decimal) → Option Decimal → Option Decimal
map_option f none = none
map_option f (some d) = some (f d)

-- The exceptions that a conversion raises.
pub data MoneyError : Type 0 where
  negative_amount invalid_operation : MoneyError

pub data Converted : Type 0 where
  ok : ℤ → Converted
  err : MoneyError → Converted

-- The sign of a result: an outflow is negative.
abbrev pub directed : Bool → ℤ → ℤ
directed outflow m = if outflow && ltb_ℤ (pos 0) m then neg m else m

unfoldable pub dollars_to_milliunits : Decimal → Bool → Converted
dollars_to_milliunits amount outflow = elim (quantize 3 amount) [
  | none ↦ err invalid_operation
  | some dec ↦
      if is_negative dec
      then err negative_amount
      else ok (directed outflow (to_integral (times 1000 dec)))
]

-- `float` and `str` are Python's: `float_text` gives the decimal that `str` prints of the float of a
-- decimal, and such decimals stand for floats here.
unfoldable pub milliunits_to_dollars : (Decimal → Decimal) → ℤ → Option Decimal
milliunits_to_dollars float_text amount_milliunits =
    map_option float_text (quantize 3 (record { coef = amount_milliunits; scale = 3 }))
