-- ===== src/Limits/Config.antt =====
-- The limits per window (limits.py). A payload is what `json.load` gives, with its numbers read.
use ynab_receipt_analyzer.Prelude.{ℕ, Bool, true, false, Option, none, some}
use ynab_receipt_analyzer.Prelude.Int.{ℤ, pos, negsuc}
use ynab_receipt_analyzer.Limits.Usage.{WindowName}

-- `coef / 10 ^ scale` dollars.
pub record UsdLimit : Type 0 where
  pub coef : ℕ
  pub scale : ℕ

-- A limit of tokens that is given as a bare number may be negative.
pub record WindowLimit : Type 0 where
  pub unlimited : Bool
  pub tokens : Option ℤ
  pub usd : Option UsdLimit

abbrev pub no_limit : WindowLimit
no_limit = record { unlimited = true; tokens = none; usd = none }

-- A map from keys is a function.
pub record LimitsConfig : Type 0 where
  pub global_limits : WindowName → Option WindowLimit
  pub model_limits : ℕ → Option (WindowName → Option WindowLimit)

abbrev pub or_no_limit : Option WindowLimit → WindowLimit
or_no_limit none = no_limit
or_no_limit (some l) = l

abbrev pub get_global : LimitsConfig → WindowName → WindowLimit
get_global c w = or_no_limit (c.global_limits w)

abbrev pub in_model : Option (WindowName → Option WindowLimit) → WindowName → WindowLimit
in_model none w = no_limit
in_model (some limits) w = or_no_limit (limits w)

abbrev pub get_model : LimitsConfig → ℕ → WindowName → WindowLimit
get_model c model_id w = in_model (c.model_limits model_id) w

-- A key of the payload: not there (or null), a number, or something that is no number. A number of
-- tokens is `int` of it, a number of dollars its coefficient and scale.
pub data Raw (A : Type 0) : Type 0 where
  missing unreadable : Raw A
  number : A → Raw A

pub data RawWindow : Type 0 where
  null other : RawWindow
  bare : ℤ → RawWindow
  object : Bool → Raw ℤ → Raw (ℤ × ℕ) → RawWindow

abbrev pub at_least_zero : ℤ → ℤ
at_least_zero (pos n) = pos n
at_least_zero (negsuc n) = pos 0

abbrev pub parse_tokens : Raw ℤ → Option ℤ
parse_tokens missing = none
parse_tokens unreadable = none
parse_tokens (number n) = some (at_least_zero n)

abbrev pub parse_usd : Raw (ℤ × ℕ) → Option UsdLimit
parse_usd missing = none
parse_usd unreadable = none
parse_usd (number (pos n, s)) = some (record { coef = n; scale = s })
parse_usd (number (negsuc n, s)) = some (record { coef = 0; scale = 0 })

-- Without any limit a window is unlimited.
abbrev pub of_parts : Bool → Option ℤ → Option UsdLimit → WindowLimit
of_parts true tokens usd = record { unlimited = true; tokens = tokens; usd = usd }
of_parts false none none = no_limit
of_parts false (some t) usd = record { unlimited = false; tokens = some t; usd = usd }
of_parts false none (some u) = record { unlimited = false; tokens = none; usd = some u }

abbrev pub parse_window_limit : RawWindow → WindowLimit
parse_window_limit null = no_limit
parse_window_limit other = no_limit
parse_window_limit (bare n) = record { unlimited = false; tokens = some n; usd = none }
parse_window_limit (object unlimited tokens usd) =
    of_parts unlimited (parse_tokens tokens) (parse_usd usd)
