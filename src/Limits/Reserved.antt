-- ===== src/Limits/Reserved.antt =====
-- The limits at an allowed `reserve` (apps/server/shared/receipt_shared/ai/store.py).
use ynab_receipt_analyzer.Prelude.{
  ℕ, ◌==◌, ◌+◌, ◌*◌, ◌^◌, ◌≤◌, ◌≡◌, refl, Bool, true, false, Option, none, some, List, [], ◌∷◌,
  ◌++◌, leb, arith, if◌then◌else◌,
}
use ynab_receipt_analyzer.Prelude.Int.{ℤ, pos, negsuc}
use ynab_receipt_analyzer.Limits.Usage.{
  TokenUsage, limit_tokens, WindowName, hourly, daily, weekly, monthly, windows, window_start,
}
use ynab_receipt_analyzer.Limits.Config.{UsdLimit, WindowLimit, LimitsConfig, get_global, get_model}
use ynab_receipt_analyzer.Limits.Ledger.{
  pending, is_countable, is_of, Event, Ledger, UsageWindowTotals, sum_usage, Scope, global,
  one_model, Violation, check_tokens, check_usd, check_window_limit, Reservation, current,
  window_violations, violations_in, insert_event, allowed, refused, settle_violations, reserve,
}

-- The totals of a window are within a limit.
abbrev pub WithinTokens : Option ℤ → ℕ → Type 0
WithinTokens none n = Unit
WithinTokens (some (pos limit)) n = n ≤ limit
WithinTokens (some (negsuc limit)) n = ⊥

abbrev pub WithinUsd : Option UsdLimit → ℕ → Type 0
WithinUsd none n = Unit
WithinUsd (some limit) n = n * 10 ^ limit.scale ≤ limit.coef * 10 ^ 8

abbrev pub WithinParts : Bool → Option ℤ → Option UsdLimit → ℕ → ℕ → Type 0
WithinParts true tokens usd n cost = Unit
WithinParts false tokens usd n cost = WithinTokens tokens n × WithinUsd usd cost

abbrev pub Within : WindowLimit → UsageWindowTotals → Type 0
Within limit totals = WithinParts limit.unlimited limit.tokens limit.usd totals.tokens totals.usd

module _ {A : Type 0} where
  append-nil : (xs ys : List A) → xs ++ ys ≡ [] → (xs ≡ []) × (ys ≡ [])
  append-nil [] ys e = (refl, e)
  append-nil (x ∷ xs) ys e = absurd (nonempty e)
    where
      nonempty : x ∷ (xs ++ ys) ≡ [] → ⊥
      nonempty e = ground arith

check_tokens-Within :
    (scope : Scope) (w : WindowName) (limit : Option ℤ) (current incoming : ℕ)
    → check_tokens scope w limit current incoming ≡ []
    → WithinTokens limit (current + incoming)
check_tokens-Within scope w none current incoming e = tt
check_tokens-Within scope w (some (pos limit)) current incoming e = ground arith
check_tokens-Within scope w (some (negsuc limit)) current incoming e = ground arith

check_usd-Within :
    (scope : Scope) (w : WindowName) (limit : Option UsdLimit) (current incoming : ℕ)
    → check_usd scope w limit current incoming ≡ []
    → WithinUsd limit (current + incoming)
check_usd-Within scope w none current incoming e = tt
check_usd-Within scope w (some limit) current incoming e = ground arith

-- No window starts after its time, where no month does.
pub window_start-le :
    (month_start : ℕ → ℕ) (now : ℕ) (w : WindowName)
    → month_start now ≤ now
    → window_start month_start now w ≤ now
unfolding window_start
window_start-le month_start now hourly le = omega arith
window_start-le month_start now daily le = omega arith
window_start-le month_start now weekly le = omega arith
window_start-le month_start now monthly le = le

-- A limit that is not violated holds with the reservation counted.
check_window_limit-Within :
    (limit : WindowLimit) (scope : Scope) (w : WindowName) (t : UsageWindowTotals)
    (usage : TokenUsage) (cost : ℕ)
    → check_window_limit limit scope w t usage cost ≡ []
    → WithinParts limit.unlimited limit.tokens limit.usd
        (t.tokens + limit_tokens usage)
        (t.usd + cost)
unfolding check_window_limit
check_window_limit-Within limit scope w t usage cost e =
    parts limit.unlimited limit.tokens limit.usd e
  where
    parts :
        (unlimited : Bool) (tokens : Option ℤ) (usd : Option UsdLimit)
        → (if unlimited
            then []
            else check_tokens scope w tokens t.tokens (limit_tokens usage)
              ++ check_usd scope w usd t.usd cost)
          ≡ []
        → WithinParts unlimited tokens usd (t.tokens + limit_tokens usage) (t.usd + cost)
    parts true tokens usd e = tt
    parts false tokens usd e =
        let (none_tokens, none_usd) =
          append-nil (check_tokens scope w tokens t.tokens (limit_tokens usage)) _ e in
        (
          check_tokens-Within scope w tokens t.tokens _ none_tokens,
          check_usd-Within scope w usd t.usd cost none_usd,
        )

violations_in-nil :
    (month_start : ℕ → ℕ) (limits : LimitsConfig) (r : Reservation) (events : List Event)
    (w : WindowName)
    → violations_in month_start limits r events windows ≡ []
    → window_violations month_start limits r events w ≡ []
violations_in-nil month_start limits r events w e = each w
  where
    at : WindowName → List Violation
    at w = window_violations month_start limits r events w

    rest_hourly : at daily ++ (at weekly ++ (at monthly ++ [])) ≡ []
    rest_hourly = (append-nil (at hourly) _ e).1

    rest_daily : at weekly ++ (at monthly ++ []) ≡ []
    rest_daily = (append-nil (at daily) _ rest_hourly).1

    rest_weekly : at monthly ++ [] ≡ []
    rest_weekly = (append-nil (at weekly) _ rest_daily).1

    each : (w : WindowName) → at w ≡ []
    each hourly = (append-nil (at hourly) _ e).0
    each daily = (append-nil (at daily) _ rest_hourly).0
    each weekly = (append-nil (at weekly) _ rest_daily).0
    each monthly = (append-nil (at monthly) _ rest_weekly).0

pub same_id : (m : ℕ) → (m == m) ≡ true
same_id m = ground arith

pub allowed≢refused : (i j : ℕ) (vs : List Violation) → refused j vs ≡ allowed i → ⊥
allowed≢refused i j vs e = ground arith

pub add_comm : (a b : ℕ) → a + b ≡ b + a
add_comm a b = omega arith

leb-le : (a b : ℕ) → a ≤ b → leb a b ≡ true
leb-le a b le = ground arith

-- The totals with a new event at the end of its window.
pub sum_usage-insert :
    (start ts m cost : ℕ) (usage : TokenUsage) (wanted : Option ℕ) (ledger : Ledger)
    → start ≤ ts
    → is_of wanted m ≡ true
    → sum_usage start is_countable wanted (insert_event ts m usage cost pending ledger).events
      ≡ record {
        tokens = limit_tokens usage + (sum_usage start is_countable wanted ledger.events).tokens;
        usd = cost + (sum_usage start is_countable wanted ledger.events).usd;
      }
unfolding sum_usage insert_event
sum_usage-insert start ts m cost usage wanted ledger le same = simp (leb-le start ts le, same) refl

module _ (month_start : ℕ → ℕ) (limits : LimitsConfig) (r : Reservation) (w : WindowName) where
  -- The totals of the window over a ledger, of all models or of one.
  abbrev pub totals_in : Option ℕ → Ledger → UsageWindowTotals
  totals_in wanted ledger =
      sum_usage (window_start month_start r.timestamp_utc w) is_countable wanted ledger.events

  -- All the limits of the window and of the model hold.
  abbrev pub WithinLimits : Ledger → Type 0
  WithinLimits ledger =
      Within (get_global limits w) (totals_in none ledger)
      × Within (get_model limits r.model_id w) (totals_in (some r.model_id) ledger)

  inserted-Within :
      (limit : WindowLimit) (scope : Scope) (wanted : Option ℕ) (ledger : Ledger)
      → month_start r.timestamp_utc ≤ r.timestamp_utc
      → is_of wanted r.model_id ≡ true
      → check_window_limit limit scope w
          (totals_in wanted ledger)
          r.estimated_usage
          r.estimated_cost_usd
        ≡ []
      → Within limit (
          totals_in wanted (
            insert_event r.timestamp_utc r.model_id r.estimated_usage r.estimated_cost_usd pending
              ledger))
  inserted-Within limit scope wanted ledger le same e =
      rw
        (
          sum_usage-insert _ r.timestamp_utc r.model_id r.estimated_cost_usd r.estimated_usage
              wanted ledger (window_start-le month_start r.timestamp_utc w le) same,
          add_comm (limit_tokens r.estimated_usage) _,
          add_comm r.estimated_cost_usd _,
        )
        (check_window_limit-Within limit scope w (totals_in wanted ledger) r.estimated_usage
          r.estimated_cost_usd e)

  settle_violations-Within :
      (ledger : Ledger) (i : ℕ) (vs : List Violation)
      → month_start r.timestamp_utc ≤ r.timestamp_utc
      → violations_in month_start limits r ledger.events windows ≡ vs
      → (settle_violations r ledger vs).1 ≡ allowed i
      → WithinLimits (settle_violations r ledger vs).0
  settle_violations-Within ledger i [] le e h =
      let (ok_global, ok_model) =
        append-nil
          (check_window_limit (get_global limits w) global w (totals_in none ledger)
            r.estimated_usage r.estimated_cost_usd)
          _ (violations_in-nil month_start limits r ledger.events w e) in
      (
        inserted-Within (get_global limits w) global none ledger le refl ok_global,
        inserted-Within (get_model limits r.model_id w) (one_model r.model_id) (some r.model_id)
            ledger le (same_id r.model_id) ok_model,
      )
  settle_violations-Within ledger i (v ∷ vs) le e h =
      absurd (allowed≢refused i ledger.next_id (v ∷ vs) h)

  -- An allowed reservation keeps every limit: with its estimate counted, the totals of each window are within the
  -- limits of all models and of its own. Its month must not start after its time.
  pub reserve-WithinLimits :
      (ledger : Ledger) (i : ℕ)
      → month_start r.timestamp_utc ≤ r.timestamp_utc
      → (reserve month_start limits r ledger).1 ≡ allowed i
      → WithinLimits (reserve month_start limits r ledger).0
  unfolding reserve
  reserve-WithinLimits ledger i le h = settle_violations-Within ledger i _ le refl h
