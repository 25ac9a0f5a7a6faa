-- ===== src/Limits/Ledger.antt =====
-- The ledger of usage (store.py). A reservation and a settlement run alone, under the lock of the store.
-- Costs are in units of 10 ^ -8 dollars, the precision of the column. An event's `metadata` and the names of
-- its route and provider are left out.
use ynab_receipt_analyzer.Prelude.{
  ℕ, suc, ◌+◌, ◌*◌, ◌^◌, Bool, true, false, ◌&&◌, Option, none, some, List, [], ◌∷◌, ◌++◌, ◌==◌,
  ltb, leb, if◌then◌else◌, any,
}
use ynab_receipt_analyzer.Prelude.Int.{ℤ, pos, negsuc}
use ynab_receipt_analyzer.Limits.Usage.{
  TokenUsage, or_zero, with_total_if_missing, limit_tokens, WindowName, windows, window_start,
}
use ynab_receipt_analyzer.Limits.Config.{UsdLimit, WindowLimit, LimitsConfig, get_global, get_model}

pub data EventStatus : Type 0 where
  pending success provider_error rejected_by_limit : EventStatus

pub record Event : Type 0 where
  pub id : ℕ
  pub timestamp_utc : ℕ
  pub model_id : ℕ
  pub usage : TokenUsage
  pub cost_usd : ℕ
  pub status : EventStatus
  pub error_text : Option ℕ

-- The events, newest first, and the number of the next one.
pub record Ledger : Type 0 where
  pub events : List Event
  pub next_id : ℕ

pub record UsageWindowTotals : Type 0 where
  pub tokens : ℕ
  pub usd : ℕ

-- `COUNTABLE_STATUSES` and `SUCCESS_STATUSES`
abbrev pub is_countable : EventStatus → Bool
is_countable pending = true
is_countable success = true
is_countable provider_error = false
is_countable rejected_by_limit = false

abbrev pub is_success : EventStatus → Bool
is_success success = true
is_success pending = false
is_success provider_error = false
is_success rejected_by_limit = false

abbrev pub is_of : Option ℕ → ℕ → Bool
is_of none m = true
is_of (some wanted) m = m == wanted

abbrev pub is_counted : ℕ → (EventStatus → Bool) → Option ℕ → Event → Bool
is_counted start statuses model e =
    leb start e.timestamp_utc && (statuses e.status && is_of model e.model_id)

abbrev pub no_totals : UsageWindowTotals
no_totals = record { tokens = 0; usd = 0 }

abbrev pub plus_event : Event → UsageWindowTotals → UsageWindowTotals
plus_event e t = record {
  tokens = or_zero e.usage.total_tokens + t.tokens;
  usd = e.cost_usd + t.usd;
}

unfoldable pub sum_usage : ℕ → (EventStatus → Bool) → Option ℕ → List Event → UsageWindowTotals
sum_usage start statuses model [] = no_totals
sum_usage start statuses model (e ∷ es) =
    if is_counted start statuses model e
    then plus_event e (sum_usage start statuses model es)
    else sum_usage start statuses model es

pub data Scope : Type 0 where
  global : Scope
  one_model : ℕ → Scope

pub data Violation : Type 0 where
  tokens_exceeded : Scope → WindowName → ℤ → ℕ → ℕ → Violation
  usd_exceeded : Scope → WindowName → UsdLimit → ℕ → ℕ → Violation

abbrev pub over_tokens : ℕ → ℤ → Bool
over_tokens projected (pos limit) = ltb limit projected
over_tokens projected (negsuc n) = true

abbrev pub over_usd : ℕ → UsdLimit → Bool
over_usd projected limit = ltb (limit.coef * 10 ^ 8) (projected * 10 ^ limit.scale)

abbrev pub check_tokens : Scope → WindowName → Option ℤ → ℕ → ℕ → List Violation
check_tokens scope w none current incoming = []
check_tokens scope w (some limit) current incoming =
    if over_tokens (current + incoming) limit
    then tokens_exceeded scope w limit current (current + incoming) ∷ []
    else []

abbrev pub check_usd : Scope → WindowName → Option UsdLimit → ℕ → ℕ → List Violation
check_usd scope w none current incoming = []
check_usd scope w (some limit) current incoming =
    if over_usd (current + incoming) limit
    then usd_exceeded scope w limit current (current + incoming) ∷ []
    else []

unfoldable pub check_window_limit :
    WindowLimit → Scope → WindowName → UsageWindowTotals → TokenUsage → ℕ → List Violation
check_window_limit limit scope w current usage cost =
    if limit.unlimited
    then []
    else check_tokens scope w limit.tokens current.tokens (limit_tokens usage)
      ++ check_usd scope w limit.usd current.usd cost

pub record Reservation : Type 0 where
  pub timestamp_utc : ℕ
  pub model_id : ℕ
  pub estimated_usage : TokenUsage
  pub estimated_cost_usd : ℕ

module _ (month_start : ℕ → ℕ) (limits : LimitsConfig) (r : Reservation) (events : List Event) where
  abbrev pub current : Option ℕ → WindowName → UsageWindowTotals
  current model w = sum_usage (window_start month_start r.timestamp_utc w) is_countable model events

  abbrev pub window_violations : WindowName → List Violation
  window_violations w =
      check_window_limit (get_global limits w) global w (current none w) r.estimated_usage
        r.estimated_cost_usd
      ++ check_window_limit (get_model limits r.model_id w) (one_model r.model_id) w
          (current (some r.model_id) w) r.estimated_usage r.estimated_cost_usd

  abbrev pub violations_in : List WindowName → List Violation
  violations_in [] = []
  violations_in (w ∷ ws) = window_violations w ++ violations_in ws

-- Insertion gives the event its number.
unfoldable pub insert_event : ℕ → ℕ → TokenUsage → ℕ → EventStatus → Ledger → Ledger
insert_event ts m usage cost status ledger = record {
  events =
      record {
        id = ledger.next_id;
        timestamp_utc = ts;
        model_id = m;
        usage = with_total_if_missing usage;
        cost_usd = cost;
        status = status;
        error_text = none;
      }
      ∷ ledger.events;
  next_id = suc ledger.next_id;
}

abbrev pub zero_usage : TokenUsage
zero_usage = record {
  input_tokens = none;
  output_tokens = none;
  cached_input_tokens = none;
  total_tokens = some 0;
  extra_dimensions = [];
  estimated = false;
}

pub data ReservationResult : Type 0 where
  allowed : ℕ → ReservationResult
  refused : ℕ → List Violation → ReservationResult

-- A reservation that violates a limit is only recorded.
abbrev pub settle_violations : Reservation → Ledger → List Violation → Ledger × ReservationResult
settle_violations r ledger [] = (
  insert_event r.timestamp_utc r.model_id r.estimated_usage r.estimated_cost_usd pending ledger,
  allowed ledger.next_id,
)
settle_violations r ledger (v ∷ vs) = (
  insert_event r.timestamp_utc r.model_id zero_usage 0 rejected_by_limit ledger,
  refused ledger.next_id (v ∷ vs),
)

unfoldable pub reserve : (ℕ → ℕ) → LimitsConfig → Reservation → Ledger → Ledger × ReservationResult
reserve month_start limits r ledger =
    settle_violations r ledger (violations_in month_start limits r ledger.events windows)

pub record Settlement : Type 0 where
  pub status : EventStatus
  pub usage : TokenUsage
  pub cost_usd : ℕ
  pub error_text : Option ℕ

abbrev pub settled : Settlement → Event → Event
settled s e = record e {
  status = s.status;
  usage = with_total_if_missing s.usage;
  cost_usd = s.cost_usd;
  error_text = s.error_text;
}

unfoldable pub settle_events : ℕ → Settlement → List Event → List Event
settle_events i s [] = []
settle_events i s (e ∷ es) = (if e.id == i then settled s e else e) ∷ settle_events i s es

-- `none` is the error that there is no such event.
unfoldable pub finalize : ℕ → Settlement → Ledger → Option Ledger
finalize i s ledger =
    if any (λ (e : Event). e.id == i) ledger.events
    then some (record ledger { events = settle_events i s ledger.events })
    else none
