-- ===== src/Tests/Spending.antt =====
-- The limits on AI usage at concrete ledgers.
use ynab_receipt_analyzer.Prelude.{
  ℕ, ◌+◌, ◌/◌, ◌*◌, ◌≡◌, refl, true, false, none, some, List, [], ◌∷◌, arith,
}
use ynab_receipt_analyzer.Prelude.Int.{pos}
use ynab_receipt_analyzer.Limits.Usage.{
  TokenUsage, with_total_if_missing, hourly, weekly, WindowName, day, window_start,
  PricingDimension, per_million, compute_cost_usd,
}
use ynab_receipt_analyzer.Limits.Config.{LimitsConfig, bare, parse_window_limit}
use ynab_receipt_analyzer.Limits.Ledger.{
  is_countable, is_success, success, Ledger, sum_usage, check_window_limit, tokens_exceeded, global,
  Reservation, allowed, refused, reserve,
}
use ynab_receipt_analyzer.Limits.Client.{
  ModelDefinition, AiRequest, generated, Provider, AiClient, generate,
}
use ynab_receipt_analyzer.Limits.Reserved.{WithinLimits, reserve-WithinLimits}
use ynab_receipt_analyzer.Limits.Refused.{if_counted, refusal, reserve_refused}
use ynab_receipt_analyzer.Limits.Settled.{CountsSuccess, Accounted, generate-Accounted}
use ynab_receipt_analyzer.Limits.Bounds.{Starts, window_start-Starts}

-- A calendar of one month.
abbrev one_month : ℕ → ℕ
one_month t = 0

abbrev noon : ℕ
noon = 20000 * day + day / 2

abbrev small_usage : TokenUsage
small_usage = record {
  input_tokens = some 30;
  output_tokens = some 10;
  cached_input_tokens = none;
  total_tokens = none;
  extra_dimensions = [];
  estimated = true;
}

-- At most 100 tokens an hour.
abbrev hundred : LimitsConfig
hundred = record {
  global_limits = λ w. elim w [ hourly ↦ some (parse_window_limit (bare (pos 100))) | _ ↦ none ];
  model_limits = λ m. none;
}

abbrev used : ℕ → Ledger
used n = record {
  events =
      record {
        id = 0;
        timestamp_utc = noon;
        model_id = 1;
        usage = record small_usage { total_tokens = some n };
        cost_usd = 5;
        status = success;
        error_text = none;
      }
      ∷ [];
  next_id = 1;
}

abbrev small_call : Reservation
small_call = record {
  timestamp_utc = noon;
  model_id = 1;
  estimated_usage = small_usage;
  estimated_cost_usd = 7;
}

small_call_allowed : (reserve one_month hundred small_call (used 60)).1 ≡ allowed 1
unfolding reserve check_window_limit sum_usage window_start with_total_if_missing
small_call_allowed = refl

small_call_refused :
    (reserve one_month hundred small_call (used 61)).1
    ≡ refused 1 (tokens_exceeded global hourly (pos 100) 61 101 ∷ [])
unfolding reserve check_window_limit sum_usage window_start with_total_if_missing
small_call_refused = refl

reserve-WithinLimits_example :
    WithinLimits one_month hundred small_call hourly
      (reserve one_month hundred small_call (used 60)).0
reserve-WithinLimits_example =
    reserve-WithinLimits one_month hundred small_call hourly (used 60) 1 (omega arith)
      small_call_allowed

reserve_refused_example :
    (¬ (
      (w : WindowName)
      → WithinLimits one_month hundred small_call w
          (if_counted one_month hundred small_call (used 61))))
    × (sum_usage 0 is_countable none (reserve one_month hundred small_call (used 61)).0.events
        ≡ sum_usage 0 is_countable none (used 61).events)
    × ((reserve one_month hundred small_call (used 61)).0.events
        ≡ refusal one_month hundred small_call (used 61) 1 ∷ (used 61).events)
reserve_refused_example =
    reserve_refused one_month hundred small_call (used 61) 1 _ 0 none (omega arith)
      small_call_refused

abbrev cheap : List (ℕ × PricingDimension)
cheap = (0, record { unit = per_million; coef = 3; scale = 1 }) ∷ []

abbrev flash : ModelDefinition
flash = record { model_id = 1; provider = 4; pricing = cheap }

abbrev echo : Provider
echo = record {
  estimate_usage = λ request model. small_usage;
  generate = λ request model. generated request.prompt small_usage;
}

abbrev gateway : AiClient
gateway = record {
  registry = λ m. some flash;
  providers = λ p. some echo;
  limits = hundred;
  month_start = one_month;
}

abbrev question : AiRequest
question = record { model_id = 1; prompt = 42; soft_fail = false }

successes_counted : CountsSuccess is_success
successes_counted = record { successes = refl; failures = refl; refusals = refl }

generate-Accounted_example :
    Accounted is_success 0 none noon 1 (used 60) (generate gateway question noon (used 60))
generate-Accounted_example =
    generate-Accounted is_success 0 none successes_counted gateway question noon (used 60)
      (omega arith, tt) flash refl

window_start-Starts_example : Starts one_month noon weekly (window_start one_month noon weekly)
window_start-Starts_example = window_start-Starts one_month noon weekly (omega arith)

-- 30 tokens at 0.3 dollars a million cost 0.000009 dollars.
small_cost : compute_cost_usd cheap small_usage ≡ some 900
unfolding compute_cost_usd with_total_if_missing
small_cost = refl
