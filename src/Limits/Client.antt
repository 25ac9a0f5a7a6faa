-- ===== src/Limits/Client.antt =====
-- The gateway of AI calls (`AIClient._generate` of client.py). The registry of models and the provider are
-- parameters: a provider answers a request with a result or an exception.
use ynab_receipt_analyzer.Prelude.{ℕ, Bool, true, false, Option, none, some, List, []}
use ynab_receipt_analyzer.Limits.Usage.{
  TokenUsage, with_total_if_missing, PricingDimension, compute_cost_usd,
}
use ynab_receipt_analyzer.Limits.Config.{LimitsConfig}
use ynab_receipt_analyzer.Limits.Ledger.{
  success, provider_error, Ledger, Violation, Reservation, ReservationResult, allowed, refused,
  reserve, Settlement, finalize,
}

pub record ModelDefinition : Type 0 where
  pub model_id : ℕ
  pub provider : ℕ
  pub pricing : List (ℕ × PricingDimension)

-- `prompt` stands for the content of the request.
pub record AiRequest : Type 0 where
  pub model_id : ℕ
  pub prompt : ℕ
  pub soft_fail : Bool

pub data ProviderResult : Type 0 where
  generated : ℕ → TokenUsage → ProviderResult
  raised : ℕ → ProviderResult

pub record Provider : Type 0 where
  pub estimate_usage : AiRequest → ModelDefinition → TokenUsage
  pub generate : AiRequest → ModelDefinition → ProviderResult

pub record AiClient : Type 0 where
  pub registry : ℕ → Option ModelDefinition
  pub providers : ℕ → Option Provider
  pub limits : LimitsConfig
  pub month_start : ℕ → ℕ

pub data AiResponse : Type 0 where
  text : ℕ → TokenUsage → ℕ → AiResponse
  limit_rejected : List Violation → AiResponse

pub data AiError : Type 0 where
  unknown_model no_provider : ℕ → AiError
  limit_exceeded : List Violation → AiError
  provider_failed : ℕ → AiError
  event_not_found : ℕ → AiError
  unsupported_unit : AiError

pub data Reply : Type 0 where
  responded : AiResponse → Reply
  failed : AiError → Reply

-- `_empty_usage`
abbrev pub empty_usage : TokenUsage
empty_usage = record {
  input_tokens = some 0;
  output_tokens = some 0;
  cached_input_tokens = none;
  total_tokens = some 0;
  extra_dimensions = [];
  estimated = false;
}

-- Without a usage from the provider, the estimate stands.
abbrev pub final_usage : TokenUsage → TokenUsage → Option ℕ → TokenUsage
final_usage estimate reported (some t) = reported
final_usage estimate reported none = record estimate { estimated = true }

abbrev pub usage_of : TokenUsage → TokenUsage → TokenUsage
usage_of estimate reported =
    let full = with_total_if_missing reported in final_usage estimate full full.total_tokens

abbrev pub refuse : Bool → List Violation → Reply
refuse true vs = responded (limit_rejected vs)
refuse false vs = failed (limit_exceeded vs)

abbrev pub after_finalize : ℕ → Ledger → Option Ledger → Reply → Ledger × Reply
after_finalize i ledger none reply = (ledger, failed (event_not_found i))
after_finalize i ledger (some settled_ledger) reply = (settled_ledger, reply)

abbrev pub settlement_of : TokenUsage → ℕ → Settlement
settlement_of usage cost = record {
  status = success;
  usage = usage;
  cost_usd = cost;
  error_text = none;
}

abbrev pub failure_of : ℕ → Settlement
failure_of error = record {
  status = provider_error;
  usage = empty_usage;
  cost_usd = 0;
  error_text = some error;
}

-- The settlement of a text. A cost that raises leaves the event as it was reserved.
unfoldable pub settle_generated : ℕ → TokenUsage → Option ℕ → ℕ → Ledger → Ledger × Reply
settle_generated t usage none i ledger = (ledger, failed unsupported_unit)
settle_generated t usage (some cost) i ledger =
    after_finalize i ledger (finalize i (settlement_of usage cost) ledger)
      (responded (text t usage cost))

-- The settlement of the reserved event, by what the provider did.
unfoldable pub settle_call :
    List (ℕ × PricingDimension) → TokenUsage → ℕ → ProviderResult → Ledger → Ledger × Reply
settle_call pricing estimate i (raised error) ledger =
    after_finalize i ledger (finalize i (failure_of error) ledger) (failed (provider_failed error))
settle_call pricing estimate i (generated t reported) ledger =
    let usage = usage_of estimate reported in
    settle_generated t usage (compute_cost_usd pricing usage) i ledger

abbrev pub after_reserve :
    Provider
    → ModelDefinition
    → AiRequest
    → TokenUsage
    → Ledger × ReservationResult
    → Ledger × Reply
after_reserve provider model request estimate (ledger, refused i vs) =
    (ledger, refuse request.soft_fail vs)
after_reserve provider model request estimate (ledger, allowed i) =
    settle_call model.pricing estimate i (provider.generate request model) ledger

abbrev pub reservation_of : ModelDefinition → TokenUsage → ℕ → ℕ → Reservation
reservation_of model estimate cost now = record {
  timestamp_utc = now;
  model_id = model.model_id;
  estimated_usage = estimate;
  estimated_cost_usd = cost;
}

-- The cost of the estimate comes before the reservation.
abbrev pub with_estimate :
    AiClient
    → AiRequest
    → ℕ
    → Ledger
    → ModelDefinition
    → Provider
    → TokenUsage
    → Option ℕ
    → Ledger × Reply
with_estimate client request now ledger model provider estimate none =
    (ledger, failed unsupported_unit)
with_estimate client request now ledger model provider estimate (some cost) =
    after_reserve provider model request estimate
      (reserve client.month_start client.limits (reservation_of model estimate cost now) ledger)

abbrev pub with_provider :
    AiClient → AiRequest → ℕ → Ledger → ModelDefinition → Option Provider → Ledger × Reply
with_provider client request now ledger model none = (ledger, failed (no_provider model.provider))
with_provider client request now ledger model (some provider) =
    let estimate = with_total_if_missing (provider.estimate_usage request model) in
    with_estimate client request now ledger model provider estimate
      (compute_cost_usd model.pricing estimate)

abbrev pub with_model : AiClient → AiRequest → ℕ → Ledger → Option ModelDefinition → Ledger × Reply
with_model client request now ledger none = (ledger, failed (unknown_model request.model_id))
with_model client request now ledger (some model) =
    with_provider client request now ledger model (client.providers model.provider)

unfoldable pub generate : AiClient → AiRequest → ℕ → Ledger → Ledger × Reply
generate client request now ledger =
    with_model client request now ledger (client.registry request.model_id)
