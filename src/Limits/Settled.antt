-- ===== src/Limits/Settled.antt =====
-- The ledger after a call of `AIClient._generate` (apps/server/shared/receipt_shared/ai/client.py).
use ynab_receipt_analyzer.Prelude.{
  ℕ, ◌⊎◌, suc, ◌+◌, ◌<◌, ◌≡◌, refl, Bool, true, false, ◌&&◌, Option, none, some, List, [], ◌∷◌, All,
  ◌==◌, leb, arith, if◌then◌else◌, Bool-cases, inl, inr,
}
use ynab_receipt_analyzer.Limits.Usage.{
  TokenUsage, with_total_if_missing, limit_tokens, PricingDimension,
}
use ynab_receipt_analyzer.Limits.Ledger.{
  EventStatus, pending, success, provider_error, rejected_by_limit, is_of, Event, Ledger,
  UsageWindowTotals, sum_usage, insert_event, Violation, settle_violations, reserve, Settlement,
  settle_events, finalize, zero_usage,
}
use ynab_receipt_analyzer.Limits.Reserved.{same_id}
use ynab_receipt_analyzer.Limits.Client.{
  ModelDefinition, AiRequest, ProviderResult, generated, raised, Provider, AiClient, text,
  limit_rejected, unknown_model, no_provider, limit_exceeded, provider_failed, event_not_found,
  Reply, responded, failed, usage_of, refuse, settlement_of, failure_of, unsupported_unit,
  settle_generated, settle_call, after_reserve, reservation_of, with_estimate, with_provider,
  generate,
}

-- The numbers of the events were given before.
abbrev pub WellNumbered : Ledger → Type 0
WellNumbered ledger = All (λ (e : Event). e.id < ledger.next_id) ledger.events

-- How many reservations wait for their settlement.
abbrev pub is_pending : EventStatus → Bool
is_pending pending = true
is_pending success = false
is_pending provider_error = false
is_pending rejected_by_limit = false

abbrev pub count_pending : List Event → ℕ
count_pending [] = 0
count_pending (e ∷ es) = (if is_pending e.status then 1 else 0) + count_pending es

All-below-suc :
    (n : ℕ) (es : List Event)
    → All (λ (e : Event). e.id < n) es
    → All (λ (e : Event). e.id < suc n) es
All-below-suc n [] h = tt
All-below-suc n (e ∷ es) (h, hs) = (omega arith, All-below-suc n es hs)

settle_events-below :
    (n : ℕ) (s : Settlement) (es : List Event)
    → All (λ (e : Event). e.id < n) es
    → settle_events n s es ≡ es
unfolding settle_events
settle_events-below n s [] h = refl
settle_events-below n s (e ∷ es) (h, hs) =
    simp (other_id e.id n h, settle_events-below n s es hs) refl
  where
    other_id : (i n : ℕ) → i < n → (i == n) ≡ false
    other_id i n h = ground arith

-- The ledger with a new event that is settled.
abbrev settled_ledger : ℕ → ℕ → Settlement → Ledger → Ledger
settled_ledger ts m s ledger = record {
  events =
      record {
        id = ledger.next_id;
        timestamp_utc = ts;
        model_id = m;
        usage = with_total_if_missing s.usage;
        cost_usd = s.cost_usd;
        status = s.status;
        error_text = s.error_text;
      }
      ∷ ledger.events;
  next_id = suc ledger.next_id;
}

finalize-inserted :
    (ts m cost : ℕ) (usage : TokenUsage) (s : Settlement) (ledger : Ledger)
    → WellNumbered ledger
    → finalize ledger.next_id s (insert_event ts m usage cost pending ledger)
      ≡ some (settled_ledger ts m s ledger)
unfolding finalize insert_event settle_events
finalize-inserted ts m cost usage s ledger h =
    simp (same_id ledger.next_id, settle_events-below ledger.next_id s ledger.events h) refl

-- The statuses that a report counts: successes, and neither failures nor refusals.
pub record CountsSuccess (statuses : EventStatus → Bool) : Type 0 where
  pub successes : statuses success ≡ true
  pub failures : statuses provider_error ≡ false
  pub refusals : statuses rejected_by_limit ≡ false

module _ (statuses : EventStatus → Bool) (start : ℕ) (wanted : Option ℕ) where
  abbrev pub totals : Ledger → UsageWindowTotals
  totals ledger = sum_usage start statuses wanted ledger.events

  -- The totals after a charge at a time for a model.
  abbrev pub charged : ℕ → ℕ → TokenUsage → ℕ → UsageWindowTotals → UsageWindowTotals
  charged now m usage cost t =
      if leb start now && is_of wanted m
      then record { tokens = limit_tokens usage + t.tokens; usd = cost + t.usd }
      else t

  -- Only the reservation of the call has come to the ledger, and waits.
  abbrev pub LeftPending : ℕ → ℕ → Ledger → Ledger → Type 0
  LeftPending now m before after =
      (estimate : TokenUsage) × (cost : ℕ) × (after
        ≡ insert_event now m estimate cost pending before)

  -- The totals after a call, by its reply.
  abbrev pub ChargedFor : ℕ → ℕ → Ledger → Ledger × Reply → Type 0
  ChargedFor now m before (after, responded (text t usage cost)) =
      totals after ≡ charged now m usage cost (totals before)
  ChargedFor now m before (after, responded (limit_rejected vs)) = totals after ≡ totals before
  ChargedFor now m before (after, failed (unknown_model i)) = after ≡ before
  ChargedFor now m before (after, failed (no_provider i)) = after ≡ before
  ChargedFor now m before (after, failed (limit_exceeded vs)) = totals after ≡ totals before
  ChargedFor now m before (after, failed (provider_failed e)) = totals after ≡ totals before
  ChargedFor now m before (after, failed (event_not_found i)) = ⊥
  ChargedFor now m before (after, failed unsupported_unit) =
      (after ≡ before) ⊎ LeftPending now m before after

  -- The reservations that wait after a call, by its reply.
  abbrev pub SamePending : Ledger → Ledger × Reply → Type 0
  SamePending before (after, responded response) =
      count_pending after.events ≡ count_pending before.events
  SamePending before (after, failed (unknown_model i)) =
      count_pending after.events ≡ count_pending before.events
  SamePending before (after, failed (no_provider i)) =
      count_pending after.events ≡ count_pending before.events
  SamePending before (after, failed (limit_exceeded vs)) =
      count_pending after.events ≡ count_pending before.events
  SamePending before (after, failed (provider_failed e)) =
      count_pending after.events ≡ count_pending before.events
  SamePending before (after, failed (event_not_found i)) = ⊥
  SamePending before (after, failed unsupported_unit) = Unit

  -- No reservation is left, the numbers stay good, and the totals are right.
  pub record Accounted (now m : ℕ) (before : Ledger) (result : Ledger × Reply) : Type 0 where
    pub nothing_pending : SamePending before result
    pub numbered : WellNumbered result.0
    pub charge : ChargedFor now m before result

  module _ (counts : CountsSuccess statuses) (now m : ℕ) (before : Ledger)
      (good : WellNumbered before) where
    settled-uncounted :
        (s : Settlement)
        → statuses s.status ≡ false
        → totals (settled_ledger now m s before) ≡ totals before
    unfolding sum_usage
    settled-uncounted s e = elim (Bool-cases (leb start now)) [
      | inl le ↦ simp (e, le) refl
      | inr gt ↦ simp gt refl
    ]

    inserted-WellNumbered :
        (estimate : TokenUsage) (cost : ℕ)
        → WellNumbered (insert_event now m estimate cost pending before)
    unfolding insert_event
    inserted-WellNumbered estimate cost =
        (omega arith, All-below-suc before.next_id before.events good)

    settled-charged :
        (usage : TokenUsage) (cost : ℕ)
        → totals (settled_ledger now m (settlement_of usage cost) before)
          ≡ charged now m usage cost (totals before)
    unfolding sum_usage
    settled-charged usage cost = simp counts.successes refl

    settle_generated-Accounted :
        (t : ℕ) (estimate usage : TokenUsage) (cost : ℕ) (final_cost : Option ℕ)
        → Accounted now m before (
            settle_generated t usage final_cost before.next_id
              (insert_event now m estimate cost pending before))
    unfolding settle_generated
    settle_generated-Accounted t estimate usage cost none = record {
      nothing_pending = tt;
      numbered = inserted-WellNumbered estimate cost;
      charge = inr (estimate, cost, refl);
    }
    settle_generated-Accounted t estimate usage cost (some final_cost) =
        rw (finalize-inserted now m cost estimate (settlement_of usage final_cost) before good)
          (record {
            nothing_pending = omega arith;
            numbered = (omega arith, All-below-suc before.next_id before.events good);
            charge = settled-charged usage final_cost;
          })

    settle_call-Accounted :
        (pricing : List (ℕ × PricingDimension)) (estimate : TokenUsage) (result : ProviderResult)
        (cost : ℕ)
        → Accounted now m before (
            settle_call pricing estimate before.next_id result
              (insert_event now m estimate cost pending before))
    unfolding settle_call
    settle_call-Accounted pricing estimate (raised error) cost =
        rw (finalize-inserted now m cost estimate (failure_of error) before good) (record {
          nothing_pending = omega arith;
          numbered = (omega arith, All-below-suc before.next_id before.events good);
          charge = settled-uncounted (failure_of error) counts.failures;
        })
    settle_call-Accounted pricing estimate (generated t reported) cost =
        settle_generated-Accounted t estimate (usage_of estimate reported) cost _

    totals-refused :
        totals (insert_event now m zero_usage 0 rejected_by_limit before) ≡ totals before
    unfolding sum_usage insert_event
    totals-refused = elim (Bool-cases (leb start now)) [
      | inl le ↦ simp (counts.refusals, le) refl
      | inr gt ↦ simp gt refl
    ]

    refuse-Accounted :
        (soft : Bool) (vs : List Violation)
        → Accounted now m before
            (insert_event now m zero_usage 0 rejected_by_limit before, refuse soft vs)
    unfolding insert_event
    refuse-Accounted true vs = record {
      nothing_pending = omega arith;
      numbered = (omega arith, All-below-suc before.next_id before.events good);
      charge = totals-refused;
    }
    refuse-Accounted false vs = record {
      nothing_pending = omega arith;
      numbered = (omega arith, All-below-suc before.next_id before.events good);
      charge = totals-refused;
    }

  module _ (counts : CountsSuccess statuses) (client : AiClient) (request : AiRequest) (now : ℕ)
      (before : Ledger) (good : WellNumbered before) where
    reserved-Accounted :
        (provider : Provider) (model : ModelDefinition) (estimate : TokenUsage) (cost : ℕ)
        (vs : List Violation)
        → Accounted now model.model_id before (
            after_reserve provider model request estimate
              (settle_violations (reservation_of model estimate cost now) before vs))
    reserved-Accounted provider model estimate cost [] =
        settle_call-Accounted counts now model.model_id before good model.pricing estimate
          (provider.generate request model) _
    reserved-Accounted provider model estimate cost (v ∷ vs) =
        refuse-Accounted counts now model.model_id before good request.soft_fail (v ∷ vs)

    estimated-Accounted :
        (provider : Provider) (model : ModelDefinition) (estimate : TokenUsage) (cost : Option ℕ)
        → Accounted now model.model_id before
            (with_estimate client request now before model provider estimate cost)
    unfolding reserve
    estimated-Accounted provider model estimate none = record {
      nothing_pending = tt;
      numbered = good;
      charge = inl refl;
    }
    estimated-Accounted provider model estimate (some cost) =
        reserved-Accounted provider model estimate cost _

    with_provider-Accounted :
        (model : ModelDefinition) (provider : Option Provider)
        → Accounted now model.model_id before
            (with_provider client request now before model provider)
    with_provider-Accounted model none = record {
      nothing_pending = refl;
      numbered = good;
      charge = refl;
    }
    with_provider-Accounted model (some provider) =
        estimated-Accounted provider model
          (with_total_if_missing (provider.estimate_usage request model)) _

    -- After a call for a known model as many reservations wait as before, whatever the provider does, and its event
    -- was always found, unless the call raises that the unit of a price is not supported. In every window, for all
    -- models or one, the totals grow by the usage and the cost of the reply where it is a text in that window and for
    -- that model, and stay what they were where the provider failed, a limit refused the call or there is no provider.
    -- A call that raises for a unit leaves the ledger as it was, or has its reservation come to it and wait. The
    -- numbers of the events must have been given before; they still are.
    pub generate-Accounted :
        (model : ModelDefinition)
        → client.registry request.model_id ≡ some model
        → Accounted now model.model_id before (generate client request now before)
    unfolding generate
    generate-Accounted model e =
        rw e (with_provider-Accounted model (client.providers model.provider))
