-- ===== src/Limits/Refused.antt =====
-- The refusals of `reserve` (apps/server/shared/receipt_shared/ai/store.py).
use ynab_receipt_analyzer.Prelude.{
  ℕ, ◌+◌, ◌≤◌, ◌≡◌, refl, sym, ◌∙◌, Bool, true, false, Option, none, some, List, [], ◌∷◌, ◌++◌, leb,
  arith, if◌then◌else◌, Bool-cases, inl, inr,
}
use ynab_receipt_analyzer.Prelude.Int.{ℤ, pos, negsuc}
use ynab_receipt_analyzer.Limits.Usage.{
  TokenUsage, limit_tokens, with_total_if_missing, WindowName, hourly, daily, weekly, monthly,
  windows,
}
use ynab_receipt_analyzer.Limits.Config.{UsdLimit, WindowLimit, LimitsConfig, get_global, get_model}
use ynab_receipt_analyzer.Limits.Ledger.{
  pending, rejected_by_limit, is_countable, is_of, Event, Ledger, UsageWindowTotals, sum_usage,
  Scope, global, one_model, Violation, check_tokens, check_usd, check_window_limit, Reservation,
  current, window_violations, violations_in, insert_event, zero_usage, refused, settle_violations,
  reserve,
}
use ynab_receipt_analyzer.Limits.Reserved.{
  WithinTokens, WithinUsd, WithinParts, Within, WithinLimits, totals_in, same_id, add_comm,
  window_start-le, sum_usage-insert, allowed≢refused,
}

check_tokens-nil :
    (scope : Scope) (w : WindowName) (limit : Option ℤ) (current incoming : ℕ)
    → WithinTokens limit (current + incoming)
    → check_tokens scope w limit current incoming ≡ []
check_tokens-nil scope w none current incoming h = refl
check_tokens-nil scope w (some (pos limit)) current incoming h = ground arith
check_tokens-nil scope w (some (negsuc limit)) current incoming h = absurd h

check_usd-nil :
    (scope : Scope) (w : WindowName) (limit : Option UsdLimit) (current incoming : ℕ)
    → WithinUsd limit (current + incoming)
    → check_usd scope w limit current incoming ≡ []
check_usd-nil scope w none current incoming h = refl
check_usd-nil scope w (some limit) current incoming h = ground arith

check_window_limit-nil :
    (limit : WindowLimit) (scope : Scope) (w : WindowName) (t : UsageWindowTotals)
    (usage : TokenUsage) (cost : ℕ)
    → WithinParts limit.unlimited limit.tokens limit.usd
        (t.tokens + limit_tokens usage)
        (t.usd + cost)
    → check_window_limit limit scope w t usage cost ≡ []
unfolding check_window_limit
check_window_limit-nil limit scope w t usage cost h = parts limit.unlimited limit.tokens limit.usd h
  where
    parts :
        (unlimited : Bool) (tokens : Option ℤ) (usd : Option UsdLimit)
        → WithinParts unlimited tokens usd (t.tokens + limit_tokens usage) (t.usd + cost)
        → (if unlimited
            then []
            else check_tokens scope w tokens t.tokens (limit_tokens usage)
              ++ check_usd scope w usd t.usd cost)
          ≡ []
    parts true tokens usd h = refl
    parts false tokens usd (h_tokens, h_usd) =
        rw (check_tokens-nil scope w tokens t.tokens (limit_tokens usage) h_tokens)
          (check_usd-nil scope w usd t.usd cost h_usd)

cons≢nil : {A : Type 0} (x : A) (xs : List A) → x ∷ xs ≡ [] → ⊥
cons≢nil x xs e = ground arith

module _ (month_start : ℕ → ℕ) (limits : LimitsConfig) (r : Reservation) (ledger : Ledger) where
  -- The ledger with the estimate of the reservation counted.
  abbrev pub if_counted : Ledger
  if_counted =
      insert_event r.timestamp_utc r.model_id r.estimated_usage r.estimated_cost_usd pending ledger

  counted-nil :
      (w : WindowName) (limit : WindowLimit) (scope : Scope) (wanted : Option ℕ)
      → month_start r.timestamp_utc ≤ r.timestamp_utc
      → is_of wanted r.model_id ≡ true
      → Within limit (totals_in month_start limits r w wanted if_counted)
      → check_window_limit limit scope w
          (totals_in month_start limits r w wanted ledger)
          r.estimated_usage
          r.estimated_cost_usd
        ≡ []
  counted-nil w limit scope wanted le same h =
      check_window_limit-nil limit scope w _ r.estimated_usage r.estimated_cost_usd (
        rw
          (
            sum_usage-insert _ r.timestamp_utc r.model_id r.estimated_cost_usd r.estimated_usage
                wanted ledger (window_start-le month_start r.timestamp_utc w le) same,
            add_comm (limit_tokens r.estimated_usage) _,
            add_comm r.estimated_cost_usd _,
          )
          at h)

  window-nil :
      (w : WindowName)
      → month_start r.timestamp_utc ≤ r.timestamp_utc
      → WithinLimits month_start limits r w if_counted
      → window_violations month_start limits r ledger.events w ≡ []
  window-nil w le (h_global, h_model) =
      rw (counted-nil w (get_global limits w) global none le refl h_global) (
        counted-nil w (get_model limits r.model_id w) (one_model r.model_id) (some r.model_id) le
          (same_id r.model_id) h_model)

  all-nil :
      month_start r.timestamp_utc ≤ r.timestamp_utc
      → ((w : WindowName) → WithinLimits month_start limits r w if_counted)
      → violations_in month_start limits r ledger.events windows ≡ []
  all-nil le h =
      rw
        (
          window-nil hourly le (h hourly),
          window-nil daily le (h daily),
          window-nil weekly le (h weekly),
          window-nil monthly le (h monthly),
        )
        refl

  -- A recorded refusal counts for nothing.
  sum_usage-refused :
      (start : ℕ) (wanted : Option ℕ)
      → sum_usage start is_countable wanted
          (insert_event r.timestamp_utc r.model_id zero_usage 0 rejected_by_limit ledger).events
        ≡ sum_usage start is_countable wanted ledger.events
  unfolding sum_usage insert_event
  sum_usage-refused start wanted = elim (Bool-cases (leb start r.timestamp_utc)) [
    | inl e ↦ simp e refl
    | inr e ↦ simp e refl
  ]

  -- The event of a refusal: no usage and no cost, at the time and for the model of the reservation.
  abbrev pub refusal : ℕ → Event
  refusal i = record {
    id = i;
    timestamp_utc = r.timestamp_utc;
    model_id = r.model_id;
    usage = zero_usage;
    cost_usd = 0;
    status = rejected_by_limit;
    error_text = none;
  }

  refused-id :
      (i : ℕ) (vs : List Violation) (j : ℕ) (found : List Violation)
      → refused j found ≡ refused i vs
      → j ≡ i
  refused-id i vs j found h = ground arith

  recorded :
      (i : ℕ)
      → ledger.next_id ≡ i
      → (insert_event r.timestamp_utc r.model_id zero_usage 0 rejected_by_limit ledger).events
        ≡ refusal i ∷ ledger.events
  unfolding insert_event with_total_if_missing
  recorded i e = simp e refl

  by_violations :
      (i : ℕ) (vs : List Violation) (start : ℕ) (wanted : Option ℕ) (found : List Violation)
      → month_start r.timestamp_utc ≤ r.timestamp_utc
      → violations_in month_start limits r ledger.events windows ≡ found
      → (settle_violations r ledger found).1 ≡ refused i vs
      → (¬ ((w : WindowName) → WithinLimits month_start limits r w if_counted))
        × (sum_usage start is_countable wanted (settle_violations r ledger found).0.events
            ≡ sum_usage start is_countable wanted ledger.events)
        × ((settle_violations r ledger found).0.events ≡ refusal i ∷ ledger.events)
  by_violations i vs start wanted [] le e h = absurd (allowed≢refused ledger.next_id i vs (sym h))
  by_violations i vs start wanted (v ∷ found) le e h = (
    λ all. cons≢nil v found (sym e ∙ all-nil le all),
    sum_usage-refused start wanted,
    recorded i (refused-id i vs ledger.next_id (v ∷ found) h),
  )

  -- A refused reservation would have broken a limit: not all the limits of all windows would hold with its estimate
  -- counted. One event comes to the ledger, of a refusal with the number that is given back and without usage, and the
  -- totals stay what they were, over any time and for any model. The month of the reservation must not start after its
  -- time.
  pub reserve_refused :
      (i : ℕ) (vs : List Violation) (start : ℕ) (wanted : Option ℕ)
      → month_start r.timestamp_utc ≤ r.timestamp_utc
      → (reserve month_start limits r ledger).1 ≡ refused i vs
      → (¬ ((w : WindowName) → WithinLimits month_start limits r w if_counted))
        × (sum_usage start is_countable wanted (reserve month_start limits r ledger).0.events
            ≡ sum_usage start is_countable wanted ledger.events)
        × ((reserve month_start limits r ledger).0.events ≡ refusal i ∷ ledger.events)
  unfolding reserve
  reserve_refused i vs start wanted le h = by_violations i vs start wanted _ le refl h
